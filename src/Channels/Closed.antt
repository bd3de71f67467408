-- ===== src/Channels/Closed.antt =====
-- What a close sends and how it ends (internal/channels/close_channel.go).
use torq.Prelude.{ℕ, ◌≡◌, refl, Bool, true, Option, List, [], ◌∷◌, ◌++◌, map, String, if◌then◌else◌}
use torq.Constants.{cooperative_closed}
use torq.Events.{CloseChannelRequest}
use torq.Streams.{Received, update, stop, outcome, receive-all}
use torq.Channels.Closing.{
  CloseStatusUpdate, chan_close, process_close_response, close_channel_resp,
}

-- A close sends one event for each update before the stream ends, in order, and none where nothing
-- listens. It ends with nil at the end of the stream and with an error at an error. The event for a
-- close that failed differs from that for one that succeeded in `success` alone: both have the
-- status CooperativeClosed.
pub close_channel_resp-ended :
    (r : CloseChannelRequest) (req_id : String) (listening : Bool) (us : List CloseStatusUpdate)
    (last : Option Unit) (rest : List (Received CloseStatusUpdate Unit)) (txid : List ℕ)
    (success : Bool)
    → (close_channel_resp r req_id listening (map update us ++ (stop last ∷ rest)) ≡ (
      outcome (λ _. "Close channel request receive") last,
      if listening then map (process_close_response r req_id) us else [],
    ))
      × (process_close_response r req_id (chan_close txid success)
          ≡ record (process_close_response r req_id (chan_close txid true)) {
            close_channel_status = record { closing_tx_id = txid; success = success };
          })
      × ((process_close_response r req_id (chan_close txid success)).status ≡ cooperative_closed)
unfolding close_channel_resp process_close_response
close_channel_resp-ended r req_id listening us last rest txid success = (
  receive-all _ "Process close response" (λ _. "Close channel request receive") listening
      (process_close_response r req_id) us last rest (λ u. refl),
  refl,
  refl,
)
