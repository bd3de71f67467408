-- ===== src/Channels/Opened.antt =====
-- What the loop of an opening sends until an update that it cannot process
-- (internal/channels/open_channel.go).
use torq.Prelude.{ℕ, ◌≡◌, refl, ap, Option, none, List, [], ◌∷◌, ◌++◌, map, String, true}
use torq.Prelude.Text.{Text}
use torq.Runtime.{ok, fails}
use torq.Events.{OpenChannelRequest, OpenChannelResponse}
use torq.Streams.{Received, update, failed_with, receive}
use torq.Channels.Opening.{
  OpenStatusUpdate, chan_pending, chan_open, psbt_fund, no_update, translate_chan_point,
  process_open_response, open_channel_loop,
}

module _ (hash_text : List ℕ → Option Text) where
  -- An update of a funding by PSBT, or one whose transaction is no hash.
  abbrev pub IsRefused : OpenStatusUpdate → Type 0
  IsRefused (chan_pending txid index) = hash_text txid ≡ none
  IsRefused (chan_open txid index) = hash_text txid ≡ none
  IsRefused psbt_fund = Unit
  IsRefused no_update = ⊥

  module _ (r : OpenChannelRequest) (req_id : String) where
    -- The responses to updates, in order.
    abbrev pub AreResponses : List OpenStatusUpdate → List OpenChannelResponse → Type 0
    AreResponses [] [] = Unit
    AreResponses (u ∷ us) (o ∷ os) =
        (process_open_response hash_text r req_id u ≡ ok o) × AreResponses us os
    AreResponses _ _ = ⊥

    refused_lem :
        (u : OpenStatusUpdate)
        → IsRefused u
        → (e : String) × (process_open_response hash_text r req_id u ≡ fails e)
    unfolding process_open_response translate_chan_point
    refused_lem (chan_pending txid index) h = ("Chainhash new hash", rw h refl)
    refused_lem (chan_open txid index) h = ("Chainhash new hash", rw h refl)
    refused_lem psbt_fund h = (_, refl)
    refused_lem no_update h = elim h [ ]

    -- An opening sends one event for each update that it can process, in order. At the first that
    -- it cannot, it ends with an error and reads no further, so the events before it have been sent.
    pub open_channel_loop-refused :
        (us : List OpenStatusUpdate) (os : List OpenChannelResponse) (u : OpenStatusUpdate)
        (rest : List (Received OpenStatusUpdate Unit))
        → AreResponses us os
        → IsRefused u
        → open_channel_loop hash_text r req_id true (map update us ++ (update u ∷ rest))
          ≡ (failed_with "Processing open response", os)
    unfolding open_channel_loop receive
    open_channel_loop-refused [] [] u rest are h = rw (refused_lem u h).1 refl
    open_channel_loop-refused (v ∷ us) (o ∷ os) u rest (e, are) h =
        rw e (ap (λ q. (q.0, o ∷ q.1)) (open_channel_loop-refused us os u rest are h))
    open_channel_loop-refused [] (o ∷ os) u rest are h = elim are [ ]
    open_channel_loop-refused (v ∷ us) [] u rest are h = elim are [ ]
