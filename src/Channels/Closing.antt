-- ===== src/Channels/Closing.antt =====
-- The closing of a channel (internal/channels/close_channel.go): the request to LND, the answers to
-- the updates of its stream, and the loop. How LND's closure types are read is in channel.go.
use torq.Prelude.{
  ℕ, ltb, Bool, false, ◌&&◌, Option, none, some, List, [], ◌∷◌, String, ◌==◌, if◌then◌else◌,
}
use torq.Prelude.Text.{Text}
use torq.Runtime.{Result, ok, fails}
use torq.Constants.{ChannelStatus, opening, closing, cooperative_closed}
use torq.Events.{CloseChannelRequest, CloseChannelResponse}
use torq.ChannelCache.Types as ChannelTypes
use torq.ShortIds.Text.{split, unsigned}
use torq.Streams.{Received, Ended, receive}
use torq.Channels.Update.{uint32, or_zero, is_given}
use torq.Channels.Opening.{or_false, or_empty}

-- `lnrpc.CloseChannelRequest`: the fields that the code sets.
pub record LndCloseRequest : Type 0 where
  pub funding_txid : Text
  pub output_index : ℕ
  pub force : Bool
  pub target_conf : ℕ
  pub sat_per_vbyte : ℕ
  pub delivery_address : String

abbrev pub close_request : CloseChannelRequest → ChannelTypes.Settings → LndCloseRequest
close_request r s = record {
  funding_txid = s.funding_transaction_hash;
  output_index = uint32 s.funding_output_index;
  force = or_false r.force;
  target_conf = or_zero r.target_conf;
  sat_per_vbyte = or_zero r.sat_per_vbyte;
  delivery_address = or_empty r.delivery_address;
}

-- `setting` answers for GetChannelSettingByChannelId.
unfoldable pub prepare_close_request :
    (setting : ℕ → ChannelTypes.Settings) → CloseChannelRequest → Result LndCloseRequest
prepare_close_request setting r =
    if r.node_id == 0
    then fails "Node id is missing"
    else if is_given r.sat_per_vbyte && is_given r.target_conf
    then fails "Cannot set both SatPerVbyte and TargetConf"
    else ok (close_request r (setting r.channel_id))

-- `lnrpc.CloseStatusUpdate` by the type of its update.
pub data CloseStatusUpdate : Type 0 where
  close_pending : (txid : List ℕ) → (output_index : ℕ) → CloseStatusUpdate
  chan_close : (closing_txid : List ℕ) → (success : Bool) → CloseStatusUpdate
  no_update : CloseStatusUpdate

abbrev pub zero_close_request : CloseChannelRequest
zero_close_request = record {
  node_id = 0;
  channel_id = 0;
  force = none;
  target_conf = none;
  delivery_address = none;
  sat_per_vbyte = none;
}

-- `CloseChannelResponse{}`
abbrev pub zero_close_response : CloseChannelResponse
zero_close_response = record {
  req_id = "";
  request = zero_close_request;
  status = opening;
  close_pending_channel_point = record { tx_id = []; output_index = 0 };
  close_channel_status = record { closing_tx_id = []; success = false };
}

module _ (r : CloseChannelRequest) (req_id : String) where
  -- A close that was not successful gets the same status.
  unfoldable pub process_close_response : CloseStatusUpdate → CloseChannelResponse
  process_close_response (close_pending txid index) = record zero_close_response {
    req_id = req_id;
    request = r;
    status = closing;
    close_pending_channel_point = record { tx_id = txid; output_index = index };
  }
  process_close_response (chan_close txid success) = record zero_close_response {
    req_id = req_id;
    request = r;
    status = cooperative_closed;
    close_channel_status = record { closing_tx_id = txid; success = success };
  }
  process_close_response no_update = zero_close_response

  unfoldable pub close_channel_resp :
      Bool → List (Received CloseStatusUpdate Unit) → Ended String × List CloseChannelResponse
  close_channel_resp listening l =
      receive (λ u. ok (process_close_response u)) "Process close response"
        (λ _. "Close channel request receive") listening l

-- `strconv.ParseUint(s, 10, 1)` takes 0 and 1 alone.
abbrev pub one_bit : Option ℕ → Option ℕ
one_bit none = none
one_bit (some n) = if ltb n 2 then some n else none

abbrev pub point_of : Text → Option ℕ → Result (Text × ℕ)
point_of txid none = fails "Parsing channel point output index"
point_of txid (some index) = ok (txid, index)

abbrev pub point_of_parts : List Text → Result (Text × ℕ)
point_of_parts (txid ∷ index ∷ []) = point_of txid (one_bit (unsigned index))
point_of_parts _ = fails "Channel point missing a colon"

unfoldable pub convert_channel_point : Text → Result (Text × ℕ)
convert_channel_point t = point_of_parts (split 58 t)

-- LND's numbers for the types of a closure, which are not code of the repository.
pub record ClosureCodes : Type 0 where
  pub cooperative_close : ℕ
  pub local_force_close : ℕ
  pub remote_force_close : ℕ
  pub breach_close : ℕ
  pub funding_canceled : ℕ
  pub abandoned : ℕ

-- The statuses of closed channels behind CooperativeClosed (pkg/commons/constants.go).
abbrev pub local_force_closed : ChannelStatus
local_force_closed = 101

abbrev pub remote_force_closed : ChannelStatus
remote_force_closed = 102

abbrev pub breach_closed : ChannelStatus
breach_closed = 103

abbrev pub funding_cancelled_closed : ChannelStatus
funding_cancelled_closed = 104

abbrev pub abandoned_closed : ChannelStatus
abandoned_closed = 105

unfoldable pub get_closure_status : ClosureCodes → ℕ → ChannelStatus
get_closure_status k t =
    if t == k.cooperative_close
    then cooperative_closed
    else if t == k.local_force_close
    then local_force_closed
    else if t == k.remote_force_close
    then remote_force_closed
    else if t == k.breach_close
    then breach_closed
    else if t == k.funding_canceled
    then funding_cancelled_closed
    else if t == k.abandoned
    then abandoned_closed
    else closing
