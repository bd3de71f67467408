-- ===== src/Channels/Opening.antt =====
-- The opening of a channel (internal/channels/open_channel.go): the request to LND, the answers to the
-- updates of its stream, and the loop.
use torq.Prelude.{
  ℕ, Bool, false, ◌&&◌, Option, none, some, List, [], ◌∷◌, ◌++◌, String, ◌==◌, if◌then◌else◌,
}
use torq.Prelude.Text.{Text}
use torq.Runtime.{Result, ok, fails}
use torq.Constants.{opening, open_channel}
use torq.Events.{OpenChannelRequest, OpenChannelResponse}
use torq.Hex.{decode_string}
use torq.ShortIds.Text.{format_uint}
use torq.Streams.{Received, Ended, receive}
use torq.Channels.Update.{or_zero, is_given}

-- `lnrpc.OpenChannelRequest`: the fields that the code sets.
pub record LndOpenRequest : Type 0 where
  pub node_pubkey : List ℕ
  pub local_funding_amount : ℕ
  pub push_sat : ℕ
  pub sat_per_vbyte : ℕ
  pub target_conf : ℕ
  pub is_private : Bool
  pub min_htlc_msat : ℕ  -- int64
  pub remote_csv_delay : ℕ
  pub min_confs : ℕ
  pub spend_unconfirmed : Bool
  pub close_address : String

abbrev pub or_false : Option Bool → Bool
or_false none = false
or_false (some b) = b

abbrev pub or_empty : Option String → String
or_empty none = ""
or_empty (some s) = s

abbrev pub with_pubkey : OpenChannelRequest → Option (List ℕ) → Result LndOpenRequest
with_pubkey r none = fails "error decoding public key hex"
with_pubkey r (some key) = ok (record {
  node_pubkey = key;
  local_funding_amount = r.local_funding_amount;
  push_sat = or_zero r.push_sat;
  sat_per_vbyte = or_zero r.sat_per_vbyte;
  target_conf = or_zero r.target_conf;
  is_private = or_false r.is_private;
  min_htlc_msat = or_zero r.min_htlc_msat;
  remote_csv_delay = or_zero r.remote_csv_delay;
  min_confs = or_zero r.min_confs;
  spend_unconfirmed = or_false r.spend_unconfirmed;
  close_address = or_empty r.close_address;
})

unfoldable pub prepare_open_request : OpenChannelRequest → Result LndOpenRequest
prepare_open_request r =
    if r.node_id == 0
    then fails "Node id is missing"
    else if is_given r.sat_per_vbyte && is_given r.target_conf
    then fails "Cannot set both SatPerVbyte and TargetConf"
    else with_pubkey r (decode_string r.node_pub_key)

-- `lnrpc.OpenStatusUpdate` by the type of its update.
pub data OpenStatusUpdate : Type 0 where
  chan_pending : (txid : List ℕ) → (output_index : ℕ) → OpenStatusUpdate
  chan_open : (txid : List ℕ) → (output_index : ℕ) → OpenStatusUpdate
  psbt_fund : OpenStatusUpdate
  no_update : OpenStatusUpdate

abbrev pub zero_request : OpenChannelRequest
zero_request = record {
  node_id = 0;
  sat_per_vbyte = none;
  node_pub_key = [];
  host = none;
  local_funding_amount = 0;
  push_sat = none;
  target_conf = none;
  is_private = none;
  min_htlc_msat = none;
  remote_csv_delay = none;
  min_confs = none;
  spend_unconfirmed = none;
  close_address = none;
}

-- `hash_text` is the text of a chain hash, and none where the bytes are no hash. 58 is a colon.
module _ (hash_text : List ℕ → Option Text) where
  abbrev pub point_text : Option Text → ℕ → Result Text
  point_text none index = fails "Chainhash new hash"
  point_text (some h) index = ok (h ++ (58 ∷ format_uint index))

  unfoldable pub translate_chan_point : List ℕ → ℕ → Result Text
  translate_chan_point txid index = point_text (hash_text txid) index

  module _ (r : OpenChannelRequest) (req_id : String) where
    abbrev pub pending_response : Result Text → Result OpenChannelResponse
    pending_response (fails e) = fails e
    pending_response (ok point) = ok (record {
      req_id = req_id;
      request = r;
      status = opening;
      channel_point = [];
      pending_channel_point = point;
    })

    abbrev pub open_response : Result Text → Result OpenChannelResponse
    open_response (fails e) = fails e
    open_response (ok point) = ok (record {
      req_id = req_id;
      request = r;
      status = open_channel;
      channel_point = point;
      pending_channel_point = [];
    })

    -- An update of another type gives the zero response, which is sent like any other.
    unfoldable pub process_open_response : OpenStatusUpdate → Result OpenChannelResponse
    process_open_response (chan_pending txid index) =
        pending_response (translate_chan_point txid index)
    process_open_response (chan_open txid index) = open_response (translate_chan_point txid index)
    process_open_response psbt_fund =
        fails "Channel psbt fund response received. Can't process this response"
    process_open_response no_update = ok (record {
      req_id = "";
      request = zero_request;
      status = opening;
      channel_point = [];
      pending_channel_point = [];
    })

    -- The loop of `OpenChannel` over what the stream gives.
    unfoldable pub open_channel_loop :
        Bool → List (Received OpenStatusUpdate Unit) → Ended String × List OpenChannelResponse
    open_channel_loop listening l =
        receive process_open_response "Processing open response" (λ _. "Opening channel") listening
          l
