-- ===== src/Channels/Batch.antt =====
-- The opening of several channels at once (internal/channels/batch_open_channel.go).
use torq.Prelude.{ℕ, Bool, ◌&&◌, Option, none, some, List, [], ◌∷◌, ◌==◌, if◌then◌else◌}
use torq.Prelude.Text.{Text}
use torq.Runtime.{Result, ok, fails}
use torq.Events.{BatchOpenChannel, BatchOpenRequest, PendingChannel, BatchOpenResponse}
use torq.Hex.{decode_string}
use torq.Channels.Update.{or_zero, is_given, is_empty}
use torq.Channels.Opening.{or_false, translate_chan_point}

-- `lnrpc.BatchOpenChannel` and `lnrpc.BatchOpenChannelRequest`: the fields that the code sets.
pub record LndBatchChannel : Type 0 where
  pub node_pubkey : List ℕ
  pub local_funding_amount : ℕ
  pub is_private : Bool
  pub min_htlc_msat : ℕ
  pub push_sat : ℕ

pub record LndBatchRequest : Type 0 where
  pub channels : List LndBatchChannel
  pub sat_per_vbyte : ℕ
  pub target_conf : ℕ

abbrev pub batch_channel : BatchOpenChannel → List ℕ → LndBatchChannel
batch_channel c key = record {
  node_pubkey = key;
  local_funding_amount = c.local_funding_amount;
  is_private = or_false c.is_private;
  min_htlc_msat = or_zero c.min_htlc_msat;
  push_sat = or_zero c.push_sat;
}

-- One round of the loop: the key first, then the amount.
abbrev pub prepare_channel : BatchOpenChannel → Option (List ℕ) → Result LndBatchChannel
prepare_channel c none = fails "Hex decode string"
prepare_channel c (some key) =
    if c.local_funding_amount == 0 then fails "Local funding amount 0" else ok (batch_channel c key)

abbrev pub before_rest {ℓ} : {A : Type ℓ} → Result A → Result (List A) → Result (List A)
before_rest (fails e) rest = fails e
before_rest (ok b) (fails e) = fails e
before_rest (ok b) (ok l) = ok (b ∷ l)

-- The first channel that is refused gives the error.
unfoldable pub prepare_channels : List BatchOpenChannel → Result (List LndBatchChannel)
prepare_channels [] = ok []
prepare_channels (c ∷ l) =
    before_rest (prepare_channel c (decode_string c.node_pubkey)) (prepare_channels l)

abbrev pub batch_request : BatchOpenRequest → Result (List LndBatchChannel) → Result LndBatchRequest
batch_request r (fails e) = fails e
batch_request r (ok l) = ok (record {
  channels = l;
  sat_per_vbyte = or_zero r.sat_per_vbyte;
  target_conf = or_zero r.target_conf;
})

unfoldable pub check_prepare_req : BatchOpenRequest → Result LndBatchRequest
check_prepare_req r =
    if r.node_id == 0
    then fails "Node id is missing"
    else if is_empty r.channels
    then fails "Channels array is empty"
    else if is_given r.target_conf && is_given r.sat_per_vbyte
    then fails "Either targetConf or satPerVbyte accepted"
    else batch_request r (prepare_channels r.channels)

module _ (hash_text : List ℕ → Option Text) where
  abbrev pub pending_channel : Result Text → Result PendingChannel
  pending_channel (fails e) = fails e
  pending_channel (ok point) = ok (record { pending_channel_point = point })

  unfoldable pub pending_channels : List (List ℕ × ℕ) → Result (List PendingChannel)
  pending_channels [] = ok []
  pending_channels ((txid, index) ∷ l) =
      before_rest (pending_channel (translate_chan_point hash_text txid index)) (pending_channels l)

  abbrev pub batch_response : Result (List PendingChannel) → Result BatchOpenResponse
  batch_response (fails e) = fails e
  batch_response (ok l) = ok (record { pending_channels = l })

  -- LND's pending channels are pairs of a transaction and an index.
  unfoldable pub process_boc_response : List (List ℕ × ℕ) → Result BatchOpenResponse
  process_boc_response l = batch_response (pending_channels l)
