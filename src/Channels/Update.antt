-- ===== src/Channels/Update.antt =====
-- The update of a channel's policy (internal/channels/update_channel.go): the request to LND, and
-- the answer that is passed on as an event.
use torq.Prelude.{
  ℕ, ltb, leb, ◌==◌, ◌%◌, Bool, true, false, Option, none, some, List, [], ◌∷◌, String, map,
  if◌then◌else◌,
}
use torq.Prelude.Text.{Text}
use torq.Runtime.{Result, ok, fails}
use torq.Constants.{inactive, active}
use torq.Events.{FailedRequest, UpdateChannelRequest, UpdateChannelResponse}
use torq.ChannelCache.Types as ChannelTypes
use torq.ChannelState.Types.{Settings}

-- `lnrpc.PolicyUpdateRequest`: the fields that the code sets. A field that is not set is zero.
pub data Scope : Type 0 where
  global : Scope
  chan_point : (funding_txid : Text) → (output_index : ℕ) → Scope

pub record PolicyUpdateRequest : Type 0 where
  pub scope : Scope
  pub base_fee_msat : ℕ  -- int64
  pub fee_rate_ppm : ℕ  -- uint32
  pub time_lock_delta : ℕ  -- uint32
  pub max_htlc_msat : ℕ
  pub min_htlc_msat : ℕ
  pub min_htlc_msat_specified : Bool

abbrev pub uint32 : ℕ → ℕ
uint32 n = n % 4294967296

abbrev pub or_zero : Option ℕ → ℕ
or_zero none = 0
or_zero (some n) = n

abbrev pub is_given : {A : Type 0} → Option A → Bool
is_given none = false
is_given (some a) = true

unfoldable pub process_channel_point : ChannelTypes.Settings → Scope
process_channel_point s = chan_point s.funding_transaction_hash (uint32 s.funding_output_index)

-- The delta of the cached state fills in for a missing one, where it is 18 at least.
abbrev pub delta_of_state : Option Settings → Option ℕ
delta_of_state none = none
delta_of_state (some s) =
    if leb 18 s.local_time_lock_delta then some s.local_time_lock_delta else none

abbrev pub delta_or_state : Option ℕ → Option Settings → Option ℕ
delta_or_state (some d) current = some d
delta_or_state none current = delta_of_state current

abbrev pub policy_request : UpdateChannelRequest → Scope → Option ℕ → Result PolicyUpdateRequest
policy_request r scope none = fails "TimeLockDelta is missing"
policy_request r scope (some delta) = ok (record {
  scope = scope;
  base_fee_msat = or_zero r.fee_base_msat;
  fee_rate_ppm = uint32 (or_zero r.fee_rate_milli_msat);
  time_lock_delta = if ltb delta 18 then 18 else delta;
  max_htlc_msat = or_zero r.max_htlc_msat;
  min_htlc_msat = or_zero r.min_htlc_msat;
  min_htlc_msat_specified = is_given r.min_htlc_msat;
})

-- `req.ChannelId != nil && *req.ChannelId != 0`
abbrev pub request_by_channel :
    UpdateChannelRequest
    → (setting : ℕ → ChannelTypes.Settings) → (current : ℕ → ℕ → Option Settings) → Option ℕ
    → Result PolicyUpdateRequest
request_by_channel r setting current none = policy_request r global r.time_lock_delta
request_by_channel r setting current (some id) =
    if id == 0
    then policy_request r global r.time_lock_delta
    else policy_request r (process_channel_point (setting id))
        (delta_or_state r.time_lock_delta (current r.node_id id))

-- `setting` answers for GetChannelSettingByChannelId and `current` for GetChannelState, forced.
unfoldable pub create_policy_request :
    (setting : ℕ → ChannelTypes.Settings)
    → (current : ℕ → ℕ → Option Settings) → UpdateChannelRequest
    → Result PolicyUpdateRequest
create_policy_request setting current r =
    if r.node_id == 0
    then fails "Node id is missing"
    else request_by_channel r setting current r.channel_id

abbrev pub failed_request : String → FailedRequest
failed_request e = record { reason = e; error = e }

abbrev pub is_empty {ℓ} : {A : Type ℓ} → List A → Bool
is_empty [] = true
is_empty (x ∷ l) = false

-- `failed` are the texts of LND's failed updates. The answer has the request as it came in.
unfoldable pub process_update_response :
    UpdateChannelRequest → (failed : List String) → UpdateChannelResponse
process_update_response r failed = record {
  request = r;
  status = if is_empty failed then active else inactive;
  failed_updates = map failed_request failed;
}

-- `updateChannels` once LND is connected: `update_channel_policy` is its answer. The event is sent
-- where there is an event channel.
abbrev pub answered :
    UpdateChannelRequest
    → (listening : Bool) → Result (List String)
    → Result (UpdateChannelResponse × List UpdateChannelResponse)
answered r listening (fails e) = fails e
answered r listening (ok failed) =
    let a = process_update_response r failed in ok (a, if listening then a ∷ [] else [])

abbrev pub sent_to :
    (PolicyUpdateRequest → Result (List String))
    → UpdateChannelRequest
    → Bool
    → Result PolicyUpdateRequest
    → Result (UpdateChannelResponse × List UpdateChannelResponse)
sent_to update_channel_policy r listening (fails e) = fails e
sent_to update_channel_policy r listening (ok p) = answered r listening (update_channel_policy p)

unfoldable pub update_channels :
    (setting : ℕ → ChannelTypes.Settings)
    → (current : ℕ → ℕ → Option Settings)
    → (update_channel_policy : PolicyUpdateRequest → Result (List String)) → (listening : Bool)
    → UpdateChannelRequest
    → Result (UpdateChannelResponse × List UpdateChannelResponse)
update_channels setting current update_channel_policy listening r =
    sent_to update_channel_policy r listening (create_policy_request setting current r)
