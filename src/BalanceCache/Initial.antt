-- ===== src/BalanceCache/Initial.antt =====
-- `initializeChannelBalanceFromLnd` of pkg/lnd/channelBalanceCache.go: the channel states that it
-- makes of the channels that LND lists.
use torq.Prelude.{
  ℕ, Bool, true, false, Option, none, some, List, [], ◌∷◌, String, ◌==◌, if◌then◌else◌,
}
use torq.Prelude.Text.{Text}
use torq.Words.{add64}
use torq.Constants.{Status}
use torq.ChannelState.Types.{Htlc, Settings, Message}
use torq.ChannelState.Clients.{set_channel_states, set_channel_state_node_status}

-- What the code reads of an `lnrpc.Channel`. The pending HTLCs have the fields of `commons.Htlc`.
pub record LndChannel : Type 0 where
  pub channel_point : Text
  pub remote_pubkey : Text
  pub local_balance : ℕ  -- int64
  pub remote_balance : ℕ  -- int64
  pub commit_fee : ℕ
  pub commit_weight : ℕ
  pub fee_per_kw : ℕ
  pub num_updates : ℕ
  pub chan_status_flags : String
  pub commitment_type : ℕ
  pub lifetime : ℕ
  pub total_satoshis_sent : ℕ
  pub total_satoshis_received : ℕ
  pub pending_htlcs : List Htlc

-- `ChannelPolicy` of internal/channels/handlers.go.
pub record ChannelPolicy : Type 0 where
  pub disabled : Bool
  pub time_lock_delta : ℕ
  pub min_htlc_msat : ℕ
  pub max_htlc_msat : ℕ
  pub fee_rate_mill_msat : ℕ
  pub short_channel_id : String
  pub fee_base_msat : ℕ
  pub node_id : ℕ
  pub remote_node_id : ℕ

-- What the other parts answer during one initialisation. `none` is an error.
pub record Answers : Type 0 where
  pub is_locked : Bool  -- RWMutexWriteLocked
  pub listed : Option (List LndChannel)  -- ListChannels
  pub channel_id_of : Text → ℕ  -- GetChannelIdByChannelPoint
  pub node_id_of : Text → ℕ  -- GetNodeIdByPublicKey, for the chain and network of the node
  pub local_policy : ℕ → Option ChannelPolicy  -- GetLocalRoutingPolicy
  pub remote_policy : ℕ → Option ChannelPolicy
  pub status : Status  -- GetStatus of the LND service

-- The four counters of the loop over the pending HTLCs.
pub record Counters : Type 0 where
  pub incoming_count : ℕ
  pub incoming_amount : ℕ
  pub outgoing_count : ℕ
  pub outgoing_amount : ℕ

abbrev pub no_htlcs : Counters
no_htlcs = record {
  incoming_count = 0;
  incoming_amount = 0;
  outgoing_count = 0;
  outgoing_amount = 0;
}

-- An HTLC counts as incoming where it has no index on a forwarding channel.
abbrev pub is_incoming : Htlc → Bool
is_incoming h = h.forwarding_htlc_index == 0

unfoldable pub count_htlc : Htlc → Counters → Counters
count_htlc h k =
    if is_incoming h
    then record k {
      incoming_count = add64 k.incoming_count 1;
      incoming_amount = add64 k.incoming_amount h.amount;
    }
    else record k {
      outgoing_count = add64 k.outgoing_count 1;
      outgoing_amount = add64 k.outgoing_amount h.amount;
    }

unfoldable pub count_htlcs : List Htlc → Counters → Counters
count_htlcs [] k = k
count_htlcs (h ∷ l) k = count_htlcs l (count_htlc h k)

unfoldable pub settings_of :
    ℕ → Answers → LndChannel → (local_policy remote_policy : ChannelPolicy) → Settings
settings_of node_id a ch local remote =
    let k = count_htlcs ch.pending_htlcs no_htlcs in
    record {
      node_id = node_id;
      remote_node_id = a.node_id_of ch.remote_pubkey;
      channel_id = a.channel_id_of ch.channel_point;
      local_balance = ch.local_balance;
      local_disabled = local.disabled;
      local_fee_base_msat = local.fee_base_msat;
      local_fee_rate_milli_msat = local.fee_rate_mill_msat;
      local_min_htlc_msat = local.min_htlc_msat;
      local_max_htlc_msat = local.max_htlc_msat;
      local_time_lock_delta = local.time_lock_delta;
      remote_balance = ch.remote_balance;
      remote_disabled = remote.disabled;
      remote_fee_base_msat = remote.fee_base_msat;
      remote_fee_rate_milli_msat = remote.fee_rate_mill_msat;
      remote_min_htlc_msat = remote.min_htlc_msat;
      remote_max_htlc_msat = remote.max_htlc_msat;
      remote_time_lock_delta = remote.time_lock_delta;
      unsettled_balance = 0;
      pending_htlcs = ch.pending_htlcs;
      pending_incoming_htlc_count = k.incoming_count;
      pending_incoming_htlc_amount = k.incoming_amount;
      pending_outgoing_htlc_count = k.outgoing_count;
      pending_outgoing_htlc_amount = k.outgoing_amount;
      commit_fee = ch.commit_fee;
      commit_weight = ch.commit_weight;
      fee_per_kw = ch.fee_per_kw;
      num_updates = ch.num_updates;
      chan_status_flags = ch.chan_status_flags;
      commitment_type = ch.commitment_type;
      lifetime = ch.lifetime;
      total_satoshis_received = ch.total_satoshis_received;
      total_satoshis_sent = ch.total_satoshis_sent;
    }

-- How the loop over the channels ends: it returns an `error`, which may be nil, or it has the list.
pub data Collected : Type 0 where
  halted : (has_error : Bool) → Collected
  collected : List Settings → Collected

abbrev pub add_settings : Settings → Collected → Collected
add_settings s (halted e) = halted e
add_settings s (collected l) = collected (s ∷ l)

-- What is sent to the channel state cache, and whether the error that is returned is not nil.
abbrev pub Outgoing : Type 0
Outgoing = List Message × Bool

abbrev pub send_collected : ℕ → Status → Collected → Outgoing
send_collected node_id status (halted e) = ([], e)
send_collected node_id status (collected l) =
    (set_channel_states node_id l ∷ set_channel_state_node_status node_id status ∷ [], false)

-- `errors.Wrapf` gives an error for an error: `true` is an error that is not nil.
module _ (wrapf : Bool → Bool) where
  -- Behind the reads of the two policies.
  abbrev pub with_policies :
      ℕ → Answers → LndChannel → Option ChannelPolicy → Option ChannelPolicy → Collected → Collected
  with_policies n a ch none _ rest = halted (wrapf true)
  with_policies n a ch (some local) none rest = halted (wrapf true)
  with_policies n a ch (some local) (some remote) rest =
      add_settings (settings_of n a ch local remote) rest

  -- The error of an unknown channel wraps the `err` of ListChannels, which is nil there.
  abbrev pub collect_channel : ℕ → Answers → LndChannel → Collected → Collected
  collect_channel n a ch rest =
      let id = a.channel_id_of ch.channel_point in
      if id == 0
      then halted (wrapf false)
      else with_policies n a ch (a.local_policy id) (a.remote_policy id) rest

  unfoldable pub collect : ℕ → Answers → List LndChannel → Collected
  collect n a [] = collected []
  collect n a (ch ∷ l) = let rest = collect n a l in collect_channel n a ch rest

  abbrev pub from_listed : ℕ → Answers → Option (List LndChannel) → Outgoing
  from_listed n a none = ([], wrapf true)
  from_listed n a (some l) = send_collected n a.status (collect n a l)

  unfoldable pub initialize_channel_balance_from_lnd : ℕ → Answers → Outgoing
  initialize_channel_balance_from_lnd n a =
      if a.is_locked then ([], true) else from_listed n a a.listed
