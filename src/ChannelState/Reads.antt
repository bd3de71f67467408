-- ===== src/ChannelState/Reads.antt =====
-- The reads of pkg/commons/managedChannelState.go, one function for each case of
-- `processManagedChannelStateSettings`, with `isNodeReady` and `processHtlcInclude`.
use torq.Prelude.{
  ℕ, ◌*◌, ◌-◌, Bool, true, false, ◌||◌, Option, none, some, List, [], ◌∷◌, ◌++◌, ltb, ◌==◌, ◌!=◌,
  nat_eq, if◌then◌else◌,
}
use torq.Prelude.Map.{Map, values, lookup}
use torq.Words.{add64, sub64, mul64, div64}
use torq.Runtime.{Outcome, returns, panics, blocks, ◌>>=◌}
use torq.Constants.{
  Status, inactive, is_active, open_channel, tolerated_subscription_downtime_seconds,
}
use torq.ChannelCache.Types as ChannelTypes
use torq.ChannelCache.Reads.{channel_setting_of, channel_settings_of}
use torq.ChannelState.Types.{
  HtlcInclude, local_downwards, remote_downwards, local_and_remote_downwards, local_upwards,
  remote_upwards, local_and_remote_upwards, StateInclude, all_local_active_channels,
  all_local_and_remote_active_channels, all_channels, Settings, BalanceState, Message, Reply, state,
  states, balance_state, balance_states, Cache,
}

abbrev pub nanoseconds_per_second : ℕ
nanoseconds_per_second = 1000000000

-- A missing status reads as the zero value.
abbrev pub status_or_zero : Option Status → Status
status_or_zero none = inactive
status_or_zero (some s) = s

-- `exists && time.Since(deactivationTime).Seconds() < TOLERATED_SUBSCRIPTION_DOWNTIME_SECONDS`.
abbrev pub is_tolerated : ℕ → Option ℕ → Bool
is_tolerated now none = false
is_tolerated now (some t) =
    ltb (now - t) (tolerated_subscription_downtime_seconds * nanoseconds_per_second)

unfoldable pub is_node_ready : Cache → ℕ → ℕ → Bool → Bool
is_node_ready c now node_id force_response =
    if is_active (status_or_zero (lookup node_id c.status))
    then true
    else if is_tolerated now (lookup node_id c.deactivation_time)
    then true
    else force_response

-- A send on a nil channel never ends.
abbrev pub send : Bool → Reply → Outcome Reply
send true r = returns r
send false r = blocks

-- `settingsByChannel[channelId]` behind the lookup of the node.
unfoldable pub find_channel : Cache → ℕ → ℕ → Option Settings
find_channel c node_id channel_id = elim (lookup node_id c.channels) [
  | none ↦ none
  | some settings_by_channel ↦ lookup channel_id settings_by_channel
]

unfoldable pub read_channel_state : Message → ℕ → Cache → Outcome Reply
read_channel_state m now c =
    if m.channel_id == 0 || m.node_id == 0
    then send m.state_out (state none)
    else if is_node_ready c now m.node_id m.force_response
    then send m.state_out (state (find_channel c m.node_id m.channel_id))
    else send m.state_out (state none)

abbrev all_states_of_node : Option (Map ℕ Settings) → List Settings
all_states_of_node none = []
all_states_of_node (some settings_by_channel) = values settings_by_channel

unfoldable pub read_all_channel_states : Message → ℕ → Cache → Outcome Reply
read_all_channel_states m now c =
    if m.node_id == 0
    then send m.states_out (states [])
    else if is_node_ready c now m.node_id m.force_response
    then send m.states_out (states (all_states_of_node (lookup m.node_id c.channels)))
    else send m.states_out (states [])

-- The four tests of `processHtlcInclude`.
abbrev pub lowers_local : HtlcInclude → Bool
lowers_local local_downwards = true
lowers_local local_and_remote_downwards = true
lowers_local _ = false

abbrev pub lowers_remote : HtlcInclude → Bool
lowers_remote remote_downwards = true
lowers_remote local_and_remote_downwards = true
lowers_remote _ = false

abbrev pub raises_local : HtlcInclude → Bool
raises_local local_upwards = true
raises_local local_and_remote_upwards = true
raises_local _ = false

abbrev pub raises_remote : HtlcInclude → Bool
raises_remote remote_upwards = true
raises_remote local_and_remote_upwards = true
raises_remote _ = false

-- `localBalance` and `remoteBalance` after the four `if`s.
unfoldable pub included_local : HtlcInclude → Settings → ℕ
included_local i s =
    let b =
      if lowers_local i
      then sub64 s.local_balance s.pending_outgoing_htlc_amount
      else s.local_balance in
    if raises_local i then add64 s.local_balance s.pending_incoming_htlc_amount else b

unfoldable pub included_remote : HtlcInclude → Settings → ℕ
included_remote i s =
    let b =
      if lowers_remote i
      then sub64 s.remote_balance s.pending_incoming_htlc_amount
      else s.remote_balance in
    if raises_remote i then add64 s.remote_balance s.pending_outgoing_htlc_amount else b

-- `int(balance / capacity * 1000)`, in that order.
abbrev pub per_mille : ℕ → ℕ → ℕ
per_mille balance capacity = mul64 (div64 balance capacity) 1000

-- A capacity of 0 makes the division panic.
unfoldable pub process_htlc_include : Message → Settings → ℕ → Outcome BalanceState
process_htlc_include m s capacity =
    if capacity == 0
    then panics
    else returns (record {
      node_id = m.node_id;
      remote_node_id = m.remote_node_id;
      channel_id = m.channel_id;
      htlc_include = m.htlc_include;
      local_balance = included_local m.htlc_include s;
      local_balance_per_mille_ratio = per_mille s.local_balance capacity;
      remote_balance = included_remote m.htlc_include s;
      remote_balance_per_mille_ratio = per_mille s.remote_balance capacity;
    })

-- The reply to one balance read, once the node is ready.
unfoldable pub balance_of_channel : ChannelTypes.Cache → Message → Option Settings → Outcome Reply
balance_of_channel channels m none = send m.balance_state_out (balance_state none)
balance_of_channel channels m (some s) =
    process_htlc_include m s (channel_setting_of channels m.channel_id).capacity >>= λ b.
    send m.balance_state_out (balance_state (some b))

unfoldable pub read_channel_balance_state : ChannelTypes.Cache → Message → ℕ → Cache → Outcome Reply
read_channel_balance_state channels m now c =
    if m.channel_id == 0 || m.node_id == 0
    then send m.balance_state_out (balance_state none)
    else if is_node_ready c now m.node_id m.force_response
    then balance_of_channel channels m (find_channel c m.node_id m.channel_id)
    else send m.balance_state_out (balance_state none)

-- The two `continue`s on disabled channels.
abbrev pub is_left_out : StateInclude → Settings → Bool
is_left_out all_channels s = false
is_left_out all_local_and_remote_active_channels s = s.local_disabled || s.remote_disabled
is_left_out all_local_active_channels s = s.local_disabled

-- The body of the loop for a channel whose cached state is known: its balance state, or a skip.
unfoldable pub balance_of_entry :
    Message → ChannelTypes.Settings → Option Settings → Outcome (List BalanceState)
balance_of_entry m channel none = returns []
balance_of_entry m channel (some s) =
    if channel.status != open_channel
    then returns []
    else if is_left_out m.state_include s
    then returns []
    else process_htlc_include m s channel.capacity >>= λ b. returns (b ∷ [])

-- The loop over the node's channel settings.
unfoldable pub balances_of :
    Message → Map ℕ Settings → List ChannelTypes.Settings → Outcome (List BalanceState)
balances_of m settings_by_channel [] = returns []
balances_of m settings_by_channel (channel ∷ l) =
    balance_of_entry m channel (lookup channel.channel_id settings_by_channel) >>= λ found.
    balances_of m settings_by_channel l >>= λ rest. returns (found ++ rest)

unfoldable pub balances_of_node :
    ChannelTypes.Cache → Message → Option (Map ℕ Settings) → Outcome (List BalanceState)
balances_of_node channels m none = returns []
balances_of_node channels m (some settings_by_channel) =
    balances_of m settings_by_channel (channel_settings_of channels m.node_id)

unfoldable pub read_all_channel_balance_states :
    ChannelTypes.Cache → Message → ℕ → Cache → Outcome Reply
read_all_channel_balance_states channels m now c =
    if m.node_id == 0
    then send m.balance_states_out (balance_states [])
    else if is_node_ready c now m.node_id m.force_response
    then (balances_of_node channels m (lookup m.node_id c.channels) >>= λ l.
        send m.balance_states_out (balance_states l))
    else send m.balance_states_out (balance_states [])
