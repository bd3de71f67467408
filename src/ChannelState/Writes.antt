-- ===== src/ChannelState/Writes.antt =====
-- The writes of pkg/commons/managedChannelState.go, one function for each case of
-- `processManagedChannelStateSettings`.
use torq.Prelude.{
  ℕ, true, false, ◌||◌, Option, none, some, List, [], ◌∷◌, ◌==◌, nat_eq, if◌then◌else◌,
}
use torq.Prelude.Map.{Map, lookup, insert, delete}
use torq.Words.{add64, sub64}
use torq.Constants.{Status, inactive, active, deleted, is_active, status_eq}
use torq.ChannelState.Types.{Settings, Message, Cache}
use torq.ChannelState.Reads.{is_node_ready}

-- `settingsByChannel[channelStateSetting.ChannelId] = channelStateSetting`, for each in turn.
unfoldable pub index_by_channel : List Settings → Map ℕ Settings → Map ℕ Settings
index_by_channel [] by_channel = by_channel
index_by_channel (s ∷ l) by_channel = index_by_channel l (insert s.channel_id s by_channel)

unfoldable pub write_initial : Message → Cache → Cache
write_initial m c = if m.node_id == 0 then c else record c {
  channels =
      insert m.node_id (index_by_channel m.channel_state_settings []) (delete m.node_id c.channels);
}

-- The branch for a node whose status is known.
abbrev pub replace_status : Message → ℕ → Status → Cache → Cache
replace_status m now current c = record c {
  status = if status_eq m.status current then c.status else insert m.node_id m.status c.status;
  deactivation_time =
      if is_active m.status
      then c.deactivation_time
      else if is_active current
      then insert m.node_id now c.deactivation_time
      else c.deactivation_time;
}

abbrev pub status_of_node : Message → ℕ → Option Status → Cache → Cache
status_of_node m now none c = record c {
  status = insert m.node_id m.status c.status;
  deactivation_time = insert m.node_id now c.deactivation_time;
}
status_of_node m now (some current) c = replace_status m now current c

unfoldable pub write_node_status : Message → ℕ → Cache → Cache
write_node_status m now c =
    if m.node_id == 0 then c else status_of_node m now (lookup m.node_id c.status) c

-- `nodeChannels[channelId] = settings` through the node's entry.
abbrev pub put_channels : Cache → ℕ → Map ℕ Settings → Cache
put_channels c node_id by_channel = record c { channels = insert node_id by_channel c.channels }

-- The switch on the new status of a channel.
unfoldable pub apply_channel_status : Status → ℕ → Settings → Map ℕ Settings → Map ℕ Settings
apply_channel_status active id s m = insert id (record s { local_disabled = false }) m
apply_channel_status inactive id s m = insert id (record s { local_disabled = true }) m
apply_channel_status deleted id s m = delete id m
apply_channel_status _ id s m = m

-- The writes to a cached channel share this frame: an uncached node or channel is only logged.
abbrev pub update_found :
    (Settings → Map ℕ Settings → Map ℕ Settings)
    → Cache
    → ℕ
    → Map ℕ Settings
    → Option Settings
    → Cache
update_found f c node_id by_channel none = c
update_found f c node_id by_channel (some s) = put_channels c node_id (f s by_channel)

abbrev pub update_node :
    (Settings → Map ℕ Settings → Map ℕ Settings) → Cache → ℕ → ℕ → Option (Map ℕ Settings) → Cache
update_node f c node_id channel_id none = c
update_node f c node_id channel_id (some by_channel) =
    update_found f c node_id by_channel (lookup channel_id by_channel)

unfoldable pub update_channel : (Settings → Map ℕ Settings → Map ℕ Settings) → Cache → ℕ → ℕ → Cache
update_channel f c node_id channel_id =
    update_node f c node_id channel_id (lookup node_id c.channels)

unfoldable pub write_channel_status : Message → ℕ → Cache → Cache
write_channel_status m now c =
    if m.channel_id == 0 || m.node_id == 0
    then c
    else if is_node_ready c now m.node_id m.force_response
    then update_channel (apply_channel_status m.status m.channel_id) c m.node_id m.channel_id
    else c

-- The six assignments for the local or the remote side.
unfoldable pub apply_policy : Message → Settings → Settings
apply_policy m s =
    if m.is_local
    then record s {
      local_disabled = m.disabled;
      local_time_lock_delta = m.time_lock_delta;
      local_min_htlc_msat = m.min_htlc_msat;
      local_max_htlc_msat = m.max_htlc_msat;
      local_fee_base_msat = m.fee_base_msat;
      local_fee_rate_milli_msat = m.fee_rate_milli_msat;
    }
    else record s {
      remote_disabled = m.disabled;
      remote_time_lock_delta = m.time_lock_delta;
      remote_min_htlc_msat = m.min_htlc_msat;
      remote_max_htlc_msat = m.max_htlc_msat;
      remote_fee_base_msat = m.fee_base_msat;
      remote_fee_rate_milli_msat = m.fee_rate_milli_msat;
    }

unfoldable pub write_routing_policy : Message → ℕ → Cache → Cache
write_routing_policy m now c =
    if m.channel_id == 0 || m.node_id == 0
    then c
    else if is_node_ready c now m.node_id m.force_response
    then update_channel (λ s by_channel. insert m.channel_id (apply_policy m s) by_channel) c
        m.node_id m.channel_id
    else c

-- The remote balance is computed from the new local balance, as the source has it.
unfoldable pub apply_balance : ℕ → Settings → Settings
apply_balance amount s =
    let raised = add64 s.local_balance amount in
    record s {
      num_updates = add64 s.num_updates 1;
      local_balance = raised;
      remote_balance = sub64 raised amount;
    }

unfoldable pub write_update_balance : Message → Cache → Cache
write_update_balance m c =
    if m.channel_id == 0 || m.node_id == 0
    then c
    else update_channel (λ s by_channel. insert m.channel_id (apply_balance m.amount s) by_channel)
        c m.node_id m.channel_id
