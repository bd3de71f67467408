-- ===== src/ChannelState/Process.antt =====
-- `processManagedChannelStateSettings` and the loop of `ManagedChannelStateCache`
-- (pkg/commons/managedChannelState.go).
use torq.Prelude.{ℕ, List, [], ◌∷◌}
use torq.Runtime.{Outcome, returns, ◌>>=◌}
use torq.ChannelCache.Types as ChannelTypes
use torq.ChannelState.Types.{
  OperationType, read_channelstate, read_all_channelstates, read_channelbalancestate,
  read_all_channelbalancestates, write_initial_channelstates, write_channelstate_nodestatus,
  write_channelstate_channelstatus, write_channelstate_routingpolicy,
  write_channelstate_updatebalance, write_channelstate_updatehtlcevent, Message, Reply, no_reply,
  Cache,
}
use torq.ChannelState.Reads.{
  read_channel_state, read_all_channel_states, read_channel_balance_state,
  read_all_channel_balance_states,
}
use torq.ChannelState.Writes.{
  write_initial, write_node_status, write_channel_status, write_routing_policy,
  write_update_balance,
}
use torq.ChannelState.Htlcs.{write_update_htlc_event}

abbrev pub replying : Cache → Outcome Reply → Outcome (Cache × Reply)
replying c o = o >>= λ r. returns (c, r)

abbrev pub written : Outcome Cache → Outcome (Cache × Reply)
written o = o >>= λ c. returns (c, no_reply)

-- The switch. `channels` is what the channel cache holds when it is asked for a capacity.
unfoldable pub dispatch :
    OperationType → ChannelTypes.Cache → Message → ℕ → Cache → Outcome (Cache × Reply)
dispatch read_channelstate channels m now c = replying c (read_channel_state m now c)
dispatch read_all_channelstates channels m now c = replying c (read_all_channel_states m now c)
dispatch read_channelbalancestate channels m now c =
    replying c (read_channel_balance_state channels m now c)
dispatch read_all_channelbalancestates channels m now c =
    replying c (read_all_channel_balance_states channels m now c)
dispatch write_initial_channelstates channels m now c = returns (write_initial m c, no_reply)
dispatch write_channelstate_nodestatus channels m now c =
    returns (write_node_status m now c, no_reply)
dispatch write_channelstate_channelstatus channels m now c =
    returns (write_channel_status m now c, no_reply)
dispatch write_channelstate_routingpolicy channels m now c =
    returns (write_routing_policy m now c, no_reply)
dispatch write_channelstate_updatebalance channels m now c =
    returns (write_update_balance m c, no_reply)
dispatch write_channelstate_updatehtlcevent channels m now c =
    written (write_update_htlc_event m.htlc_event c)

unfoldable pub process : ChannelTypes.Cache → Message → ℕ → Cache → Outcome (Cache × Reply)
unfolding dispatch
process channels m now c = dispatch m.operation channels m now c

abbrev pub empty : Cache
empty = record { status = []; channels = []; deactivation_time = [] }

-- What the loop meets at one turn: a message, the time, and the channel cache of that moment.
pub record Turn : Type 0 where
  pub message : Message
  pub now : ℕ
  pub channel_cache : ChannelTypes.Cache

-- The loop over the messages that arrive, with what it replies.
unfoldable pub run : List Turn → Cache → Outcome (Cache × List Reply)
run [] c = returns (c, [])
run (t ∷ l) c =
    process t.channel_cache t.message t.now c >>= λ r. run l r.0 >>= λ q. returns (q.0, r.1 ∷ q.1)
