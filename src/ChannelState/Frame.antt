-- ===== src/ChannelState/Frame.antt =====
-- A message to the channel state cache changes the channels that it names and no other.
pub mod Writes
mod Htlcs
use Writes.{
  write_channel_status-frame, write_routing_policy-frame, write_update_balance-frame,
  write_initial-frame, write_node_status-channels,
}
use Htlcs.{write_update_htlc_event-frame}
use torq.Prelude.{ℕ, ◌≡◌, refl, ◌⊎◌, some, arith, nat_eq}
use torq.Runtime.{Outcome, returns, panics, blocks}
use torq.ChannelCache.Types as ChannelTypes
use torq.ChannelState.Types.{
  OperationType, read_channelstate, read_all_channelstates, read_channelbalancestate,
  read_all_channelbalancestates, write_initial_channelstates, write_channelstate_nodestatus,
  write_channelstate_channelstatus, write_channelstate_routingpolicy,
  write_channelstate_updatebalance, write_channelstate_updatehtlcevent, Message, Reply, Cache,
}
use torq.ChannelState.Reads.{find_channel}
use torq.ChannelState.Writes.{write_node_status}
use torq.ChannelState.Htlcs.{write_update_htlc_event}
use torq.ChannelState.Process.{replying, written, dispatch, process}
use torq.ChannelState.Find.{find-in_node}

-- The message is about channel `ch` of node `n`. An initial write is about all of its node.
abbrev pub NamesBy : OperationType → Message → ℕ → ℕ → Type 0
NamesBy write_initial_channelstates m n ch = m.node_id ≡ n
NamesBy write_channelstate_channelstatus m n ch = (m.node_id ≡ n) × (m.channel_id ≡ ch)
NamesBy write_channelstate_routingpolicy m n ch = (m.node_id ≡ n) × (m.channel_id ≡ ch)
NamesBy write_channelstate_updatebalance m n ch = (m.node_id ≡ n) × (m.channel_id ≡ ch)
NamesBy write_channelstate_updatehtlcevent m n ch =
    (m.htlc_event.node_id ≡ n)
    × ((m.htlc_event.incoming_channel_id ≡ some ch) ⊎ (m.htlc_event.outgoing_channel_id ≡ some ch))
NamesBy _ m n ch = ⊥

abbrev pub Names : Message → ℕ → ℕ → Type 0
Names m n ch = NamesBy m.operation m n ch

-- A reply leaves the cache as it was.
pub replying-eq :
    (c c' : Cache) (o : Outcome Reply) (r : Reply) → replying c o ≡ returns (c', r) → c' ≡ c
replying-eq c c' (returns q) r h = ground arith
replying-eq c c' panics r h = cc
replying-eq c c' blocks r h = cc

pub written-eq :
    (o : Outcome Cache) (c' : Cache) (r : Reply)
    → written o ≡ returns (c', r)
    → (d : Cache) × (o ≡ returns d) × (d ≡ c')
written-eq (returns d) c' r e = (d, refl, ground arith)
written-eq panics c' r e = cc
written-eq blocks c' r e = cc

dispatch-frame :
    (op : OperationType) (channels : ChannelTypes.Cache) (m : Message) (now : ℕ) (c c' : Cache)
    (r : Reply) (n ch : ℕ)
    → ¬ NamesBy op m n ch
    → dispatch op channels m now c ≡ returns (c', r)
    → find_channel c' n ch ≡ find_channel c n ch
unfolding dispatch
dispatch-frame read_channelstate channels m now c c' r n ch h p =
    ground (arith, replying-eq c c' _ r p)
dispatch-frame read_all_channelstates channels m now c c' r n ch h p =
    ground (arith, replying-eq c c' _ r p)
dispatch-frame read_channelbalancestate channels m now c c' r n ch h p =
    ground (arith, replying-eq c c' _ r p)
dispatch-frame read_all_channelbalancestates channels m now c c' r n ch h p =
    ground (arith, replying-eq c c' _ r p)
dispatch-frame write_initial_channelstates channels m now c c' r n ch h p =
    ground (arith, write_initial-frame m c n ch h)
dispatch-frame write_channelstate_nodestatus channels m now c c' r n ch h p = ground (
  arith,
  write_node_status-channels m now c,
  find-in_node c n ch,
  find-in_node (write_node_status m now c) n ch,
)
dispatch-frame write_channelstate_channelstatus channels m now c c' r n ch h p =
    ground (arith, write_channel_status-frame m now c n ch h)
dispatch-frame write_channelstate_routingpolicy channels m now c c' r n ch h p =
    ground (arith, write_routing_policy-frame m now c n ch h)
dispatch-frame write_channelstate_updatebalance channels m now c c' r n ch h p =
    ground (arith, write_update_balance-frame m c n ch h)
dispatch-frame write_channelstate_updatehtlcevent channels m now c c' r n ch h p =
    let (d, q, e) = written-eq (write_update_htlc_event m.htlc_event c) c' r p in
    ground (arith, write_update_htlc_event-frame m.htlc_event c d n ch h q)

-- A message that the cache handles leaves the cached state of every channel that it does not name
-- as it was, present or absent.
pub process-frame :
    (channels : ChannelTypes.Cache) (m : Message) (now : ℕ) (c c' : Cache) (r : Reply) (n ch : ℕ)
    → ¬ Names m n ch
    → process channels m now c ≡ returns (c', r)
    → find_channel c' n ch ≡ find_channel c n ch
unfolding process
process-frame channels m now c c' r n ch h p =
    dispatch-frame m.operation channels m now c c' r n ch h p
