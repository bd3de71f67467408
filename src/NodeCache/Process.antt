-- ===== src/NodeCache/Process.antt =====
-- `processManagedNode` and the loop of `ManagedNodeCache` (pkg/commons/managedNode.go).
use torq.Prelude.{Bool, true, false, List, [], ◌∷◌, nat_eq}
use torq.Runtime.{Outcome, returns, ◌>>=◌}
use torq.NodeCache.Types.{
  OperationType, read_all_torq_node, write_inactive_torq_node, read_all_torq_nodeids,
  read_all_torq_publickeys, read_active_torq_node, write_active_torq_node, read_active_torq_nodeids,
  read_active_torq_publickeys, read_all_active_torq_nodeids, read_active_channel_node,
  read_channel_node, write_active_channel_node, write_inactive_channel_node,
  inactivate_channel_node, read_all_channel_nodeids, read_all_channel_publickeys,
  read_node_settings, Message, Reply, no_reply, Cache,
}
use torq.NodeCache.Reads.{
  reply, init_all_torq, init_active_torq, init_channel, init_all_channel, Answer, read_node,
  read_node_ids, read_public_keys, read_all_active, read_settings,
}
use torq.NodeCache.Writes.{
  store_inactive_torq, store_active_torq, store_active_channel, store_inactive_channel, write_torq,
  write_channel, inactivate,
}

abbrev pub answer : Bool → Answer → Outcome (Cache × Reply)
answer out a = reply out a.0 a.1

abbrev pub written : Cache → Outcome (Cache × Reply)
written c = returns (c, no_reply)

unfoldable pub dispatch : OperationType → Message → Cache → Outcome (Cache × Reply)
dispatch read_all_torq_node m c = answer m.out (read_node init_all_torq (λ c. c.all_torq) true m c)
dispatch read_active_torq_node m c =
    answer m.out (read_node init_active_torq (λ c. c.active_torq) true m c)
dispatch read_active_channel_node m c =
    answer m.out (read_node init_channel (λ c. c.channel) false m c)
dispatch read_channel_node m c =
    answer m.out (read_node init_all_channel (λ c. c.all_channel) false m c)
dispatch read_all_torq_nodeids m c =
    answer m.node_ids_out (read_node_ids init_all_torq (λ c. c.all_torq) m c)
dispatch read_active_torq_nodeids m c =
    answer m.node_ids_out (read_node_ids init_active_torq (λ c. c.active_torq) m c)
dispatch read_all_channel_nodeids m c =
    answer m.node_ids_out (read_node_ids init_all_channel (λ c. c.all_channel) m c)
dispatch read_all_torq_publickeys m c =
    answer m.public_keys_out (read_public_keys init_all_torq (λ c. c.all_torq) m c)
dispatch read_active_torq_publickeys m c =
    answer m.public_keys_out (read_public_keys init_active_torq (λ c. c.active_torq) m c)
dispatch read_all_channel_publickeys m c =
    answer m.public_keys_out (read_public_keys init_all_channel (λ c. c.all_channel) m c)
dispatch read_all_active_torq_nodeids m c = answer m.node_ids_out (read_all_active m c)
dispatch read_node_settings m c = answer m.node_id_settings_out (read_settings m c)
dispatch write_inactive_torq_node m c = written (write_torq store_inactive_torq m c)
dispatch write_active_torq_node m c = written (write_torq store_active_torq m c)
dispatch write_active_channel_node m c = written (write_channel store_active_channel m c)
dispatch write_inactive_channel_node m c = written (write_channel store_inactive_channel m c)
dispatch inactivate_channel_node m c = written (inactivate m c)

unfoldable pub process : Message → Cache → Outcome (Cache × Reply)
process m c = dispatch m.operation m c

-- The loop over the messages that arrive, with what it replies.
unfoldable pub run : List Message → Cache → Outcome (Cache × List Reply)
run [] c = returns (c, [])
run (m ∷ l) c = process m c >>= λ r. run l r.0 >>= λ q. returns (q.0, r.1 ∷ q.1)

abbrev pub empty : Cache
empty = record {
  all_torq = [];
  settings = [];
  active_torq = [];
  channel = [];
  all_channel = [];
  torq_names = [];
}
