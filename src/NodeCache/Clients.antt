-- ===== src/NodeCache/Clients.antt =====
-- The exported functions of pkg/commons/managedNode.go: the messages that they send to the cache, and
-- what they take from its replies.
use torq.Prelude.{ℕ, ltb, true, false, Option, none, some, List, [], if◌then◌else◌}
use torq.Prelude.Text.{Text}
use torq.Runtime.{Outcome, returns, blocks, ◌>>=◌}
use torq.Constants.{Status, is_active, Chain, Network, ChannelStatus, cooperative_closed}
use torq.NodeCache.Types.{
  OperationType, read_all_torq_publickeys, read_all_torq_nodeids, read_all_channel_publickeys,
  read_all_channel_nodeids, read_all_active_torq_nodeids, read_channel_node,
  read_active_channel_node, read_node_settings, write_active_torq_node, write_inactive_torq_node,
  write_active_channel_node, write_inactive_channel_node, inactivate_channel_node, Message,
  Settings, Reply, node, node_ids, node_settings, public_keys, Cache,
}
use torq.NodeCache.Process.{process}

-- `ManagedNode{}` with a type.
abbrev pub blank : OperationType → Message
blank t = record {
  operation = t;
  node_id = 0;
  chain = none;
  network = none;
  public_key = [];
  name = none;
  out = false;
  node_ids_out = false;
  node_id_settings_out = false;
  public_keys_out = false;
}

abbrev pub at : OperationType → Chain → Network → Message
at t chain network = record (blank t) { chain = some chain; network = some network }

-- A client waits for ever on a reply that is not sent to its channel.
abbrev id_in : Reply → Outcome ℕ
id_in (node m) = returns m.node_id
id_in _ = blocks

abbrev ids_in : Reply → Outcome (List ℕ)
ids_in (node_ids l) = returns l
ids_in _ = blocks

abbrev keys_in : Reply → Outcome (List Text)
keys_in (public_keys l) = returns l
keys_in _ = blocks

abbrev settings_in : Reply → Outcome Settings
settings_in (node_settings s) = returns s
settings_in _ = blocks

abbrev asks_ids : Message → Cache → Outcome (List ℕ)
asks_ids m c = process (record m { node_ids_out = true }) c >>= λ r. ids_in r.1

abbrev asks_keys : Message → Cache → Outcome (List Text)
asks_keys m c = process (record m { public_keys_out = true }) c >>= λ r. keys_in r.1

abbrev asks_id : Message → Cache → Outcome ℕ
asks_id m c = process (record m { out = true }) c >>= λ r. id_in r.1

unfoldable pub get_all_channel_public_keys : Chain → Network → Cache → Outcome (List Text)
get_all_channel_public_keys chain network c =
    asks_keys (at read_all_channel_publickeys chain network) c

unfoldable pub get_all_torq_public_keys : Chain → Network → Cache → Outcome (List Text)
get_all_torq_public_keys chain network c = asks_keys (at read_all_torq_publickeys chain network) c

unfoldable pub get_all_torq_node_ids : Chain → Network → Cache → Outcome (List ℕ)
get_all_torq_node_ids chain network c = asks_ids (at read_all_torq_nodeids chain network) c

unfoldable pub get_channel_public_keys : Chain → Network → Cache → Outcome (List Text)
get_channel_public_keys chain network c = asks_keys (at read_all_channel_publickeys chain network) c

unfoldable pub get_channel_node_ids : Chain → Network → Cache → Outcome (List ℕ)
get_channel_node_ids chain network c = asks_ids (at read_all_channel_nodeids chain network) c

unfoldable pub get_all_active_torq_node_ids :
    Option Chain → Option Network → Cache → Outcome (List ℕ)
get_all_active_torq_node_ids chain network c =
    asks_ids (record (blank read_all_active_torq_nodeids) { chain = chain; network = network }) c

unfoldable pub set_torq_node : ℕ → Text → Status → Text → Chain → Network → Message
set_torq_node node_id name status public_key chain network =
    record (at (if is_active status then write_active_torq_node else write_inactive_torq_node) chain
      network) { public_key = public_key; node_id = node_id; name = some name }

unfoldable pub get_node_id_by_public_key : Text → Chain → Network → Cache → Outcome ℕ
get_node_id_by_public_key public_key chain network c =
    asks_id (record (at read_channel_node chain network) { public_key = public_key }) c

unfoldable pub get_active_node_id_by_public_key : Text → Chain → Network → Cache → Outcome ℕ
get_active_node_id_by_public_key public_key chain network c =
    asks_id (record (at read_active_channel_node chain network) { public_key = public_key }) c

unfoldable pub set_inactive_channel_node : ℕ → Text → Chain → Network → Message
set_inactive_channel_node node_id public_key chain network =
    record (at write_inactive_channel_node chain network) {
      node_id = node_id;
      public_key = public_key;
    }

unfoldable pub set_channel_node : ℕ → Text → Chain → Network → ChannelStatus → Message
set_channel_node node_id public_key chain network status =
    if ltb status cooperative_closed
    then record (at write_active_channel_node chain network) {
      node_id = node_id;
      public_key = public_key;
    }
    else set_inactive_channel_node node_id public_key chain network

-- The message has no node id.
unfoldable pub inactivate_channel_node_of : Text → Chain → Network → Message
inactivate_channel_node_of public_key chain network =
    record (at inactivate_channel_node chain network) { public_key = public_key }

unfoldable pub get_node_settings_by_node_id : ℕ → Cache → Outcome Settings
get_node_settings_by_node_id node_id c =
    process (record (blank read_node_settings) { node_id = node_id; node_id_settings_out = true }) c
    >>= λ r. settings_in r.1
