-- ===== src/NodeCache/Writes.antt =====
-- The writes of `processManagedNode` (pkg/commons/managedNode.go).
use torq.Prelude.{Bool, true, ◌||◌, Option, none, some, [], ◌==◌, nat_eq, if◌then◌else◌}
use torq.Prelude.Map.{insert}
use torq.Prelude.Text.{Text, same_text}
use torq.Constants.{Status, inactive, active, Chain, Network}
use torq.NodeCache.Types.{Message, Settings, Cache}
use torq.NodeCache.Ids.{put_id, delete_id}
use torq.NodeCache.Reads.{at_place}

abbrev pub is_empty_name : Option Text → Bool
is_empty_name none = true
is_empty_name (some t) = same_text t []

abbrev pub text_or_empty : Option Text → Text
text_or_empty none = []
text_or_empty (some t) = t

abbrev pub node_settings_from : Message → Chain → Network → Option Text → Status → Settings
node_settings_from m chain network name status = record {
  node_id = m.node_id;
  chain = chain;
  network = network;
  public_key = m.public_key;
  name = name;
  status = status;
}

-- The assignments of the five writes behind their guards. A Torq node's settings have no status, so
-- they get the zero status.
abbrev pub store_inactive_torq : Message → Cache → Chain → Network → Cache
store_inactive_torq m c chain network = record c {
  torq_names = insert m.node_id (text_or_empty m.name) c.torq_names;
  all_torq = put_id chain network m.public_key m.node_id c.all_torq;
  all_channel = put_id chain network m.public_key m.node_id c.all_channel;
  settings = insert m.node_id (node_settings_from m chain network m.name inactive) c.settings;
}

abbrev pub store_active_torq : Message → Cache → Chain → Network → Cache
store_active_torq m c chain network = record c {
  torq_names = insert m.node_id (text_or_empty m.name) c.torq_names;
  active_torq = put_id chain network m.public_key m.node_id c.active_torq;
  all_torq = put_id chain network m.public_key m.node_id c.all_torq;
  channel = put_id chain network m.public_key m.node_id c.channel;
  all_channel = put_id chain network m.public_key m.node_id c.all_channel;
  settings = insert m.node_id (node_settings_from m chain network m.name inactive) c.settings;
}

abbrev pub store_active_channel : Message → Cache → Chain → Network → Cache
store_active_channel m c chain network = record c {
  channel = put_id chain network m.public_key m.node_id c.channel;
  all_channel = put_id chain network m.public_key m.node_id c.all_channel;
  settings = insert m.node_id (node_settings_from m chain network none active) c.settings;
}

abbrev pub store_inactive_channel : Message → Cache → Chain → Network → Cache
store_inactive_channel m c chain network = record c {
  all_channel = put_id chain network m.public_key m.node_id c.all_channel;
  settings = insert m.node_id (node_settings_from m chain network none inactive) c.settings;
}

abbrev pub store_inactivated : Message → Cache → Chain → Network → Cache
store_inactivated m c chain network = record c {
  channel = delete_id chain network m.public_key c.channel;
  settings = insert m.node_id (node_settings_from m chain network none inactive) c.settings;
}

unfoldable pub write_torq : (Message → Cache → Chain → Network → Cache) → Message → Cache → Cache
write_torq store m c =
    if is_empty_name m.name || same_text m.public_key [] || m.node_id == 0
    then c
    else at_place m.chain m.network c (store m c)

unfoldable pub write_channel : (Message → Cache → Chain → Network → Cache) → Message → Cache → Cache
write_channel store m c =
    if same_text m.public_key [] || m.node_id == 0
    then c
    else at_place m.chain m.network c (store m c)

-- The inactivation has no test of the node id.
unfoldable pub inactivate : Message → Cache → Cache
inactivate m c =
    if same_text m.public_key [] then c else at_place m.chain m.network c (store_inactivated m c)
