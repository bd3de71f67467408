-- ===== src/NodeCache/Types.antt =====
-- The data of pkg/commons/managedNode.go: messages, node settings, replies and the six maps.
use torq.Prelude.{ℕ, ◌≡◌, ap, ◌↔◌, Bool, true, arith, ==_iff, Option, none, List, [], Eq, ◌==◌}
use torq.Prelude.Map.{Map}
use torq.Prelude.Text.{Text}
use torq.Constants.{
  Status, inactive, Chain, bitcoin, litecoin, Network, main_net, test_net, reg_test, sig_net,
  sim_net,
}

pub data OperationType : Type 0 where
  read_all_torq_node write_inactive_torq_node read_all_torq_nodeids : OperationType
  read_all_torq_publickeys read_active_torq_node write_active_torq_node : OperationType
  read_active_torq_nodeids read_active_torq_publickeys read_all_active_torq_nodeids : OperationType
  read_active_channel_node read_channel_node write_active_channel_node : OperationType
  write_inactive_channel_node inactivate_channel_node read_all_channel_nodeids : OperationType
  read_all_channel_publickeys read_node_settings : OperationType

-- `ManagedNode`, the message. It is also the reply to the reads of an id.
pub record Message : Type 0 where
  pub operation : OperationType
  pub node_id : ℕ
  pub chain : Option Chain
  pub network : Option Network
  pub public_key : Text
  pub name : Option Text
  pub out : Bool
  pub node_ids_out : Bool
  pub node_id_settings_out : Bool
  pub public_keys_out : Bool

-- `ManagedNodeSettings`.
pub record Settings : Type 0 where
  pub node_id : ℕ
  pub chain : Chain
  pub network : Network
  pub public_key : Text
  pub name : Option Text
  pub status : Status

-- `ManagedNodeSettings{}`
abbrev pub zero_settings : Settings
zero_settings = record {
  node_id = 0;
  chain = bitcoin;
  network = main_net;
  public_key = [];
  name = none;
  status = inactive;
}

pub data Reply : Type 0 where
  no_reply : Reply
  node : Message → Reply
  node_ids : List ℕ → Reply
  node_settings : Settings → Reply
  public_keys : List Text → Reply

-- `map[Chain]map[Network]map[string]int`
abbrev pub IdCache : Type 0
IdCache = Map Chain (Map Network (Map Text ℕ))

pub record Cache : Type 0 where
  pub all_torq : IdCache
  pub settings : Map ℕ Settings
  pub active_torq : IdCache
  pub channel : IdCache
  pub all_channel : IdCache
  pub torq_names : Map ℕ Text

abbrev pub chain_code : Chain → ℕ
chain_code bitcoin = 0
chain_code litecoin = 1

abbrev pub network_code : Network → ℕ
network_code main_net = 0
network_code test_net = 1
network_code reg_test = 2
network_code sig_net = 3
network_code sim_net = 4

-- `a == b` on chains and on networks.
unfoldable pub same_chain : Chain → Chain → Bool
same_chain a b = chain_code a == chain_code b

unfoldable pub same_network : Network → Network → Bool
same_network a b = network_code a == network_code b

pub same_chain_iff : (a b : Chain) → (same_chain a b ≡ true) ↔ (a ≡ b)
unfolding same_chain
same_chain_iff a b = (λ h. ground (arith, h), λ e. (==_iff _ _).1 (ap chain_code e))

pub same_network_iff : (a b : Network) → (same_network a b ≡ true) ↔ (a ≡ b)
unfolding same_network
same_network_iff a b = (λ h. ground (arith, h), λ e. (==_iff _ _).1 (ap network_code e))

instance abbrev pub chain_eq : Eq Chain
chain_eq = record { beq = same_chain; beq_iff = same_chain_iff }

instance abbrev pub network_eq : Eq Network
network_eq = record { beq = same_network; beq_iff = same_network_iff }
