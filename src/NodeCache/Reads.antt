-- ===== src/NodeCache/Reads.antt =====
-- The reads of `processManagedNode` (pkg/commons/managedNode.go).
use torq.Prelude.{
  ℕ, Bool, true, false, Option, none, some, List, [], ◌∷◌, ◌++◌, ◌==◌, nat_eq, if◌then◌else◌,
}
use torq.Prelude.Map.{Map, lookup, keys, values}
use torq.Prelude.Text.{Text}
use torq.Runtime.{Outcome, returns, blocks}
use torq.Constants.{Chain, Network}
use torq.NodeCache.Types.{
  Message, Settings, zero_settings, Reply, node, node_ids, node_settings, public_keys, IdCache,
  Cache, same_chain, same_network,
}
use torq.NodeCache.Ids.{ids_of, initialize_id_cache, find_id}

-- A send on a nil channel never ends.
abbrev pub reply : Bool → Cache → Reply → Outcome (Cache × Reply)
reply true c r = returns (c, r)
reply false c r = blocks

abbrev pub number_or_zero : Option ℕ → ℕ
number_or_zero none = 0
number_or_zero (some n) = n

abbrev pub settings_or_zero : Option Settings → Settings
settings_or_zero none = zero_settings
settings_or_zero (some s) = s

-- A name that is known replaces the one of the message.
abbrev pub named : Option Text → Option Text → Option Text
named none name = name
named (some known) name = some known

-- The guard `managedNode.Chain == nil || managedNode.Network == nil`.
abbrev pub at_place : {A : Type 0} → Option Chain → Option Network → A → (Chain → Network → A) → A
at_place (some chain) (some network) missing f = f chain network
at_place _ _ missing f = missing

-- The message with the id that the map has for it.
abbrev pub with_id : Chain → Network → IdCache → Message → Message
with_id chain network ids m = record m {
  node_id = number_or_zero (find_id chain network m.public_key ids);
}

abbrev pub with_name : Map ℕ Text → Message → Message
with_name names m = record m { name = named (lookup m.node_id names) m.name }

-- The three maps that are read through an initialisation, and a fourth.
abbrev pub init_all_torq : Chain → Network → Cache → Cache
init_all_torq chain network c = record c { all_torq = initialize_id_cache chain network c.all_torq }

abbrev pub init_active_torq : Chain → Network → Cache → Cache
init_active_torq chain network c = record c {
  active_torq = initialize_id_cache chain network c.active_torq;
}

abbrev pub init_channel : Chain → Network → Cache → Cache
init_channel chain network c = record c { channel = initialize_id_cache chain network c.channel }

abbrev pub init_all_channel : Chain → Network → Cache → Cache
init_all_channel chain network c = record c {
  all_channel = initialize_id_cache chain network c.all_channel;
}

-- What a read answers with, beside the cache that it leaves.
abbrev pub Answer : Type 0
Answer = Cache × Reply

unfoldable pub read_node :
    (Chain → Network → Cache → Cache) → (Cache → IdCache) → Bool → Message → Cache → Answer
read_node init of_cache has_names m c =
    at_place m.chain m.network (c, node m)
      (λ chain network.
        let c' = init chain network c in
        let m' = with_id chain network (of_cache c') m in
        (c', node (if has_names then with_name c.torq_names m' else m')))

unfoldable pub read_node_ids :
    (Chain → Network → Cache → Cache) → (Cache → IdCache) → Message → Cache → Answer
read_node_ids init of_cache m c =
    at_place m.chain m.network (c, node_ids [])
      (λ chain network.
        let c' = init chain network c in
        (c', node_ids (values (ids_of chain network (of_cache c')))))

unfoldable pub read_public_keys :
    (Chain → Network → Cache → Cache) → (Cache → IdCache) → Message → Cache → Answer
read_public_keys init of_cache m c =
    at_place m.chain m.network (c, public_keys [])
      (λ chain network.
        let c' = init chain network c in
        (c', public_keys (keys (ids_of chain network (of_cache c')))))

-- `managedNode.Chain == nil || *managedNode.Chain == chain`
abbrev pub chain_fits : Option Chain → Chain → Bool
chain_fits none chain = true
chain_fits (some a) chain = same_chain a chain

abbrev pub network_fits : Option Network → Network → Bool
network_fits none network = true
network_fits (some a) network = same_network a network

-- The loops of READ_ALL_ACTIVE_TORQ_NODEIDS where the chain or the network is left open.
unfoldable pub ids_of_networks : Option Network → Map Network (Map Text ℕ) → List ℕ
ids_of_networks network [] = []
ids_of_networks network ((k, ids) ∷ m) =
    let rest = ids_of_networks network m in
    if network_fits network k then values ids ++ rest else rest

unfoldable pub ids_of_chains : Option Chain → Option Network → IdCache → List ℕ
ids_of_chains chain network [] = []
ids_of_chains chain network ((k, nets) ∷ m) =
    let rest = ids_of_chains chain network m in
    if chain_fits chain k then ids_of_networks network nets ++ rest else rest

unfoldable pub read_all_active : Message → Cache → Answer
read_all_active m c =
    at_place m.chain m.network (c, node_ids (ids_of_chains m.chain m.network c.active_torq))
      (λ chain network.
        let c' = init_active_torq chain network c in
        (c', node_ids (values (ids_of chain network c'.active_torq))))

abbrev pub settings_named : Option Text → Settings → Settings
settings_named none s = s
settings_named (some name) s = record s { name = some name }

unfoldable pub read_settings : Message → Cache → Answer
read_settings m c = if m.node_id == 0 then (c, node_settings zero_settings) else (
  c,
  node_settings (
      settings_named (lookup m.node_id c.torq_names)
        (settings_or_zero (lookup m.node_id c.settings))),
)
