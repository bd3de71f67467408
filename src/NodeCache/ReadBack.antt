-- ===== src/NodeCache/ReadBack.antt =====
-- What the reads of the node cache give after its writes (pkg/commons/managedNode.go).
use torq.Prelude.{
  ℕ, ltb, lt→ltb, ◌<◌, ◌≡◌, sym, ap, ◌∙◌, ◌≢◌, ◌||◌, true, false, none, some, [], arith, ◌==◌,
  nat_eq, if◌then◌else◌,
}
use torq.Prelude.Map.{Map, lookup, insert, lookup-insert}
use torq.Prelude.Text.{Text, same_text, same_text_iff, text_eq}
use torq.Runtime.{returns}
use torq.Constants.{inactive, active, Chain, Network, ChannelStatus, cooperative_closed}
use torq.NodeCache.Types.{
  write_active_channel_node, Message, no_reply, IdCache, Cache, same_chain_iff, same_network_iff,
}
use torq.NodeCache.Ids.{
  find_id, same_place, find_id-initialize_id_cache, find_id-put_id, find_id-delete_id, put_id,
}
use torq.NodeCache.Reads.{
  number_or_zero, settings_named, settings_or_zero, read_node, read_settings,
}
use torq.NodeCache.Writes.{
  write_torq, write_channel, inactivate, store_active_torq, store_active_channel, store_inactivated,
  node_settings_from,
}
use torq.NodeCache.Process.{dispatch, process}
use torq.NodeCache.Clients.{
  at, set_torq_node, get_node_id_by_public_key, get_active_node_id_by_public_key, set_channel_node,
  inactivate_channel_node_of, get_node_settings_by_node_id,
}

-- The two reads of an id, in terms of the maps.
id_reply :
    (key : Text) (chain : Chain) (network : Network) (c : Cache)
    → get_node_id_by_public_key key chain network c
      ≡ returns (number_or_zero (find_id chain network key c.all_channel))
unfolding get_node_id_by_public_key process dispatch read_node
id_reply key chain network c =
    ap (λ o. returns (number_or_zero o))
      (find_id-initialize_id_cache chain network c.all_channel chain network key)

active_id_reply :
    (key : Text) (chain : Chain) (network : Network) (c : Cache)
    → get_active_node_id_by_public_key key chain network c
      ≡ returns (number_or_zero (find_id chain network key c.channel))
unfolding get_active_node_id_by_public_key process dispatch read_node
active_id_reply key chain network c =
    ap (λ o. returns (number_or_zero o))
      (find_id-initialize_id_cache chain network c.channel chain network key)

same_place_self :
    (chain : Chain) (network : Network) (key : Text)
    → same_place chain network key chain network key ≡ true
same_place_self chain network key =
    ground
      (arith, same_chain_iff chain chain, same_network_iff network network, same_text_iff key key)

settings_reply :
    (n : ℕ) (c : Cache)
    → n ≢ 0
    → get_node_settings_by_node_id n c
      ≡ returns (settings_named (lookup n c.torq_names) (settings_or_zero (lookup n c.settings)))
unfolding get_node_settings_by_node_id process dispatch read_settings
settings_reply n c nz = let given : (n == 0) ≡ false = ground arith in rw given

put_id_self :
    (chain : Chain) (network : Network) (key : Text) (id : ℕ) (ids : IdCache)
    → find_id chain network key (put_id chain network key id ids) ≡ some id
put_id_self chain network key id ids =
    find_id-put_id chain network key id ids chain network key
    ∙ ap (λ b. if b then some id else find_id chain network key ids)
        (same_place_self chain network key)

put_id-other :
    (chain : Chain) (network : Network) (key : Text) (id : ℕ) (ids : IdCache) (chain' : Chain)
    (network' : Network) (key' : Text)
    → same_place chain network key chain' network' key' ≡ false
    → find_id chain' network' key' (put_id chain network key id ids)
      ≡ find_id chain' network' key' ids
put_id-other chain network key id ids chain' network' key' e =
    find_id-put_id chain network key id ids chain' network' key'
    ∙ ap (λ b. if b then some id else find_id chain' network' key' ids) e

lookup-insert_self : {V : Type 0} (n : ℕ) (v : V) (m : Map ℕ V) → lookup n (insert n v m) ≡ some v
lookup-insert_self n v m = ground (arith, lookup-insert n n v m)

-- Every other key, on this chain and network or another, is found as before.
abbrev pub IsSameElsewhere : Chain → Network → Text → Cache → Cache → Type 0
IsSameElsewhere chain network key c c' =
    (chain' : Chain) (network' : Network) (key' : Text)
    → same_place chain network key chain' network' key' ≡ false
    → (get_node_id_by_public_key key' chain' network' c'
        ≡ get_node_id_by_public_key key' chain' network' c)
      × (get_active_node_id_by_public_key key' chain' network' c'
          ≡ get_active_node_id_by_public_key key' chain' network' c)

module _ (chain : Chain) (network : Network) (key : Text) (n : ℕ) (given : key ≢ [])
    (nz : n ≢ 0) where
  -- A Torq node that is written as active is found by its public key among all nodes and among the
  -- active ones, and its settings have what was written, except that their status is Inactive. Every
  -- other key, on this chain and network or another, is found as before.
  pub set_torq_node-read_back :
      (name : Text) (c : Cache)
      → name ≢ []
      → (c' : Cache) × (process (set_torq_node n name active key chain network) c
          ≡ returns (c', no_reply))
        × (get_node_id_by_public_key key chain network c' ≡ returns n)
        × (get_active_node_id_by_public_key key chain network c' ≡ returns n)
        × (get_node_settings_by_node_id n c'
            ≡ returns (record {
              node_id = n;
              chain = chain;
              network = network;
              public_key = key;
              name = some name;
              status = inactive;
            }))
        × IsSameElsewhere chain network key c c'
  unfolding process dispatch set_torq_node write_torq
  set_torq_node-read_back name c named =
      let m = set_torq_node n name active key chain network in
      let m' = node_settings_from m chain network (some name) inactive in
      let c' : Cache = store_active_torq m c chain network in
      let allowed : (same_text name [] || same_text key [] || n == 0) ≡ false =
        ground (arith, same_text_iff name [], same_text_iff key []) in
      let others : IsSameElsewhere chain network key c c' =
        λ (chain' : Chain) (network' : Network) (key' : Text)
            (e : same_place chain network key chain' network' key' ≡ false).
          let kept = put_id-other chain network key n in
          let all : get_node_id_by_public_key key' chain' network' c'
              ≡ get_node_id_by_public_key key' chain' network' c =
            id_reply key' chain' network' c'
            ∙ ap (λ o. returns (number_or_zero o)) (kept c.all_channel chain' network' key' e)
            ∙ sym (id_reply key' chain' network' c) in
          let active_ones : get_active_node_id_by_public_key key' chain' network' c'
              ≡ get_active_node_id_by_public_key key' chain' network' c =
            active_id_reply key' chain' network' c'
            ∙ ap (λ o. returns (number_or_zero o)) (kept c.channel chain' network' key' e)
            ∙ sym (active_id_reply key' chain' network' c) in
          (all, active_ones) in
      (
        c',
        rw allowed,
        id_reply key chain network c'
            ∙ ap (λ o. returns (number_or_zero o)) (put_id_self chain network key n c.all_channel),
        active_id_reply key chain network c'
            ∙ ap (λ o. returns (number_or_zero o)) (put_id_self chain network key n c.channel),
        settings_reply n c' nz
            ∙ rw (lookup-insert_self n name c.torq_names, lookup-insert_self n m' c.settings),
        others,
      )

  -- A node whose channel was opened and that is then inactivated is no longer found among the active
  -- nodes, but among all nodes. Its settings still say Active: the inactivation writes those of the
  -- node 0.
  pub inactivate-settings :
      (status : ChannelStatus) (c : Cache)
      → status < cooperative_closed
      → lookup n c.torq_names ≡ none
      → (c' c'' : Cache) × (process (set_channel_node n key chain network status) c
          ≡ returns (c', no_reply))
        × (process (inactivate_channel_node_of key chain network) c' ≡ returns (c'', no_reply))
        × (get_active_node_id_by_public_key key chain network c'' ≡ returns 0)
        × (get_node_id_by_public_key key chain network c'' ≡ returns n)
        × (get_node_settings_by_node_id n c''
            ≡ returns (record {
              node_id = n;
              chain = chain;
              network = network;
              public_key = key;
              name = none;
              status = active;
            }))
  unfolding process dispatch set_channel_node write_channel inactivate_channel_node_of inactivate
  inactivate-settings status c below unnamed =
      let m : Message = record (at write_active_channel_node chain network) {
        node_id = n;
        public_key = key;
      } in
      let m' : Message = inactivate_channel_node_of key chain network in
      let c' : Cache = store_active_channel m c chain network in
      let c'' : Cache = store_inactivated m' c' chain network in
      let allowed : (same_text key [] || n == 0) ≡ false = ground (arith, same_text_iff key []) in
      let has_key : same_text key [] ≡ false = ground (arith, same_text_iff key []) in
      let opened : ltb status cooperative_closed ≡ true = lt→ltb status cooperative_closed below in
      let gone : find_id chain network key c''.channel ≡ none =
        find_id-delete_id chain network key c'.channel chain network key
        ∙ ap (λ b. if b then none else find_id chain network key c'.channel)
            (same_place_self chain network key) in
      let kept : lookup n c''.settings ≡ some (node_settings_from m chain network none active) =
        ground (
          arith,
          lookup-insert 0 n (node_settings_from m' chain network none inactive) c'.settings,
          lookup-insert_self n (node_settings_from m chain network none active) c.settings,
        ) in
      (
        c',
        c'',
        rw (opened, allowed),
        rw has_key,
        active_id_reply key chain network c'' ∙ ap (λ o. returns (number_or_zero o)) gone,
        id_reply key chain network c''
            ∙ ap (λ o. returns (number_or_zero o)) (put_id_self chain network key n c.all_channel),
        settings_reply n c'' nz ∙ rw (unnamed, kept),
      )
