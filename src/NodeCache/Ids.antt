-- ===== src/NodeCache/Ids.antt =====
-- The maps from public keys to node ids, by chain and network (pkg/commons/managedNode.go).
use torq.Prelude.{
  ℕ, ◌≡◌, refl, ap, ◌∙◌, ◌&&◌, Option, none, some, List, [], arith, Bool, if◌then◌else◌,
}
use torq.Prelude.Map.{Map, lookup, insert, delete, lookup-insert, lookup-delete}
use torq.Prelude.Text.{Text, same_text, text_eq}
use torq.Constants.{Chain, Network}
use torq.NodeCache.Types.{
  IdCache, same_chain, same_network, same_chain_iff, same_network_iff, chain_eq, network_eq,
}

abbrev pub or_empty {ℓ} : {A : Type ℓ} → Option (List A) → List A
or_empty none = []
or_empty (some m) = m

abbrev pub networks_of : Chain → IdCache → Map Network (Map Text ℕ)
networks_of chain c = or_empty (lookup chain c)

-- `nodeIdCache[chain][network]`
abbrev pub ids_of : Chain → Network → IdCache → Map Text ℕ
ids_of chain network c = or_empty (lookup network (networks_of chain c))

abbrev pub with_chain : Option (Map Network (Map Text ℕ)) → Chain → IdCache → IdCache
with_chain none chain c = insert chain [] c
with_chain (some m) chain c = c

abbrev pub with_network : Option (Map Text ℕ) → Chain → Network → IdCache → IdCache
with_network none chain network c = insert chain (insert network [] (networks_of chain c)) c
with_network (some m) chain network c = c

unfoldable pub initialize_id_cache : Chain → Network → IdCache → IdCache
initialize_id_cache chain network c =
    let made = with_chain (lookup chain c) chain c in
    with_network (lookup network (networks_of chain made)) chain network made

abbrev pub put_ids : Chain → Network → Map Text ℕ → IdCache → IdCache
put_ids chain network ids c = insert chain (insert network ids (networks_of chain c)) c

-- The map is made first, then written.
unfoldable pub put_id : Chain → Network → Text → ℕ → IdCache → IdCache
put_id chain network key id c =
    let made = initialize_id_cache chain network c in
    put_ids chain network (insert key id (ids_of chain network made)) made

unfoldable pub delete_id : Chain → Network → Text → IdCache → IdCache
delete_id chain network key c =
    let made = initialize_id_cache chain network c in
    put_ids chain network (delete key (ids_of chain network made)) made

unfoldable pub find_id : Chain → Network → Text → IdCache → Option ℕ
find_id chain network key c = lookup key (ids_of chain network c)

-- The same chain, network and public key.
abbrev pub same_place : Chain → Network → Text → Chain → Network → Text → Bool
same_place chain network key chain' network' key' =
    same_chain chain chain' && (same_network network network' && same_text key key')

ids_of-put_ids :
    (chain : Chain) (network : Network) (ids : Map Text ℕ) (c : IdCache) (chain' : Chain)
    (network' : Network)
    → ids_of chain' network' (put_ids chain network ids c) ≡ (
        if same_chain chain chain' && same_network network network'
        then ids
        else ids_of chain' network' c)
ids_of-put_ids chain network ids c chain' network' =
    let nets = insert network ids (networks_of chain c) in
    ground (
      arith,
      lookup-insert chain chain' nets c,
      lookup-insert network network' ids (networks_of chain c),
      same_chain_iff chain chain',
    )

ids_of-with_chain :
    (o : Option (Map Network (Map Text ℕ))) (chain : Chain) (c : IdCache) (chain' : Chain)
    (network' : Network)
    → lookup chain c ≡ o
    → ids_of chain' network' (with_chain o chain c) ≡ ids_of chain' network' c
unfolding lookup
ids_of-with_chain (some m) chain c chain' network' e = refl
ids_of-with_chain none chain c chain' network' e =
    ground (arith, e, lookup-insert chain chain' [] c, same_chain_iff chain chain')

ids_of-with_network :
    (o : Option (Map Text ℕ)) (chain : Chain) (network : Network) (c : IdCache) (chain' : Chain)
    (network' : Network)
    → lookup network (networks_of chain c) ≡ o
    → ids_of chain' network' (with_network o chain network c) ≡ ids_of chain' network' c
ids_of-with_network (some m) chain network c chain' network' e = refl
ids_of-with_network none chain network c chain' network' e = ground (
  arith,
  e,
  ids_of-put_ids chain network [] c chain' network',
  same_chain_iff chain chain',
  same_network_iff network network',
)

-- Making the maps is not seen by a lookup.
pub ids_of-initialize_id_cache :
    (chain : Chain) (network : Network) (c : IdCache) (chain' : Chain) (network' : Network)
    → ids_of chain' network' (initialize_id_cache chain network c) ≡ ids_of chain' network' c
unfolding initialize_id_cache
ids_of-initialize_id_cache chain network c chain' network' =
    let made = with_chain (lookup chain c) chain c in
    ids_of-with_network (lookup network (networks_of chain made)) chain network made chain' network'
      refl
    ∙ ids_of-with_chain (lookup chain c) chain c chain' network' refl

pub find_id-initialize_id_cache :
    (chain : Chain) (network : Network) (c : IdCache) (chain' : Chain) (network' : Network)
    (key' : Text)
    → find_id chain' network' key' (initialize_id_cache chain network c)
      ≡ find_id chain' network' key' c
unfolding find_id
find_id-initialize_id_cache chain network c chain' network' key' =
    ap (lookup key') (ids_of-initialize_id_cache chain network c chain' network')

pub find_id-put_id :
    (chain : Chain) (network : Network) (key : Text) (id : ℕ) (c : IdCache) (chain' : Chain)
    (network' : Network) (key' : Text)
    → find_id chain' network' key' (put_id chain network key id c) ≡ (
        if same_place chain network key chain' network' key'
        then some id
        else find_id chain' network' key' c)
unfolding find_id put_id
find_id-put_id chain network key id c chain' network' key' =
    let made = initialize_id_cache chain network c in
    let ids = insert key id (ids_of chain network made) in
    ground (
      arith,
      ids_of-put_ids chain network ids made chain' network',
      ids_of-initialize_id_cache chain network c chain' network',
      lookup-insert key key' id (ids_of chain network made),
      same_chain_iff chain chain',
      same_network_iff network network',
    )

pub find_id-delete_id :
    (chain : Chain) (network : Network) (key : Text) (c : IdCache) (chain' : Chain)
    (network' : Network) (key' : Text)
    → find_id chain' network' key' (delete_id chain network key c) ≡ (
        if same_place chain network key chain' network' key'
        then none
        else find_id chain' network' key' c)
unfolding find_id delete_id
find_id-delete_id chain network key c chain' network' key' =
    let made = initialize_id_cache chain network c in
    let ids = delete key (ids_of chain network made) in
    ground (
      arith,
      ids_of-put_ids chain network ids made chain' network',
      ids_of-initialize_id_cache chain network c chain' network',
      lookup-delete key key' (ids_of chain network made),
      same_chain_iff chain chain',
      same_network_iff network network',
    )
