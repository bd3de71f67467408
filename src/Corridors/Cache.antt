-- ===== src/Corridors/Cache.antt =====
-- The corridor cache (internal/corridors/corridor.go): how it is filled from the table and searched.
-- The rows that the database gives are an argument, none where the query fails.
use torq.Prelude.{
  ℕ, ltb, ◌==◌, if◌then◌else◌, Bool, true, false, ◌&&◌, Option, none, some, List, [], ◌∷◌, nat_eq,
}
use torq.Prelude.Map.{Map, lookup, insert, keys}
use torq.Runtime.{Outcome, returns, panics, blocks, ◌>>=◌}
use torq.Corridors.Types.{
  key_eq, type_eq, CorridorType, category, tag, corridor_types, CorridorKey, Corridor,
}
use torq.Corridors.Priority.{calculate_priority, equals}

-- A map of a map: the entries of each priority.
abbrev pub Staging : Type 0
Staging = Map ℕ (Map CorridorKey Corridor)

pub record ByType : Type 0 where
  pub cache_map : Staging
  pub sorted_keys : List ℕ

abbrev pub Cache : Type 0
Cache = Map CorridorType ByType

abbrev pub initial : Cache
initial =
    (category, record { cache_map = []; sorted_keys = [] })
    ∷ (tag, record { cache_map = []; sorted_keys = [] })
    ∷ []

abbrev pub get_corridor_type_from_id : ℕ → Option CorridorType
get_corridor_type_from_id id =
    if id == category.corridor_type_id
    then some category
    else if id == tag.corridor_type_id
    then some tag
    else none

-- `key.Part = *corridor.Part` where the pointer is there.
abbrev pub value_of : Option ℕ → ℕ
value_of none = 0
value_of (some id) = id

abbrev pub zero_key : CorridorKey
zero_key = record {
  corridor_type = record { corridor_type_id = 0; label = ""; default_flag = 0 };
  inverse = false;
  reference_id = 0;
  from_category_id = 0;
  from_tag_id = 0;
  from_node_id = 0;
  channel_id = 0;
  to_category_id = 0;
  to_tag_id = 0;
  to_node_id = 0;
}

abbrev pub key_of_type : Option CorridorType → Corridor → CorridorKey
key_of_type none c = zero_key
key_of_type (some t) c = record {
  corridor_type = t;
  inverse = c.inverse;
  reference_id = value_of c.reference_id;
  from_category_id = value_of c.from_category_id;
  from_tag_id = value_of c.from_tag_id;
  from_node_id = value_of c.from_node_id;
  channel_id = value_of c.channel_id;
  to_category_id = value_of c.to_category_id;
  to_tag_id = value_of c.to_tag_id;
  to_node_id = value_of c.to_node_id;
}

unfoldable pub construct_key : Corridor → CorridorKey
construct_key c = key_of_type (get_corridor_type_from_id c.corridor_type_id) c

-- The entries of a priority. A map that is not there is empty, also to write to, since it is made
-- first.
abbrev pub entries : Option (Map CorridorKey Corridor) → Map CorridorKey Corridor
entries none = []
entries (some m) = m

abbrev pub put_corridor : Corridor → Staging → Staging
put_corridor c staging =
    let p = calculate_priority c in
    insert p (insert (construct_key c) c (entries (lookup p staging))) staging

unfoldable pub add_to_corridor_cache : Corridor → Staging → Staging
add_to_corridor_cache c staging = if c.inverse then staging else put_corridor c staging

-- The loop over the rows.
unfoldable pub add_all : List Corridor → Staging → Staging
add_all [] staging = staging
add_all (c ∷ rows) staging = add_all rows (add_to_corridor_cache c staging)

-- `sort.Sort(sort.Reverse(..))`. Priorities are not negative.
unfoldable pub insert_sorted : ℕ → List ℕ → List ℕ
insert_sorted k [] = k ∷ []
insert_sorted k (j ∷ l) = let rest = insert_sorted k l in if ltb k j then j ∷ rest else k ∷ j ∷ l

unfoldable pub sort_descending : List ℕ → List ℕ
sort_descending [] = []
sort_descending (k ∷ l) = insert_sorted k (sort_descending l)

-- `updateCache` on what the cache has for the type. A type without an entry is a nil pointer.
abbrev pub update_cache : Option ByType → ByType → Outcome ByType
update_cache none new = panics
update_cache (some old) new = returns new

abbrev put : CorridorType → Cache → Outcome ByType → Outcome Cache
put t c (returns b) = returns (insert t b c)
put t c panics = panics
put t c blocks = blocks

unfoldable pub finalize_corridor_cache_by_type : CorridorType → Staging → Cache → Outcome Cache
finalize_corridor_cache_by_type t staging c = put t c (
    update_cache (lookup t c)
      (record { cache_map = staging; sorted_keys = sort_descending (keys staging) }))

-- The result is the cache, and whether there is an error.
unfoldable pub refresh_corridor_cache_by_type :
    CorridorType → Option (List Corridor) → Cache → Outcome (Cache × Bool)
refresh_corridor_cache_by_type t none c = returns (c, true)
refresh_corridor_cache_by_type t (some rows) c =
    finalize_corridor_cache_by_type t (add_all rows []) c >>= λ c'. returns (c', false)

-- `RefreshCorridorCache` over the types, with what the database gives for each. The first error
-- ends it.
unfoldable pub refresh_types :
    List CorridorType → (CorridorType → Option (List Corridor)) → Cache → Outcome (Cache × Bool)
refresh_types [] rows c = returns (c, false)
refresh_types (t ∷ l) rows c = refresh_corridor_cache_by_type t (rows t) c >>= λ r.
    let rest = refresh_types l rows r.0 in if r.1 then returns r else rest

abbrev pub refresh_corridor_cache :
    (CorridorType → Option (List Corridor)) → Cache → Outcome (Cache × Bool)
refresh_corridor_cache rows c = refresh_types corridor_types rows c

abbrev refresh_type : Option CorridorType → Option (List Corridor) → Cache → Outcome (Cache × Bool)
refresh_type none rows c = panics
refresh_type (some t) rows c = refresh_corridor_cache_by_type t rows c

unfoldable pub refresh_corridor_cache_by_type_id :
    ℕ → Option (List Corridor) → Cache → Outcome (Cache × Bool)
refresh_corridor_cache_by_type_id id rows c = refresh_type (get_corridor_type_from_id id) rows c

-- The test of one entry: its own reference id is there and is the key's, and the parts that the
-- priority speaks of agree.
abbrev pub refers_to : Option ℕ → ℕ → Bool
refers_to none id = false
refers_to (some r) id = id == r

abbrev pub is_match : CorridorKey → ℕ → CorridorKey → Corridor → Bool
is_match key p k c = refers_to c.reference_id key.reference_id && equals key p k

unfoldable pub find_entry : CorridorKey → ℕ → Map CorridorKey Corridor → Option Corridor
find_entry key p [] = none
find_entry key p ((k, c) ∷ m) =
    let rest = find_entry key p m in if is_match key p k c then some c else rest

abbrev or_else : Option Corridor → Option Corridor → Option Corridor
or_else none d = d
or_else (some c) d = some c

unfoldable pub find_corridor : CorridorKey → Staging → List ℕ → Option Corridor
find_corridor key staging [] = none
find_corridor key staging (p ∷ l) =
    or_else (find_entry key p (entries (lookup p staging))) (find_corridor key staging l)

abbrev pub default_corridor : CorridorType → Corridor
default_corridor t = record {
  corridor_id = 0;
  corridor_type_id = t.corridor_type_id;
  reference_id = none;
  flag = t.default_flag;
  inverse = false;
  priority = 0;
  from_category_id = none;
  from_tag_id = none;
  from_node_id = none;
  channel_id = none;
  to_category_id = none;
  to_tag_id = none;
  to_node_id = none;
  created_on = 0;
  update_on = 0;
}

abbrev pub or_default : CorridorType → Option Corridor → Corridor
or_default t none = default_corridor t
or_default t (some c) = c

unfoldable pub best_of : CorridorKey → ByType → Corridor
best_of key b = or_default key.corridor_type (find_corridor key b.cache_map b.sorted_keys)

abbrev best_of_cached : CorridorKey → Option ByType → Outcome Corridor
best_of_cached key none = panics
best_of_cached key (some b) = returns (best_of key b)

unfoldable pub get_best_corridor : CorridorKey → Cache → Outcome Corridor
get_best_corridor key c = best_of_cached key (lookup key.corridor_type c)

abbrev pub get_best_corridor_flag : CorridorKey → Cache → Outcome ℕ
get_best_corridor_flag key c = get_best_corridor key c >>= λ b. returns b.flag

abbrev pub get_best_corridor_status : CorridorKey → Cache → Outcome Bool
get_best_corridor_status key c = get_best_corridor key c >>= λ b. returns (b.flag == 1)
