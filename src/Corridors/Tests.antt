-- ===== src/Corridors/Tests.antt =====
-- The corridor cache on a small table (internal/corridors/corridor.go).
use torq.Prelude.{ℕ, ◌≡◌, refl, ◌≢◌, true, false, Option, none, some, List, [], ◌∷◌, arith, All}
use torq.Prelude.Map.{lookup, keys, insert}
use torq.Runtime.{returns}
use torq.Corridors.Types.{
  key_eq, type_eq, CorridorPriority, from_category, from_tag, from_node, to_category, to_tag,
  to_node, channel, tag, CorridorKey, Corridor,
}
use torq.Corridors.Priority.{part, key_part, calculate_priority, has_priority, equals}
use torq.Corridors.Cache.{
  Cache, initial, ByType, construct_key, add_to_corridor_cache, add_all, sort_descending,
  insert_sorted, find_entry, find_corridor, best_of, get_best_corridor,
  refresh_corridor_cache_by_type,
}
use torq.Corridors.Fits.{IsOfType}
use torq.Corridors.Best.{IsBest, get_best_corridor-IsBest}

-- A row about the tag 5 that fixes some of the from tag, the to node and the channel.
abbrev row : ℕ → ℕ → (from_tag_id to_node_id channel_id : Option ℕ) → Corridor
row id flag ft tn ch = record {
  corridor_id = id;
  corridor_type_id = 1;
  reference_id = some 5;
  flag = flag;
  inverse = false;
  priority = 0;
  from_category_id = none;
  from_tag_id = ft;
  from_node_id = none;
  channel_id = ch;
  to_category_id = none;
  to_tag_id = none;
  to_node_id = tn;
  created_on = 0;
  update_on = 0;
}

abbrev wide : Corridor
wide = row 1 1 (some 7) none none

abbrev narrow : Corridor
narrow = row 2 0 (some 7) (some 9) (some 0)

abbrev elsewhere : Corridor
elsewhere = row 3 1 none none (some 4)

abbrev turned : Corridor
turned = record elsewhere { inverse = true }

abbrev rows : List Corridor
rows = wide ∷ narrow ∷ elsewhere ∷ turned ∷ []

abbrev key : CorridorKey
key = record {
  corridor_type = tag;
  inverse = false;
  reference_id = 5;
  from_category_id = 1;
  from_tag_id = 7;
  from_node_id = 2;
  channel_id = 3;
  to_category_id = 0;
  to_tag_id = 0;
  to_node_id = 9;
}

priorities :
    (calculate_priority wide ≡ 2)
    × (calculate_priority narrow ≡ 34)
    × (calculate_priority elsewhere ≡ 64)
unfolding calculate_priority
priorities = (refl, refl, refl)

abbrev filled : ByType
filled = let s = add_all rows [] in record { cache_map = s; sorted_keys = sort_descending (keys s) }

sorted : filled.sorted_keys ≡ 64 ∷ 34 ∷ 2 ∷ []
unfolding add_all add_to_corridor_cache calculate_priority insert lookup construct_key
    sort_descending insert_sorted
sorted = refl

-- The corridor with the channel 4 has the highest priority, but does not fit.
best : best_of key filled ≡ narrow
unfolding add_all add_to_corridor_cache calculate_priority insert lookup construct_key
    sort_descending insert_sorted best_of find_corridor find_entry equals has_priority
best = refl

-- A failed query changes nothing.
failed : refresh_corridor_cache_by_type tag none initial ≡ returns (initial, true)
unfolding refresh_corridor_cache_by_type
failed = refl

typed : All (IsOfType tag) rows
typed = (refl, (refl, (refl, (refl, tt))))

get_best_corridor-IsBest_example :
    (after : Cache) × (b : Corridor) × (refresh_corridor_cache_by_type tag (some rows) initial
      ≡ returns (after, false))
    × (get_best_corridor key after ≡ returns b)
    × IsBest rows key b
unfolding lookup
get_best_corridor-IsBest_example =
    get_best_corridor-IsBest rows key initial (record { cache_map = []; sorted_keys = [] }) typed
      (λ h. omega (arith, h)) refl

-- A row with the same parts as the narrow one.
abbrev later : Corridor
later = record narrow { corridor_id = 4; flag = 1; channel_id = none }

narrow-parts :
    (p : CorridorPriority) (id : ℕ) → part p narrow ≡ some id → id ≢ 0 → key_part p key ≡ id
narrow-parts from_category id h nz = cc
narrow-parts from_tag id h nz = cc
narrow-parts from_node id h nz = cc
narrow-parts to_category id h nz = cc
narrow-parts to_tag id h nz = cc
narrow-parts to_node id h nz = cc
narrow-parts channel id h nz = ground arith

later-parts :
    (p : CorridorPriority) (id : ℕ) → part p later ≡ some id → id ≢ 0 → key_part p key ≡ id
later-parts from_category id h nz = cc
later-parts from_tag id h nz = cc
later-parts from_node id h nz = cc
later-parts to_category id h nz = cc
later-parts to_tag id h nz = cc
later-parts to_node id h nz = cc
later-parts channel id h nz = cc

same_priority : calculate_priority narrow ≡ calculate_priority later
unfolding calculate_priority
same_priority = refl
