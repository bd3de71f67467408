-- ===== src/Corridors/Priority.antt =====
-- Priorities (internal/corridors/corridor.go): one bit for each part that a corridor fixes.
use Prim.Native.Nat.{bit_and}
use torq.Prelude.{
  ℕ, sym, ◌↔◌, ◌+◌, ◌^◌, ◌≡◌, refl, Bool, true, false, not, ◌&&◌, Option, none, some, arith, ◌==◌,
  ◌!=◌, if◌then◌else◌,
}
use torq.Corridors.Types.{
  key_eq, type_eq, CorridorPriority, from_category, from_tag, from_node, to_category, to_tag,
  to_node, channel, priority_code, CorridorKey, Corridor,
}

-- `1 << corridorPriority`.
abbrev pub get_priority : CorridorPriority → ℕ
get_priority p = 2 ^ priority_code p

unfoldable pub has_priority : CorridorPriority → ℕ → Bool
has_priority p priority = bit_and priority (get_priority p) == get_priority p

-- A part is fixed if its pointer is there and not 0.
abbrev pub is_given : Option ℕ → Bool
is_given none = false
is_given (some id) = id != 0

abbrev weight : Bool → CorridorPriority → ℕ
weight true p = get_priority p
weight false p = 0

-- The sum over the parts in the source's order.
abbrev total : (fc ft fn tc tt' tn ch : Bool) → ℕ
total fc ft fn tc tt' tn ch =
    weight fc from_category
    + weight ft from_tag
    + weight fn from_node
    + weight tc to_category
    + weight tt' to_tag
    + weight tn to_node
    + weight ch channel

unfoldable pub calculate_priority : Corridor → ℕ
calculate_priority c =
    total (is_given c.from_category_id) (is_given c.from_tag_id) (is_given c.from_node_id)
      (is_given c.to_category_id) (is_given c.to_tag_id) (is_given c.to_node_id)
      (is_given c.channel_id)

-- The part of a corridor, or of a key, that a priority speaks of.
abbrev pub part : CorridorPriority → Corridor → Option ℕ
part from_category c = c.from_category_id
part from_tag c = c.from_tag_id
part from_node c = c.from_node_id
part to_category c = c.to_category_id
part to_tag c = c.to_tag_id
part to_node c = c.to_node_id
part channel c = c.channel_id

abbrev pub key_part : CorridorPriority → CorridorKey → ℕ
key_part from_category k = k.from_category_id
key_part from_tag k = k.from_tag_id
key_part from_node k = k.from_node_id
key_part to_category k = k.to_category_id
key_part to_tag k = k.to_tag_id
key_part to_node k = k.to_node_id
key_part channel k = k.channel_id

abbrev differs : CorridorPriority → CorridorKey → ℕ → CorridorKey → Bool
differs p key priority other = has_priority p priority && key_part p other != key_part p key

unfoldable pub equals : CorridorKey → ℕ → CorridorKey → Bool
equals key priority other =
    if differs from_category key priority other
    then false
    else if differs from_tag key priority other
    then false
    else if differs from_node key priority other
    then false
    else if differs to_category key priority other
    then false
    else if differs to_tag key priority other
    then false
    else if differs to_node key priority other
    then false
    else if differs channel key priority other
    then false
    else true

-- Every value of a Boolean.
both : (Bool → Bool) → Bool
both f = f true && f false

both_sound : (f : Bool → Bool) (b : Bool) → both f ≡ true → f b ≡ true
unfolding both
both_sound f true h = ground arith
both_sound f false h = ground arith

abbrev chosen : CorridorPriority → (fc ft fn tc tt' tn ch : Bool) → Bool
chosen from_category fc ft fn tc tt' tn ch = fc
chosen from_tag fc ft fn tc tt' tn ch = ft
chosen from_node fc ft fn tc tt' tn ch = fn
chosen to_category fc ft fn tc tt' tn ch = tc
chosen to_tag fc ft fn tc tt' tn ch = tt'
chosen to_node fc ft fn tc tt' tn ch = tn
chosen channel fc ft fn tc tt' tn ch = ch

abbrev same : Bool → Bool → Bool
same true b = b
same false b = not b

abbrev agrees : CorridorPriority → (fc ft fn tc tt' tn ch : Bool) → Bool
agrees p fc ft fn tc tt' tn ch =
    same (has_priority p (total fc ft fn tc tt' tn ch)) (chosen p fc ft fn tc tt' tn ch)

abbrev table : CorridorPriority → Bool
table p = both λ fc.
    both λ ft. both λ fn. both λ tc. both λ u. both λ tn. both λ ch. agrees p fc ft fn tc u tn ch

table_holds : (p : CorridorPriority) → table p ≡ true
unfolding both has_priority
table_holds from_category = refl
table_holds from_tag = refl
table_holds from_node = refl
table_holds to_category = refl
table_holds to_tag = refl
table_holds to_node = refl
table_holds channel = refl

table_at : (p : CorridorPriority) (fc ft fn tc u tn ch : Bool) → agrees p fc ft fn tc u tn ch ≡ true
table_at p fc ft fn tc u tn ch = both_sound _ ch (
    both_sound _ tn (
      both_sound _ u
        (both_sound _ tc (both_sound _ fn (both_sound _ ft (both_sound _ fc (table_holds p)))))))

same_sound : (a b : Bool) → same a b ≡ true → a ≡ b
same_sound true b h = sym h
same_sound false true h = cc
same_sound false false h = refl

has_priority-total :
    (p : CorridorPriority) (fc ft fn tc u tn ch : Bool)
    → has_priority p (total fc ft fn tc u tn ch) ≡ chosen p fc ft fn tc u tn ch
has_priority-total p fc ft fn tc u tn ch = same_sound _ _ (table_at p fc ft fn tc u tn ch)

-- The priority of a corridor has the bit of a part just if the corridor fixes that part.
pub has_priority-calculate_priority :
    (p : CorridorPriority) (c : Corridor)
    → has_priority p (calculate_priority c) ≡ is_given (part p c)
unfolding calculate_priority
has_priority-calculate_priority from_category c = has_priority-total from_category _ _ _ _ _ _ _
has_priority-calculate_priority from_tag c = has_priority-total from_tag _ _ _ _ _ _ _
has_priority-calculate_priority from_node c = has_priority-total from_node _ _ _ _ _ _ _
has_priority-calculate_priority to_category c = has_priority-total to_category _ _ _ _ _ _ _
has_priority-calculate_priority to_tag c = has_priority-total to_tag _ _ _ _ _ _ _
has_priority-calculate_priority to_node c = has_priority-total to_node _ _ _ _ _ _ _
has_priority-calculate_priority channel c = has_priority-total channel _ _ _ _ _ _ _

-- What `equals` decides: the keys agree on the parts that the priority speaks of.
pub equals_iff :
    (key other : CorridorKey) (priority : ℕ)
    → (equals key priority other ≡ true) ↔ (
        (p : CorridorPriority) → has_priority p priority ≡ true → key_part p other ≡ key_part p key)
unfolding equals
equals_iff key other priority = (forward, backward)
  where
    forward :
        equals key priority other ≡ true
        → (p : CorridorPriority) → has_priority p priority ≡ true
        → key_part p other ≡ key_part p key
    forward h from_category g = ground arith
    forward h from_tag g = ground arith
    forward h from_node g = ground arith
    forward h to_category g = ground arith
    forward h to_tag g = ground arith
    forward h to_node g = ground arith
    forward h channel g = ground arith

    backward :
        ((p : CorridorPriority)
          → has_priority p priority ≡ true
          → key_part p other ≡ key_part p key)
        → equals key priority other ≡ true
    backward h = ground (
      arith,
      h from_category,
      h from_tag,
      h from_node,
      h to_category,
      h to_tag,
      h to_node,
      h channel,
    )
