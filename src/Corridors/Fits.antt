-- ===== src/Corridors/Fits.antt =====
-- Which rows of the corridor table fit a key (internal/corridors/corridor.go, `constructKey`,
-- `equals`).
use torq.Prelude.{
  ℕ, ◌≡◌, refl, ◌≢◌, inl, inr, Bool, true, false, Bool-cases, Option, none, some, ◌↔◌, arith, sym,
  ap, ◌∙◌, nat_eq, if◌then◌else◌, ◌!=◌, ◌&&◌,
}
use torq.Corridors.Types.{
  key_eq, type_eq, CorridorPriority, from_category, from_tag, from_node, to_category, to_tag,
  to_node, channel, CorridorType, CorridorKey, Corridor,
}
use torq.Corridors.Priority.{
  calculate_priority, has_priority, has_priority-calculate_priority, is_given, part, key_part,
  equals, equals_iff,
}
use torq.Corridors.Cache.{
  construct_key, get_corridor_type_from_id, value_of, key_of_type, refers_to, is_match,
}

-- A row fits a key: it is not inverse, it is about the same thing, and each part that it fixes is
-- the key's.
abbrev pub Fits : CorridorKey → Corridor → Type 0
Fits key c =
    (c.inverse ≡ false)
    × (c.reference_id ≡ some key.reference_id)
    × ((p : CorridorPriority) (id : ℕ) → part p c ≡ some id → id ≢ 0 → key_part p key ≡ id)

-- The row is of a type.
abbrev pub IsOfType : CorridorType → Corridor → Type 0
IsOfType t c = get_corridor_type_from_id c.corridor_type_id ≡ some t

pub construct_key-typed :
    (t : CorridorType) (c : Corridor) → IsOfType t c → construct_key c ≡ key_of_type (some t) c
unfolding construct_key
construct_key-typed t c h = ap (λ o. key_of_type o c) h

pub key_part-construct_key :
    (p : CorridorPriority) (t : CorridorType) (c : Corridor)
    → IsOfType t c
    → key_part p (construct_key c) ≡ value_of (part p c)
key_part-construct_key p t c h = ap (key_part p) (construct_key-typed t c h) ∙ parts p
  where
    parts : (q : CorridorPriority) → key_part q (key_of_type (some t) c) ≡ value_of (part q c)
    parts from_category = refl
    parts from_tag = refl
    parts from_node = refl
    parts to_category = refl
    parts to_tag = refl
    parts to_node = refl
    parts channel = refl

given_iff :
    (o : Option ℕ) (v : ℕ)
    → (is_given o ≡ true → value_of o ≡ v) ↔ ((id : ℕ) → o ≡ some id → id ≢ 0 → v ≡ id)
given_iff none v = (λ h id e nz. cc, λ h g. cc)
given_iff (some i) v = (forward, backward)
  where
    forward : (i != 0 ≡ true → i ≡ v) → (id : ℕ) → some i ≡ some id → id ≢ 0 → v ≡ id
    forward h id e nz =
        let same : i ≡ id = cc in let given : (i != 0) ≡ true = ground arith in sym (h given) ∙ same

    backward : ((id : ℕ) → some i ≡ some id → id ≢ 0 → v ≡ id) → i != 0 ≡ true → i ≡ v
    backward h g = let nz : i ≢ 0 = ground arith in sym (h i refl nz)

refers_to_iff : (o : Option ℕ) (id : ℕ) → (refers_to o id ≡ true) ↔ (o ≡ some id)
refers_to_iff none id = (λ h. cc, λ h. cc)
refers_to_iff (some r) id = ground arith

-- The test on the parts, for a row of a known type.
parts_iff :
    (key : CorridorKey) (c : Corridor)
    → IsOfType key.corridor_type c
    → (equals key (calculate_priority c) (construct_key c) ≡ true)
      ↔ ((p : CorridorPriority) (id : ℕ) → part p c ≡ some id → id ≢ 0 → key_part p key ≡ id)
parts_iff key c typed = (forward, backward)
  where
    value : (p : CorridorPriority) → key_part p (construct_key c) ≡ value_of (part p c)
    value p = key_part-construct_key p key.corridor_type c typed

    forward :
        equals key (calculate_priority c) (construct_key c) ≡ true
        → (p : CorridorPriority) (id : ℕ) → part p c ≡ some id
        → id ≢ 0
        → key_part p key ≡ id
    forward h p = (given_iff (part p c) (key_part p key)).0 λ g.
        sym (value p)
        ∙ (equals_iff key (construct_key c) (calculate_priority c)).0 h p
            (has_priority-calculate_priority p c ∙ g)

    backward :
        ((p : CorridorPriority) (id : ℕ) → part p c ≡ some id → id ≢ 0 → key_part p key ≡ id)
        → equals key (calculate_priority c) (construct_key c) ≡ true
    backward h = (equals_iff key (construct_key c) (calculate_priority c)).1 λ p g.
        value p
        ∙ (given_iff (part p c) (key_part p key)).1 (h p)
            (sym (has_priority-calculate_priority p c) ∙ g)

split : (a b : Bool) → ((a && b) ≡ true) ↔ ((a ≡ true) × (b ≡ true))
split a b = ground arith

-- The test of an entry decides that its row fits.
pub is_match_iff :
    (key : CorridorKey) (c : Corridor)
    → IsOfType key.corridor_type c
    → c.inverse ≡ false
    → (is_match key (calculate_priority c) (construct_key c) c ≡ true) ↔ Fits key c
is_match_iff key c typed direct = (forward, backward)
  where
    refers : Bool
    refers = refers_to c.reference_id key.reference_id

    agrees : Bool
    agrees = equals key (calculate_priority c) (construct_key c)

    forward : (refers && agrees) ≡ true → Fits key c
    forward h =
        let r = (split refers agrees).0 h in
        (
          direct,
          (refers_to_iff c.reference_id key.reference_id).0 r.0,
          (parts_iff key c typed).0 r.1,
        )

    backward : Fits key c → (refers && agrees) ≡ true
    backward h =
        (split refers agrees).1
          ((refers_to_iff c.reference_id key.reference_id).1 h.1, (parts_iff key c typed).1 h.2)

value_of-fixed :
    (o : Option ℕ) (v : ℕ)
    → ((id : ℕ) → o ≡ some id → id ≢ 0 → v ≡ id)
    → value_of o ≡ (if is_given o then v else 0)
value_of-fixed none v h = refl
value_of-fixed (some i) v h = elim (Bool-cases (i != 0)) [
  | inl given ↦ let nz : i ≢ 0 = ground arith in rw given (sym (h i refl nz))
  | inr absent ↦ rw absent (ground arith)
]

-- A fixed part is the key's and another part is 0, so the bits of the priority determine the part.
value_of-part :
    (p : CorridorPriority) (key : CorridorKey) (c d : Corridor)
    → Fits key c
    → Fits key d
    → calculate_priority c ≡ calculate_priority d
    → value_of (part p c) ≡ value_of (part p d)
value_of-part p key c d hc hd same =
    let given : is_given (part p c) ≡ is_given (part p d) =
      sym (has_priority-calculate_priority p c)
      ∙ ap (has_priority p) same
      ∙ has_priority-calculate_priority p d in
    value_of-fixed (part p c) (key_part p key) (hc.2 p)
    ∙ ap (λ b. if b then key_part p key else 0) given
    ∙ sym (value_of-fixed (part p d) (key_part p key) (hd.2 p))

-- Two rows of the key's type that fit the key and have the same priority have the same cache key,
-- so that one entry of the cache is all that can match at a priority.
pub Fits-construct_key :
    (key : CorridorKey) (c d : Corridor)
    → IsOfType key.corridor_type c
    → IsOfType key.corridor_type d
    → Fits key c
    → Fits key d
    → calculate_priority c ≡ calculate_priority d
    → construct_key c ≡ construct_key d
Fits-construct_key key c d tc td hc hd same =
    construct_key-typed key.corridor_type c tc
    ∙ keys
    ∙ sym (construct_key-typed key.corridor_type d td)
  where
    value : (p : CorridorPriority) → value_of (part p c) ≡ value_of (part p d)
    value p = value_of-part p key c d hc hd same

    keys : key_of_type (some key.corridor_type) c ≡ key_of_type (some key.corridor_type) d
    keys =
        let inverse : c.inverse ≡ d.inverse = hc.0 ∙ sym hd.0 in
        let reference : value_of c.reference_id ≡ value_of d.reference_id =
          ap value_of (hc.1 ∙ sym hd.1) in
        let from_c : value_of c.from_category_id ≡ value_of d.from_category_id =
          value from_category in
        let from_t : value_of c.from_tag_id ≡ value_of d.from_tag_id = value from_tag in
        let from_n : value_of c.from_node_id ≡ value_of d.from_node_id = value from_node in
        let to_c : value_of c.to_category_id ≡ value_of d.to_category_id = value to_category in
        let to_t : value_of c.to_tag_id ≡ value_of d.to_tag_id = value to_tag in
        let to_n : value_of c.to_node_id ≡ value_of d.to_node_id = value to_node in
        let chan : value_of c.channel_id ≡ value_of d.channel_id = value channel in cc
