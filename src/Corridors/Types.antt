-- ===== src/Corridors/Types.antt =====
-- The data of internal/corridors/corridor.go. An `int` that is only compared is its bit pattern.
use torq.Prelude.{
  ℕ, ◌≡◌, ◌↔◌, Bool, true, false, ◌&&◌, String, Option, List, [], ◌∷◌, arith, ◌==◌, Eq, str_eq,
  str_eq_iff,
}

pub data CorridorPriority : Type 0 where
  from_category from_tag from_node to_category to_tag to_node channel : CorridorPriority

abbrev pub priority_code : CorridorPriority → ℕ
priority_code from_category = 0
priority_code from_tag = 1
priority_code from_node = 2
priority_code to_category = 3
priority_code to_tag = 4
priority_code to_node = 5
priority_code channel = 6

pub record CorridorType : Type 0 where
  pub corridor_type_id : ℕ
  pub label : String
  pub default_flag : ℕ

abbrev pub category : CorridorType
category = record { corridor_type_id = 0; label = "category"; default_flag = 0 }

abbrev pub tag : CorridorType
tag = record { corridor_type_id = 1; label = "tag"; default_flag = 0 }

abbrev pub corridor_types : List CorridorType
corridor_types = category ∷ tag ∷ []

pub record CorridorKey : Type 0 where
  pub corridor_type : CorridorType
  pub inverse : Bool
  pub reference_id : ℕ
  pub from_category_id : ℕ
  pub from_tag_id : ℕ
  pub from_node_id : ℕ
  pub channel_id : ℕ
  pub to_category_id : ℕ
  pub to_tag_id : ℕ
  pub to_node_id : ℕ

-- A row of the corridor table.
pub record Corridor : Type 0 where
  pub corridor_id : ℕ
  pub corridor_type_id : ℕ
  pub reference_id : Option ℕ
  pub flag : ℕ
  pub inverse : Bool
  pub priority : ℕ
  pub from_category_id : Option ℕ
  pub from_tag_id : Option ℕ
  pub from_node_id : Option ℕ
  pub channel_id : Option ℕ
  pub to_category_id : Option ℕ
  pub to_tag_id : Option ℕ
  pub to_node_id : Option ℕ
  pub created_on : ℕ
  pub update_on : ℕ

-- Go compares keys of a map field by field.
abbrev same_bool : Bool → Bool → Bool
same_bool true b = b
same_bool false true = false
same_bool false false = true

abbrev same_type : CorridorType → CorridorType → Bool
same_type a b =
    a.corridor_type_id == b.corridor_type_id
    && str_eq a.label b.label
    && a.default_flag == b.default_flag

unfoldable pub same_key : CorridorKey → CorridorKey → Bool
same_key a b =
    same_type a.corridor_type b.corridor_type
    && same_bool a.inverse b.inverse
    && a.reference_id == b.reference_id
    && a.from_category_id == b.from_category_id
    && a.from_tag_id == b.from_tag_id
    && a.from_node_id == b.from_node_id
    && a.channel_id == b.channel_id
    && a.to_category_id == b.to_category_id
    && a.to_tag_id == b.to_tag_id
    && a.to_node_id == b.to_node_id

pub same_key_iff : (a b : CorridorKey) → (same_key a b ≡ true) ↔ (a ≡ b)
unfolding same_key
same_key_iff a b = ground (arith, str_eq_iff a.corridor_type.label b.corridor_type.label)

instance abbrev pub key_eq : Eq CorridorKey
key_eq = record { beq = same_key; beq_iff = same_key_iff }

pub same_type_iff : (a b : CorridorType) → (same_type a b ≡ true) ↔ (a ≡ b)
same_type_iff a b = ground (arith, str_eq_iff a.label b.label)

instance abbrev pub type_eq : Eq CorridorType
type_eq = record { beq = same_type; beq_iff = same_type_iff }
