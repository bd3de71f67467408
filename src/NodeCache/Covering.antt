-- ===== src/NodeCache/Covering.antt =====
-- One map of public keys has every key of another, and which writes keep that so
-- (pkg/commons/managedNode.go).
use torq.Prelude.{ℕ, ◌≡◌, refl, sym, ap, ◌∙◌, Bool, true, false, Option, none, some, if◌then◌else◌}
use torq.Prelude.Text.{Text}
use torq.Constants.{Chain, Network}
use torq.NodeCache.Types.{IdCache}
use torq.NodeCache.Ids.{
  initialize_id_cache, put_id, delete_id, find_id, same_place, find_id-initialize_id_cache,
  find_id-put_id, find_id-delete_id,
}

abbrev pub is_some {ℓ} : {A : Type ℓ} → Option A → Bool
is_some none = false
is_some (some a) = true

-- The map has the key.
abbrev pub Has : Chain → Network → Text → IdCache → Type 0
Has chain network key c = is_some (find_id chain network key c) ≡ true

-- Every key of the first is one of the second.
pub record Covers (a b : IdCache) : Type 0 where
  pub at :
      (chain : Chain) (network : Network) (key : Text)
      → Has chain network key a
      → Has chain network key b

module _ (a b : IdCache) (h : Covers a b) (chain : Chain) (network : Network) where
  pub init_left-Covers : Covers (initialize_id_cache chain network a) b
  init_left-Covers = record {
    at = λ chain' network' key' g.
        h.at chain' network' key'
          (ap is_some (sym (find_id-initialize_id_cache chain network a chain' network' key')) ∙ g);
  }

  pub init_right-Covers : Covers a (initialize_id_cache chain network b)
  init_right-Covers = record {
    at = λ chain' network' key' g.
        ap is_some (find_id-initialize_id_cache chain network b chain' network' key')
        ∙ h.at chain' network' key' g;
  }

  pub put_right-Covers : (key : Text) (id : ℕ) → Covers a (put_id chain network key id b)
  put_right-Covers key id = record {
    at = λ chain' network' key' g.
        ap is_some (find_id-put_id chain network key id b chain' network' key')
        ∙ either (same_place chain network key chain' network' key')
            (find_id chain' network' key' b) (h.at chain' network' key' g);
  }
    where
      either :
          (t : Bool) (o : Option ℕ) → is_some o ≡ true → is_some (if t then some id else o) ≡ true
      either true o p = refl
      either false o p = p

  pub put_both-Covers :
      (key : Text) (id : ℕ) → Covers (put_id chain network key id a) (put_id chain network key id b)
  put_both-Covers key id = record {
    at = λ chain' network' key' g.
        let place = same_place chain network key chain' network' key' in
        let g' =
          ap is_some (sym (find_id-put_id chain network key id a chain' network' key')) ∙ g in
        ap is_some (find_id-put_id chain network key id b chain' network' key')
        ∙ both place (find_id chain' network' key' a) (find_id chain' network' key' b)
            (h.at chain' network' key') g';
  }
    where
      both :
          (t : Bool) (o p : Option ℕ)
          → (is_some o ≡ true → is_some p ≡ true)
          → is_some (if t then some id else o) ≡ true
          → is_some (if t then some id else p) ≡ true
      both true o p k g = refl
      both false o p k g = k g

  pub delete_left-Covers : (key : Text) → Covers (delete_id chain network key a) b
  delete_left-Covers key = record {
    at = λ chain' network' key' g.
        let place = same_place chain network key chain' network' key' in
        h.at chain' network' key' (
          left place (find_id chain' network' key' a)
            (ap is_some (sym (find_id-delete_id chain network key a chain' network' key')) ∙ g));
  }
    where
      left : (t : Bool) (o : Option ℕ) → is_some (if t then none else o) ≡ true → is_some o ≡ true
      left true o g = cc
      left false o g = g
