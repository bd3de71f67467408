-- ===== src/QueryParser/Orders.antt =====
-- The orders that are accepted (internal/query_parser/sort.go).
use mathlib.Core.List.Memᴰ.{head, tail}
use torq.Prelude.{
  ◌≡◌, ◌↔◌, refl, inl, inr, ◌⊎◌, true, Bool-cases, Option, some, Option-cases, List, [], ◌∷◌, ◌++◌,
  Memᴰ, arith, sym, ap, ◌∙◌, subst,
}
use torq.Prelude.Text.{Text, bytes, same_text, same_text_iff}
use torq.QueryParser.Types.{Order, ParseError, Result, ok, error}
use torq.QueryParser.Parse.{
  ◌then◌, is_allowed, parse_order, parse_order_clauses, snake_keys, parse_unmarshalled_orders,
  parse_order_params,
}
use torq.QueryParser.Safety.{is_allowed-Memᴰ}

Memᴰ-is_allowed : (columns : List Text) (c : Text) → Memᴰ c columns → is_allowed columns c ≡ true
unfolding is_allowed
Memᴰ-is_allowed [] c at = elim at [ ]
Memᴰ-is_allowed (ac ∷ columns) c (head e) =
    let same : same_text ac c ≡ true = (same_text_iff ac c).1 (sym e) in rw same refl
Memᴰ-is_allowed (ac ∷ columns) c (tail at) =
    let rest = Memᴰ-is_allowed columns c at in ground (arith, rest)

then-ok :
    {A B : Type 0} (o : Result A) (f : A → Result B) {b : B}
    → (o then f) ≡ ok b
    → (a : A) × (o ≡ ok a) × (f a ≡ ok b)
then-ok (ok a) f h = (a, refl, h)
then-ok (error e) f h = cc

ok-injective : {A : Type 0} {a b : A} → ok a ≡ ok b → a ≡ b
ok-injective h = cc

error-not_ok : {A : Type 0} {e : ParseError} {a : A} → error e ≡ ok a → ⊥
error-not_ok h = cc

module _ (to_snake : Text → Text) where
  -- What an order comes to: an allowed column and one of the two directions.
  abbrev pub IsAccepted : List Text → Order → Text → Type 0
  IsAccepted allowed s r =
      Memᴰ (to_snake s.key) allowed
      × ((s.direction ≡ bytes "asc") ⊎ (s.direction ≡ bytes "desc"))
      × (r ≡ to_snake s.key ++ bytes " " ++ s.direction)

  abbrev pub AreAccepted : List Text → List Order → List Text → Type 0
  AreAccepted allowed [] [] = Unit
  AreAccepted allowed [] (r ∷ rs) = ⊥
  AreAccepted allowed (s ∷ l) [] = ⊥
  AreAccepted allowed (s ∷ l) (r ∷ rs) = IsAccepted allowed s r × AreAccepted allowed l rs

  parse_order_sound :
      (allowed : List Text) (s : Order) (r : Text)
      → parse_order to_snake allowed s ≡ ok r
      → IsAccepted allowed s r
  unfolding parse_order
  parse_order_sound allowed s r h = elim (Bool-cases (is_allowed allowed (to_snake s.key))) [
    | inl good ↦
        let column = is_allowed-Memᴰ allowed (to_snake s.key) good in
        elim (Bool-cases (same_text s.direction (bytes "asc"))) [
          | inl asc ↦
              let e : to_snake s.key ++ bytes " " ++ s.direction ≡ r =
                ground (arith, good, asc, h) in
              (column, inl ((same_text_iff s.direction (bytes "asc")).0 asc), sym e)
          | inr not_asc ↦ elim (Bool-cases (same_text s.direction (bytes "desc"))) [
            | inl desc ↦
                let e : to_snake s.key ++ bytes " " ++ s.direction ≡ r =
                  ground (arith, good, not_asc, desc, h) in
                (column, inr ((same_text_iff s.direction (bytes "desc")).0 desc), sym e)
            | inr not_desc ↦ ground (arith, good, not_asc, not_desc, h)
          ]
        ]
    | inr bad ↦ ground (arith, bad, h)
  ]

  parse_order_complete :
      (allowed : List Text) (s : Order) (r : Text)
      → IsAccepted allowed s r
      → parse_order to_snake allowed s ≡ ok r
  unfolding parse_order
  parse_order_complete allowed s r h =
      let good = Memᴰ-is_allowed allowed (to_snake s.key) h.0 in
      let text = h.2 in
      elim h.1 [
        | inl e ↦
            let asc = (same_text_iff s.direction (bytes "asc")).1 e in
            rw (good, asc) (ap ok (sym text))
        | inr e ↦
            let desc = (same_text_iff s.direction (bytes "desc")).1 e in
            elim (Bool-cases (same_text s.direction (bytes "asc"))) [
              | inl asc ↦ rw (good, asc) (ap ok (sym text))
              | inr not_asc ↦ rw (good, not_asc, desc) (ap ok (sym text))
            ]
      ]

  clauses_sound :
      (allowed : List Text) (l : List Order) (rs : List Text)
      → parse_order_clauses to_snake allowed l ≡ ok rs
      → AreAccepted allowed l rs
  unfolding parse_order_clauses
  clauses_sound allowed [] rs h = subst (AreAccepted allowed []) (ok-injective h) tt
  clauses_sound allowed (s ∷ l) rs h =
      let first = then-ok (parse_order to_snake allowed s) _ h in
      let rest = then-ok (parse_order_clauses to_snake allowed l) _ first.2 in
      subst (AreAccepted allowed (s ∷ l)) (ok-injective rest.2)
        (parse_order_sound allowed s first.0 first.1, clauses_sound allowed l rest.0 rest.1)

  clauses_complete :
      (allowed : List Text) (l : List Order) (rs : List Text)
      → AreAccepted allowed l rs
      → parse_order_clauses to_snake allowed l ≡ ok rs
  unfolding parse_order_clauses
  clauses_complete allowed [] [] h = refl
  clauses_complete allowed [] (r ∷ rs) h = elim h [ ]
  clauses_complete allowed (s ∷ l) [] h = elim h [ ]
  clauses_complete allowed (s ∷ l) (r ∷ rs) h =
      let first = parse_order_complete allowed s r h.0 in
      let rest = clauses_complete allowed l rs h.1 in rw (first, rest) refl

  -- The orders of a request are accepted just if its JSON can be read and each order names an
  -- allowed column, after both conversions of its key, and one of the two directions. The result
  -- has, in the order of the request, the column and the direction of each.
  pub parse_order_params_iff :
      (unmarshal : Text → Option (List Order)) (params : Text) (allowed rs : List Text)
      → (parse_order_params to_snake unmarshal params allowed ≡ ok rs) ↔ (
          (l : List Order) × (unmarshal params ≡ some l)
          × AreAccepted allowed (snake_keys to_snake l) rs)
  parse_order_params_iff unmarshal params allowed rs = (forward, backward)
    where
      forward :
          parse_unmarshalled_orders to_snake allowed (unmarshal params) ≡ ok rs
          → (l : List Order) × (unmarshal params ≡ some l)
            × AreAccepted allowed (snake_keys to_snake l) rs
      forward h = elim (Option-cases (unmarshal params)) [
        | inl missing ↦
            elim (error-not_ok
              (sym (ap (parse_unmarshalled_orders to_snake allowed) missing) ∙ h)) [ ]
        | inr (l, found) ↦ (
          l,
          found,
          clauses_sound allowed (snake_keys to_snake l) rs
              (sym (ap (parse_unmarshalled_orders to_snake allowed) found) ∙ h),
        )
      ]

      backward :
          (l : List Order) × (unmarshal params ≡ some l)
            × AreAccepted allowed (snake_keys to_snake l) rs
          → parse_unmarshalled_orders to_snake allowed (unmarshal params) ≡ ok rs
      backward x =
          ap (parse_unmarshalled_orders to_snake allowed) x.1
          ∙ clauses_complete allowed (snake_keys to_snake x.0) rs x.2
