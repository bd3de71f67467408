-- ===== src/QueryParser/Safety.antt =====
-- What the parsers of internal/query_parser let into a query.
use mathlib.Core.List.Memᴰ.{head, tail}
use torq.Prelude.{
  ◌≡◌, refl, inl, inr, Bool, true, false, Bool-cases, Option, none, some, List, [], ◌∷◌, Memᴰ,
  arith, sym, subst, if◌then◌else◌,
}
use torq.Prelude.Text.{Text, same_text, same_text_iff}
use torq.QueryParser.Types.{
  boolean, number, text, Filter, FilterClauses, clauses, ClauseList, empty, more, Passed, texts,
  Comparison, eq, not_eq, gt, gt_or_eq, lt, lt_or_eq, Sqlizer, compares, ilike, not_ilike, expr,
  all_of, some_of, SqlizerList, ParseError, invalid_function, Result, ok, error,
}
use torq.QueryParser.Parse.{
  ◌then◌, is_allowed, any_text, any_each, overlap, passed, apply, apply_passed, parse_filter,
  parse_filter_clauses, parse_each, parse_unmarshalled, parse_filter_param,
}

pub is_allowed-Memᴰ :
    (columns : List Text) (c : Text) → is_allowed columns c ≡ true → Memᴰ c columns
unfolding is_allowed
is_allowed-Memᴰ [] c h = cc
is_allowed-Memᴰ (ac ∷ columns) c h = elim (Bool-cases (same_text ac c)) [
  | inl same ↦ head (sym ((same_text_iff ac c).0 same))
  | inr other ↦
      let rest : is_allowed columns c ≡ true = ground (arith, other, h) in
      tail (is_allowed-Memᴰ columns c rest)
]

-- An expression is safe for a list of columns: each of its columns is of the list, and the text
-- that is not an argument is that of the ANY test on a column of the list.
mutual
  pub IsSafe : List Text → Sqlizer → Type 0
  IsSafe allowed (compares op key p) = Memᴰ key allowed
  IsSafe allowed (ilike key pattern) = Memᴰ key allowed
  IsSafe allowed (not_ilike key pattern) = Memᴰ key allowed
  IsSafe allowed (expr sql p) =
      (key : Text) × (negated : Bool) × Memᴰ key allowed × (sql ≡ any_text negated key)
  IsSafe allowed (all_of l) = AreSafe allowed l
  IsSafe allowed (some_of l) = AreSafe allowed l

  pub AreSafe : List Text → SqlizerList → Type 0
  AreSafe allowed empty = Unit
  AreSafe allowed (more r l) = IsSafe allowed r × AreSafe allowed l

-- What a result is, where it is one.
unfoldable OnOk : {A : Type 0} → (A → Type 0) → Result A → Type 0
OnOk P (ok a) = P a
OnOk P (error e) = Unit

on_ok : {A : Type 0} (P : A → Type 0) (a : A) → P a → OnOk P (ok a)
unfolding OnOk
on_ok P a h = h

on_error : {A : Type 0} (P : A → Type 0) (e : ParseError) → OnOk P (error e)
unfolding OnOk
on_error P e = tt

any_each-AreSafe :
    (allowed : List Text) (negated : Bool) (key : Text) (l : List Text)
    → Memᴰ key allowed
    → AreSafe allowed (any_each negated key l)
unfolding any_each AreSafe
any_each-AreSafe allowed negated key [] at = tt
any_each-AreSafe allowed negated key (v ∷ l) at =
    ((key, negated, at, refl), any_each-AreSafe allowed negated key l at)

overlap-IsSafe :
    (allowed : List Text) (p : Passed) (key : Text) (negated : Bool)
    → Memᴰ key allowed
    → OnOk (IsSafe allowed) (overlap p key negated)
unfolding overlap IsSafe OnOk
overlap-IsSafe allowed (texts l) key negated at = any_each-AreSafe allowed negated key l at
overlap-IsSafe allowed (number n) key negated at = (key, negated, at, refl)
overlap-IsSafe allowed (text s) key negated at = (key, negated, at, refl)
overlap-IsSafe allowed (boolean b) key negated at = tt

choose-OnOk :
    (P : Sqlizer → Type 0) (b : Bool) (x y : Result Sqlizer)
    → OnOk P x
    → OnOk P y
    → OnOk P (if b then x else y)
choose-OnOk P true x y h g = h
choose-OnOk P false x y h g = g

module _ {V : Type 0} (to_snake : Text → Text) (print_value : V → Text)
    (print : Passed → Text) where
  apply-IsSafe :
      (allowed : List Text) (name key : Text) (p : Passed)
      → Memᴰ key allowed
      → OnOk (IsSafe allowed) (apply to_snake print_value print name key p)
  unfolding apply IsSafe
  apply-IsSafe allowed name key p at =
      let safe = IsSafe allowed in
      let compared : (op : Comparison) → OnOk safe (ok (compares op key p)) =
        λ op. on_ok safe (compares op key p) at in
      choose-OnOk safe _ _ _ (compared eq) (
        choose-OnOk safe _ _ _ (compared not_eq) (
          choose-OnOk safe _ _ _ (compared gt) (
            choose-OnOk safe _ _ _ (compared gt_or_eq) (
              choose-OnOk safe _ _ _ (compared lt) (
                choose-OnOk safe _ _ _ (compared lt_or_eq) (
                  choose-OnOk safe _ _ _ (on_ok safe (ilike key _) at) (
                    choose-OnOk safe _ _ _ (on_ok safe (not_ilike key _) at) (
                      choose-OnOk safe _ _ _ (overlap-IsSafe allowed p key false at) (
                        choose-OnOk safe _ _ _ (overlap-IsSafe allowed p key true at)
                          (on_error safe (invalid_function name)))))))))))

  parse_filter-IsSafe :
      (allowed : List Text) (f : Filter V)
      → OnOk (IsSafe allowed) (parse_filter to_snake print_value print allowed f)
  unfolding parse_filter OnOk
  parse_filter-IsSafe allowed f = elim (Bool-cases (is_allowed allowed (to_snake f.key))) [
    | inl good ↦ rw good (
        given (passed to_snake print_value print f.parameter)
          (is_allowed-Memᴰ allowed (to_snake f.key) good))
    | inr bad ↦ rw bad tt
  ]
    where
      given :
          (o : Option Passed)
          → Memᴰ (to_snake f.key) allowed
          → OnOk
              (IsSafe allowed)
              (apply_passed to_snake print_value print f.func_name (to_snake f.key) o)
      given none at = tt
      given (some p) at = apply-IsSafe allowed f.func_name (to_snake f.key) p at

  wrap-IsSafe :
      (allowed : List Text) (wrap : SqlizerList → Sqlizer) (o : Result SqlizerList)
      → ((l : SqlizerList) → AreSafe allowed l → IsSafe allowed (wrap l))
      → OnOk (AreSafe allowed) o
      → OnOk (IsSafe allowed) (o then λ r. ok (wrap r))
  unfolding OnOk
  wrap-IsSafe allowed wrap (ok l) h g = h l g
  wrap-IsSafe allowed wrap (error e) h g = tt

  then-AreSafe :
      (allowed : List Text) (o : Result Sqlizer) (q : Result SqlizerList)
      → OnOk (IsSafe allowed) o
      → OnOk (AreSafe allowed) q
      → OnOk (AreSafe allowed) (o then λ r. q then λ rs. ok (more r rs))
  unfolding AreSafe OnOk
  then-AreSafe allowed (ok r) (ok rs) h g = (h, g)
  then-AreSafe allowed (ok r) (error e) h g = tt
  then-AreSafe allowed (error e) q h g = tt

  mutual
    unfolding parse_filter_clauses AreSafe OnOk

    clauses-IsSafe :
        (allowed : List Text) (c : FilterClauses V)
        → OnOk (IsSafe allowed) (parse_filter_clauses to_snake print_value print allowed c)
    clauses-IsSafe allowed (clauses (more c l) or f) =
        wrap-IsSafe allowed all_of (parse_each to_snake print_value print allowed (more c l))
          (λ r h. h) (each-AreSafe allowed (more c l))
    clauses-IsSafe allowed (clauses empty (more c l) f) =
        wrap-IsSafe allowed some_of (parse_each to_snake print_value print allowed (more c l))
          (λ r h. h) (each-AreSafe allowed (more c l))
    clauses-IsSafe allowed (clauses empty empty f) = parse_filter-IsSafe allowed f

    each-AreSafe :
        (allowed : List Text) (l : ClauseList V)
        → OnOk (AreSafe allowed) (parse_each to_snake print_value print allowed l)
    each-AreSafe allowed empty = tt
    each-AreSafe allowed (more c l) =
        then-AreSafe allowed (parse_filter_clauses to_snake print_value print allowed c)
          (parse_each to_snake print_value print allowed l) (clauses-IsSafe allowed c)
          (each-AreSafe allowed l)

  -- A filter that is accepted is safe, whatever the request holds and however it is unmarshalled:
  -- every column in it is of the allowed list, also inside a text that is not an argument.
  pub parse_filter_param-IsSafe :
      (unmarshal : Text → Option (FilterClauses V)) (params : Text) (allowed : List Text)
      (r : Sqlizer)
      → parse_filter_param to_snake print_value print unmarshal params allowed ≡ ok r
      → IsSafe allowed r
  unfolding OnOk
  parse_filter_param-IsSafe unmarshal params allowed r h =
      subst (OnOk (IsSafe allowed)) h (unmarshalled (unmarshal params))
    where
      unmarshalled :
          (o : Option (FilterClauses V))
          → OnOk (IsSafe allowed) (parse_unmarshalled to_snake print_value print allowed o)
      unmarshalled none = tt
      unmarshalled (some c) = clauses-IsSafe allowed c
