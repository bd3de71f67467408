-- ===== src/QueryParser/Errors.antt =====
-- Which error a filter gives (internal/query_parser/filter.go).
use torq.Prelude.{◌≡◌, refl, Option, none, some, List, [], ◌∷◌, ◌++◌, sym, ap, ◌∙◌}
use torq.Prelude.Text.{Text}
use torq.QueryParser.Types.{
  Filter, FilterClauses, clauses, ClauseList, empty, more, Passed, Sqlizer, all_of, some_of,
  SqlizerList, ParseError, Result, ok, error,
}
use torq.QueryParser.Parse.{
  ◌then◌, parse_filter, parse_filter_clauses, parse_each, parse_unmarshalled, parse_filter_param,
}

-- The filters that count: those of `$and` where it is not empty, else those of `$or` where it is
-- not empty, else the one of `$filter`.
mutual
  pub leaves : {V : Type 0} → FilterClauses V → List (Filter V)
  leaves (clauses (more c l) or f) = all_leaves (more c l)
  leaves (clauses empty (more c l) f) = all_leaves (more c l)
  leaves (clauses empty empty f) = f ∷ []

  pub all_leaves : {V : Type 0} → ClauseList V → List (Filter V)
  all_leaves empty = []
  all_leaves (more c l) = leaves c ++ all_leaves l

abbrev pub error_of : {A : Type 0} → Result A → Option ParseError
error_of (ok a) = none
error_of (error e) = some e

abbrev earlier : Option ParseError → Option ParseError → Option ParseError
earlier none o = o
earlier (some e) o = some e

module _ {V : Type 0} (to_snake : Text → Text) (print_value : V → Text)
    (print : Passed → Text) where
  -- The error of the first filter that is refused.
  unfoldable pub first_error : List Text → List (Filter V) → Option ParseError
  first_error allowed [] = none
  first_error allowed (f ∷ l) =
      earlier (error_of (parse_filter to_snake print_value print allowed f)) (first_error allowed l)

  first_error-append :
      (allowed : List Text) (l k : List (Filter V))
      → first_error allowed (l ++ k) ≡ earlier (first_error allowed l) (first_error allowed k)
  unfolding first_error
  first_error-append allowed [] k = refl
  first_error-append allowed (f ∷ l) k =
      ap (earlier (error_of (parse_filter to_snake print_value print allowed f)))
        (first_error-append allowed l k)
      ∙ assoc (error_of (parse_filter to_snake print_value print allowed f))
    where
      assoc :
          (o : Option ParseError)
          → earlier o (earlier (first_error allowed l) (first_error allowed k))
            ≡ earlier (earlier o (first_error allowed l)) (first_error allowed k)
      assoc none = refl
      assoc (some e) = refl

  wrap-error :
      (wrap : SqlizerList → Sqlizer) (o : Result SqlizerList)
      → error_of (o then λ r. ok (wrap r)) ≡ error_of o
  wrap-error wrap (ok l) = refl
  wrap-error wrap (error e) = refl

  then-error :
      (o : Result Sqlizer) (q : Result SqlizerList)
      → error_of {A = SqlizerList} (o then λ r. q then λ rs. ok (more r rs))
        ≡ earlier (error_of o) (error_of q)
  then-error (ok r) (ok rs) = refl
  then-error (ok r) (error e) = refl
  then-error (error e) q = refl

  single : (o : Option ParseError) → o ≡ earlier o none
  single none = refl
  single (some e) = refl

  mutual
    unfolding parse_filter_clauses leaves first_error

    clauses-first_error :
        (allowed : List Text) (c : FilterClauses V)
        → error_of (parse_filter_clauses to_snake print_value print allowed c)
          ≡ first_error allowed (leaves c)
    clauses-first_error allowed (clauses (more c l) or f) =
        wrap-error all_of (parse_each to_snake print_value print allowed (more c l))
        ∙ each-first_error allowed (more c l)
    clauses-first_error allowed (clauses empty (more c l) f) =
        wrap-error some_of (parse_each to_snake print_value print allowed (more c l))
        ∙ each-first_error allowed (more c l)
    clauses-first_error allowed (clauses empty empty f) =
        single (error_of (parse_filter to_snake print_value print allowed f))

    each-first_error :
        (allowed : List Text) (l : ClauseList V)
        → error_of (parse_each to_snake print_value print allowed l)
          ≡ first_error allowed (all_leaves l)
    each-first_error allowed empty = refl
    each-first_error allowed (more c l) =
        then-error (parse_filter_clauses to_snake print_value print allowed c)
          (parse_each to_snake print_value print allowed l)
        ∙ ap (λ o. earlier o (error_of (parse_each to_snake print_value print allowed l)))
            (clauses-first_error allowed c)
        ∙ ap (earlier (first_error allowed (leaves c))) (each-first_error allowed l)
        ∙ sym (first_error-append allowed (leaves c) (all_leaves l))

  -- A filter whose JSON can be read is refused just if one of the filters that count is, and with
  -- the error of the first of them that is refused, in the order in which they are written.
  pub parse_filter_param-first_error :
      (unmarshal : Text → Option (FilterClauses V)) (params : Text) (allowed : List Text)
      (c : FilterClauses V)
      → unmarshal params ≡ some c
      → error_of (parse_filter_param to_snake print_value print unmarshal params allowed)
        ≡ first_error allowed (leaves c)
  parse_filter_param-first_error unmarshal params allowed c h =
      ap (λ o. error_of (parse_unmarshalled to_snake print_value print allowed o)) h
      ∙ clauses-first_error allowed c
