-- ===== src/QueryParser/Parse.antt =====
-- The parsers of internal/query_parser. `json.Unmarshal`, `strcase.ToSnake` and the printing of
-- `fmt.Sprintf("%v", ..)` are arguments.
use torq.Prelude.{
  if◌then◌else◌, Bool, true, false, ◌||◌, Option, none, some, List, [], ◌∷◌, ◌++◌, map,
}
use torq.Prelude.Text.{Text, bytes, same_text}
use torq.QueryParser.Types.{
  Parameter, nil, boolean, number, text, list, object, Filter, FilterClauses, clauses, ClauseList,
  empty, more, Passed, texts, eq, not_eq, gt, gt_or_eq, lt, lt_or_eq, Sqlizer, compares, ilike,
  not_ilike, expr, all_of, some_of, SqlizerList, Order, unmarshal_filters, unmarshal_sort,
  not_filterable, not_sortable, unsupported_parameter, unsupported_any, invalid_function,
  invalid_direction, Result, ok, error,
}

abbrev pub ◌then◌ : {A B : Type 0} → Result A → (A → Result B) → Result B
ok a then f = f a
error e then f = error e

infixl 5 ◌then◌
-- `IsAllowed`.
unfoldable pub is_allowed : List Text → Text → Bool
is_allowed [] c = false
is_allowed (ac ∷ columns) c =
    let rest = is_allowed columns c in if same_text ac c then true else rest

-- `fmt.Sprintf("? %s ANY(%s)", equalOpr, key)`.
abbrev pub any_text : Bool → Text → Text
any_text false key = bytes "? = ANY(" ++ key ++ bytes ")"
any_text true key = bytes "? != ANY(" ++ key ++ bytes ")"

unfoldable pub any_each : Bool → Text → List Text → SqlizerList
any_each negated key [] = empty
any_each negated key (v ∷ l) = more (expr (any_text negated key) (text v)) (any_each negated key l)

-- `Overlap`. The parameters that reach it are a string, a number, a list of strings, or a bool,
-- which it refuses.
unfoldable pub overlap : Passed → Text → Bool → Result Sqlizer
overlap (texts l) key negated = ok (some_of (any_each negated key l))
overlap (number n) key negated = ok (expr (any_text negated key) (number n))
overlap (text s) key negated = ok (expr (any_text negated key) (text s))
overlap (boolean b) key negated = error unsupported_any

module _ {V : Type 0} (to_snake : Text → Text) (print_value : V → Text)
    (print : Passed → Text) where
  -- The switch on the type of the parameter.
  abbrev pub passed : Parameter V → Option Passed
  passed nil = none
  passed (boolean b) = some (boolean b)
  passed (number n) = some (number n)
  passed (text s) = some (text s)
  passed (list l) = some (texts (map print_value l))
  passed object = none

  abbrev pub pattern : Passed → Text
  pattern p = bytes "%" ++ print p ++ bytes "%"

  -- The switch on the function's name.
  unfoldable pub apply : Text → Text → Passed → Result Sqlizer
  apply name key p =
      if same_text name (bytes "eq")
      then ok (compares eq key p)
      else if same_text name (bytes "neq")
      then ok (compares not_eq key p)
      else if same_text name (bytes "gt")
      then ok (compares gt key p)
      else if same_text name (bytes "gte")
      then ok (compares gt_or_eq key p)
      else if same_text name (bytes "lt")
      then ok (compares lt key p)
      else if same_text name (bytes "lte")
      then ok (compares lt_or_eq key p)
      else if same_text name (bytes "like")
      then ok (ilike key (pattern p))
      else if same_text name (bytes "notLike")
      then ok (not_ilike key (pattern p))
      else if same_text name (bytes "any")
      then overlap p key false
      else if same_text name (bytes "notAny")
      then overlap p key true
      else error (invalid_function name)

  abbrev pub apply_passed : Text → Text → Option Passed → Result Sqlizer
  apply_passed name key none = error unsupported_parameter
  apply_passed name key (some p) = apply name key p

  unfoldable pub parse_filter : List Text → Filter V → Result Sqlizer
  parse_filter allowed f =
      let key = to_snake f.key in
      if is_allowed allowed key
      then apply_passed f.func_name key (passed f.parameter)
      else error (not_filterable key allowed)

  -- `ParseFilterClauses`: `$and` comes before `$or`, and both before `$filter`.
  unfoldable mutual
    pub parse_filter_clauses : List Text → FilterClauses V → Result Sqlizer
    parse_filter_clauses allowed (clauses (more c l) or f) =
        parse_each allowed (more c l) then λ r. ok (all_of r)
    parse_filter_clauses allowed (clauses empty (more c l) f) =
        parse_each allowed (more c l) then λ r. ok (some_of r)
    parse_filter_clauses allowed (clauses empty empty f) = parse_filter allowed f

    -- The loop over the clauses of one list, which ends at the first error.
    pub parse_each : List Text → ClauseList V → Result SqlizerList
    parse_each allowed empty = ok empty
    parse_each allowed (more c l) =
        parse_filter_clauses allowed c then λ r. parse_each allowed l then λ rs. ok (more r rs)

  abbrev pub parse_unmarshalled : List Text → Option (FilterClauses V) → Result Sqlizer
  parse_unmarshalled allowed none = error unmarshal_filters
  parse_unmarshalled allowed (some c) = parse_filter_clauses allowed c

  abbrev pub parse_filter_param :
      (Text → Option (FilterClauses V)) → Text → List Text → Result Sqlizer
  parse_filter_param unmarshal params allowed = parse_unmarshalled allowed (unmarshal params)

module _ (to_snake : Text → Text) where
  unfoldable pub parse_order : List Text → Order → Result Text
  parse_order allowed s =
      let key = to_snake s.key in
      if is_allowed allowed key
      then (if same_text s.direction (bytes "asc") || same_text s.direction (bytes "desc")
          then ok (key ++ bytes " " ++ s.direction)
          else error (invalid_direction s.direction))
      else error (not_sortable key allowed)

  unfoldable pub parse_order_clauses : List Text → List Order → Result (List Text)
  parse_order_clauses allowed [] = ok []
  parse_order_clauses allowed (s ∷ l) =
      parse_order allowed s then λ r. parse_order_clauses allowed l then λ rs. ok (r ∷ rs)

  -- The loop that replaces the keys.
  abbrev pub snake_keys : List Order → List Order
  snake_keys [] = []
  snake_keys (s ∷ l) = record s { key = to_snake s.key } ∷ snake_keys l

  abbrev pub parse_unmarshalled_orders : List Text → Option (List Order) → Result (List Text)
  parse_unmarshalled_orders allowed none = error unmarshal_sort
  parse_unmarshalled_orders allowed (some l) = parse_order_clauses allowed (snake_keys l)

  abbrev pub parse_order_params :
      (Text → Option (List Order)) → Text → List Text → Result (List Text)
  parse_order_params unmarshal params allowed = parse_unmarshalled_orders allowed (unmarshal params)
