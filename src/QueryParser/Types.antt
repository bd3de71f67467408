-- ===== src/QueryParser/Types.antt =====
-- The data of internal/query_parser: filters, orders, and the squirrel expressions that are built.
use torq.Prelude.{ℕ, List, Bool}
use torq.Prelude.Text.{Text}

-- A value of a filter as JSON gives it: nil, a bool, a float64 (its bits), a string, a list or an
-- object. The elements of a list are only printed.
pub data Parameter (V : Type 0) : Type 0 where
  nil : Parameter V
  boolean : Bool → Parameter V
  number : ℕ → Parameter V
  text : Text → Parameter V
  list : List V → Parameter V
  object : Parameter V

pub record Filter (V : Type 0) : Type 0 where
  pub func_name : Text
  pub key : Text
  pub parameter : Parameter V

-- `FilterClauses`, with the lists of its fields `$and` and `$or`.
mutual
  pub data FilterClauses (V : Type 0) : Type 0 where
    clauses : (and or : ClauseList V) → Filter V → FilterClauses V

  pub data ClauseList (V : Type 0) : Type 0 where
    empty : ClauseList V
    more : FilterClauses V → ClauseList V → ClauseList V

-- The parameter that is passed on: a list is passed on as the texts of its elements.
pub data Passed : Type 0 where
  boolean : Bool → Passed
  number : ℕ → Passed
  text : Text → Passed
  texts : List Text → Passed

pub data Comparison : Type 0 where
  eq not_eq gt gt_or_eq lt lt_or_eq : Comparison

-- What the code builds of squirrel's types: `sq.Eq{key: param}` and its like, `sq.ILike` and
-- `sq.NotILike` with a pattern, `sq.Expr` with its text and argument, `sq.And` and `sq.Or`.
mutual
  pub data Sqlizer : Type 0 where
    compares : Comparison → (key : Text) → Passed → Sqlizer
    ilike : (key pattern : Text) → Sqlizer
    not_ilike : (key pattern : Text) → Sqlizer
    expr : (sql : Text) → Passed → Sqlizer
    all_of : SqlizerList → Sqlizer
    some_of : SqlizerList → Sqlizer

  pub data SqlizerList : Type 0 where
    empty : SqlizerList
    more : Sqlizer → SqlizerList → SqlizerList

pub record Order : Type 0 where
  pub key : Text
  pub direction : Text

-- The errors, with what their messages name.
pub data ParseError : Type 0 where
  unmarshal_filters : ParseError
  unmarshal_sort : ParseError
  not_filterable : (key : Text) → (allowed : List Text) → ParseError
  not_sortable : (key : Text) → (allowed : List Text) → ParseError
  unsupported_parameter : ParseError
  unsupported_any : ParseError
  invalid_function : Text → ParseError
  invalid_direction : Text → ParseError

pub data Result {ℓ} (A : Type ℓ) : Type ℓ where
  ok : A → Result A
  error : ParseError → Result A
