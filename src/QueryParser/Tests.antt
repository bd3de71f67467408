-- ===== src/QueryParser/Tests.antt =====
-- A filter and an order of a payments view (internal/query_parser).
use torq.Prelude.{◌+◌, leb, ◌&&◌, ◌≡◌, ◌↔◌, refl, Option, some, List, [], ◌∷◌, if◌then◌else◌}
use torq.Prelude.Text.{Text, bytes, same_text}
use torq.QueryParser.Types.{
  number, text, Filter, FilterClauses, clauses, empty, more, Passed, eq, gt_or_eq, Sqlizer,
  compares, all_of, Order, not_filterable, ok, error,
}
use torq.QueryParser.Parse.{
  ◌then◌, is_allowed, overlap, apply, parse_filter, parse_filter_clauses, parse_filter_param,
  parse_order, parse_order_clauses, snake_keys, parse_order_params,
}
use torq.QueryParser.Safety.{IsSafe, parse_filter_param-IsSafe}
use torq.QueryParser.Orders.{AreAccepted, parse_order_params_iff}

-- A snake case for the tests: `_` and the small letter for a capital.
abbrev to_snake : Text → Text
to_snake [] = []
to_snake (c ∷ l) = if leb 65 c && leb c 90 then 95 ∷ (c + 32) ∷ to_snake l else c ∷ to_snake l

abbrev print_value : Text → Text
print_value v = v

abbrev print : Passed → Text
print (text s) = s
print _ = []

abbrev columns : List Text
columns = bytes "status" ∷ bytes "amount_msat" ∷ []

abbrev succeeded : Filter Text
succeeded = record { func_name = bytes "eq"; key = bytes "status"; parameter = text (bytes "OK") }

abbrev large : Filter Text
large = record { func_name = bytes "gte"; key = bytes "amountMsat"; parameter = number 2000 }

abbrev injected : Filter Text
injected = record { func_name = bytes "any"; key = bytes "1) or ("; parameter = number 1 }

abbrev alone : Filter Text → FilterClauses Text
alone f = clauses empty empty f

abbrev conjunction : Filter Text → Filter Text → FilterClauses Text
conjunction f g = clauses (more (alone f) (more (alone g) empty)) empty injected

abbrev reads : FilterClauses Text → Text → Option (FilterClauses Text)
reads c s = some c

abbrev built : Sqlizer
built = all_of (
    more (compares eq (bytes "status") (text (bytes "OK")))
      (more (compares gt_or_eq (bytes "amount_msat") (number 2000)) empty))

accepted :
    parse_filter_param to_snake print_value print (reads (conjunction succeeded large)) [] columns
    ≡ ok built
unfolding parse_filter_clauses parse_filter is_allowed same_text apply overlap
accepted = refl

refused :
    parse_filter_param to_snake print_value print (reads (conjunction large injected)) [] columns
    ≡ error (not_filterable (bytes "1) or (") columns)
unfolding parse_filter_clauses parse_filter is_allowed same_text apply overlap
refused = refl

parse_filter_param-IsSafe_example : IsSafe columns built
parse_filter_param-IsSafe_example =
    parse_filter_param-IsSafe to_snake print_value print (reads (conjunction succeeded large)) []
      columns built accepted

abbrev falling : List Order
falling = record { key = bytes "amountMsat"; direction = bytes "desc" } ∷ []

abbrev reads_orders : Text → Option (List Order)
reads_orders s = some falling

sorted : parse_order_params to_snake reads_orders [] columns ≡ ok (bytes "amount_msat desc" ∷ [])
unfolding parse_order_clauses parse_order is_allowed same_text
sorted = refl

parse_order_params_iff_example :
    (parse_order_params to_snake reads_orders [] columns ≡ ok (bytes "amount_msat desc" ∷ [])) ↔ (
      (l : List Order) × (reads_orders [] ≡ some l)
      × AreAccepted to_snake columns (snake_keys to_snake l) (bytes "amount_msat desc" ∷ []))
parse_order_params_iff_example =
    parse_order_params_iff to_snake reads_orders [] columns (bytes "amount_msat desc" ∷ [])
