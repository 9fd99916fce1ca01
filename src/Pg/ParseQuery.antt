-- ===== src/Pg/ParseQuery.antt =====
-- `parse_query` (sql_transaction.rs) and `parse_query_async` (sql_transaction_async.rs), and the
-- end that `execute` puts on a query.
pub mod Template
pub mod Prefix
use doka_one.Prelude.{
  ℕ, zero, suc, ◌+◌, ◌-◌, Option, none, some, List, [], ◌∷◌, ◌++◌, Text, codes, starts_with, length,
  if◌then◌else◌,
}
use doka_one.Filter.Number.{show_ℕ}
use doka_one.Pg.Cell.{CellValue}

-- `s.replace(from, to)`, for a `from` that is not empty: `skip` characters are left of a match.
unfoldable pub replace_from : ℕ → Text → Text → Text → Text
replace_from skip from to [] = []
replace_from (suc skip) from to (c ∷ s) = replace_from skip from to s
replace_from zero from to (c ∷ s) =
    let matched = to ++ replace_from (length from - 1) from to s in
    let rest = c ∷ replace_from zero from to s in if starts_with (c ∷ s) from then matched else rest

unfoldable pub replace : Text → Text → Text → Text
unfolding replace_from
replace = replace_from 0

-- The parameters in the order in which the hash map iterates.
abbrev pub Params : Type 0
Params = List (Text × CellValue)

abbrev pub param_mark : Text → Text
param_mark name = b':' ∷ name

abbrev pub position_mark : ℕ → Text
position_mark counter = b'$' ∷ show_ℕ counter

unfoldable pub parse_params : Params → ℕ → Text → List CellValue → Text × List CellValue
unfolding replace
parse_params [] counter new_sql_string v_params = (new_sql_string, v_params)
parse_params ((param_name, param_value) ∷ params) counter new_sql_string v_params =
    parse_params params (counter + 1)
      (replace (param_mark param_name) (position_mark counter) new_sql_string)
      (v_params ++ param_value ∷ [])

unfoldable pub parse_query : Text → Params → Text × List CellValue
unfolding parse_params
parse_query string_template params = parse_params params 1 string_template []

unfoldable pub push_limits : ℕ → Option ℕ → Text → Text
push_limits start none sql = sql ++ (codes " OFFSET " ++ (show_ℕ start ++ codes " "))
push_limits start (some l) sql =
    sql ++ (codes " OFFSET " ++ (show_ℕ start ++ (codes " LIMIT " ++ show_ℕ l)))

-- The statement and the values that `execute` hands to the database.
unfoldable pub prepare_query : Text → ℕ → Option ℕ → Params → Text × List CellValue
unfolding parse_query push_limits
prepare_query sql_query start length params =
    let (new_sql_string, v_params) = parse_query sql_query params in
    (push_limits start length new_sql_string, v_params)
