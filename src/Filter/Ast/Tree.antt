-- ===== src/Filter/Ast/Tree.antt =====
-- filter_ast.rs: `FilterExpressionAST`, with `to_canonical_form` and (of filter/mod.rs)
-- `to_sql_form`.
use doka_one.Prelude.{Bool, [], ◌++◌, Text, codes, if◌then◌else◌}
use doka_one.Prelude.Int.{ℤ}
use doka_one.Filter.Token.{
  LogicalOperator, land, lor, ComparisonOperator, eq, neq, gt, gte, lt, lte, like,
}
use doka_one.Filter.Number.{show_i32}

pub data FilterValue : Type 0 where
  value_int : ℤ → FilterValue
  value_string : Text → FilterValue
  value_bool : Bool → FilterValue

-- `impl fmt::Display for FilterValue`
unfoldable pub show_value : FilterValue → Text
unfolding show_i32
show_value (value_int i) = show_i32 i
show_value (value_string s) = s
show_value (value_bool b) = if b then codes "TRUE" else codes "FALSE"

pub record FilterCondition : Type 0 where
  pub key : Text
  pub attribute : Text
  pub operator : ComparisonOperator
  pub value : FilterValue

-- `Leaves` is the vector of the leaves of a logical expression.
mutual
  pub data FilterExpressionAst : Type 0 where
    condition : FilterCondition → FilterExpressionAst
    logical : LogicalOperator → Leaves → FilterExpressionAst

  pub data Leaves : Type 0 where
    nil : Leaves
    cons : FilterExpressionAst → Leaves → Leaves

-- What `{:?}` prints.
abbrev pub debug_operator : LogicalOperator → Text
debug_operator land = codes "AND"
debug_operator lor = codes "OR"

abbrev pub debug_comparison : ComparisonOperator → Text
debug_comparison eq = codes "EQ"
debug_comparison neq = codes "NEQ"
debug_comparison gt = codes "GT"
debug_comparison gte = codes "GTE"
debug_comparison lt = codes "LT"
debug_comparison lte = codes "LTE"
debug_comparison like = codes "LIKE"

abbrev pub sql_operator : ComparisonOperator → Text
sql_operator eq = codes "="
sql_operator neq = codes "<>"
sql_operator gt = codes ">"
sql_operator lt = codes "<"
sql_operator gte = codes ">="
sql_operator lte = codes "<="
sql_operator like = codes "LIKE"

-- What stands between a leaf and the rest: nothing behind the last one.
abbrev pub separator : Text → Leaves → Text
separator sep nil = []
separator sep (cons _ _) = sep

unfoldable mutual
  unfolding show_value

  pub to_canonical_form : FilterExpressionAst → Text
  to_canonical_form (condition c) =
      codes "["
      ++ (c.attribute
          ++ (codes "<"
              ++ (debug_comparison c.operator ++ (codes ">" ++ (show_value c.value ++ codes "]")))))
  to_canonical_form (logical o leaves) =
      codes "(" ++ (canonical_leaves (debug_operator o) leaves ++ codes ")")

  pub canonical_leaves : Text → Leaves → Text
  canonical_leaves sep nil = []
  canonical_leaves sep (cons l ls) =
      to_canonical_form l ++ (separator sep ls ++ canonical_leaves sep ls)

unfoldable mutual
  unfolding show_value

  pub to_sql_form : FilterExpressionAst → Text
  to_sql_form (condition c) =
      codes "("
      ++ (c.attribute
          ++ (codes " "
              ++ (sql_operator c.operator ++ (codes " " ++ (show_value c.value ++ codes ")")))))
  to_sql_form (logical o leaves) =
      codes "(" ++ (sql_leaves (codes " " ++ (debug_operator o ++ codes " ")) leaves ++ codes ")")

  pub sql_leaves : Text → Leaves → Text
  sql_leaves sep nil = []
  sql_leaves sep (cons l ls) = to_sql_form l ++ (separator sep ls ++ sql_leaves sep ls)
