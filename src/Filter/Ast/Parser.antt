-- ===== src/Filter/Ast/Parser.antt =====
-- filter_ast.rs: `parse_tokens`, and `analyse_expression` of filter/mod.rs.
use doka_one.Prelude.{
  ℕ, zero, suc, ◌+◌, Option, some, Text, length, get_elem?, ok, out_of_fuel, ◌>>=◌,
}
use doka_one.Filter.Token.{
  LogicalOperator, ComparisonOperator, Token, Tokens, attribute, operator, value_int, value_string,
  value_bool, binary_logical_operator, condition_open, logical_open, logical_close, value_expected,
  logical_operator_expected, operator_expected, attribute_expected, opening_expected,
  closing_expected,
}
use doka_one.Filter.Lexer.Pieces.{Lexed, fail}
use doka_one.Filter.Lexer.Expression.{Unicode, lex3}
use doka_one.Filter.Normalizer.N3.{normalize_lexeme}
use doka_one.Filter.Ast.Tree.{FilterValue, FilterExpressionAst, condition, logical, nil, cons}

-- The index into the tokens, and the number of calls made to `uuid8`.
pub record Cursor : Type 0 where
  pub index : ℕ
  pub keys : ℕ

abbrev pub advance : Cursor → Cursor
advance s = record s { index = s.index + 1 }

abbrev pub SubParser : Type 0
SubParser = Cursor → Lexed (FilterExpressionAst × Cursor)

unfoldable pub expect_attribute : ℕ → Option Token → Lexed Text
expect_attribute i (some (attribute a p)) = ok a
expect_attribute i _ = fail i attribute_expected

unfoldable pub expect_operator : ℕ → Option Token → Lexed ComparisonOperator
expect_operator i (some (operator o p)) = ok o
expect_operator i _ = fail i operator_expected

unfoldable pub expect_value : ℕ → Option Token → Lexed FilterValue
expect_value i (some (value_int v p)) = ok (FilterValue.value_int v)
expect_value i (some (value_string v p)) = ok (FilterValue.value_string v)
expect_value i (some (value_bool v p)) = ok (FilterValue.value_bool v)
expect_value i _ = fail i value_expected

-- The token behind the value is passed over whatever it is.
unfoldable pub parse_condition : (ℕ → Text) → Tokens → SubParser
unfolding expect_attribute expect_operator expect_value
parse_condition uuid8 tokens s = do
  a ← expect_attribute (s.index + 1) (get_elem? tokens (s.index + 1))
  o ← expect_operator (s.index + 2) (get_elem? tokens (s.index + 2))
  v ← expect_value (s.index + 3) (get_elem? tokens (s.index + 3))
  ok (
    condition (record { key = uuid8 s.keys; attribute = a; operator = o; value = v }),
    record { index = s.index + 4; keys = s.keys + 1 },
  )

unfoldable pub expect_logical_operator : ℕ → Option Token → Lexed LogicalOperator
expect_logical_operator i (some (binary_logical_operator o p)) = ok o
expect_logical_operator i _ = fail i logical_operator_expected

unfoldable pub expect_closing : ℕ → Option Token → Lexed (Unit {0})
expect_closing i (some (logical_close p)) = ok tt
expect_closing i _ = fail i closing_expected

unfoldable pub expect_opening : ℕ → Option Token → Lexed (Unit {0})
expect_opening i (some (condition_open p)) = ok tt
expect_opening i (some (logical_open p)) = ok tt
expect_opening i _ = fail i opening_expected

-- `LO EXPRESSION LOP EXPRESSION LC`, where `sub` reads an expression.
unfoldable pub parse_logical : Tokens → SubParser → SubParser
unfolding expect_logical_operator expect_closing expect_opening
parse_logical tokens sub s = do
  _ ← expect_opening (s.index + 1) (get_elem? tokens (s.index + 1))
  (left, l) ← sub (advance s)
  o ← expect_logical_operator (l.index + 1) (get_elem? tokens (l.index + 1))
  (right, r) ← sub (advance (advance l))
  _ ← expect_closing (r.index + 1) (get_elem? tokens (r.index + 1))
  ok (logical o (cons left (cons right nil)), advance r)

-- The fuel bounds the nesting.
unfoldable pub parse_tokens_with_index : ℕ → (ℕ → Text) → Tokens → SubParser
unfolding parse_condition parse_logical
parse_tokens_with_index zero uuid8 tokens s = out_of_fuel
parse_tokens_with_index (suc f) uuid8 tokens s = elim (get_elem? tokens s.index) [
  | some (logical_open p) ↦ parse_logical tokens (parse_tokens_with_index f uuid8 tokens) s
  | some (condition_open p) ↦ parse_condition uuid8 tokens s
  | _ ↦ fail s.index opening_expected
]

unfoldable pub parse_tokens : (ℕ → Text) → Tokens → Lexed FilterExpressionAst
unfolding parse_tokens_with_index
parse_tokens uuid8 tokens = do
  (tree, s) ←
      parse_tokens_with_index (length tokens + 1) uuid8 tokens (record { index = 0; keys = 0 })
  ok tree

-- filter/mod.rs
unfoldable pub analyse_expression : Unicode → (ℕ → Text) → Text → Lexed FilterExpressionAst
unfolding lex3 normalize_lexeme parse_tokens
analyse_expression u uuid8 expression = do
  tokens ← lex3 u expression
  normal ← normalize_lexeme tokens
  parse_tokens uuid8 normal
