-- ===== src/Filter/Token.antt =====
-- The tokens and errors of document-server/src/filter/filter_lexer.rs. A token's constructor takes
-- the two fields of its `PositionalToken`, the payload (if it is not `()`) and the position.
use doka_one.Prelude.{ℕ, Bool, true, false, List, Text}
use doka_one.Prelude.Int.{ℤ}

pub data LogicalOperator : Type 0 where
  land lor : LogicalOperator

pub data ComparisonOperator : Type 0 where
  eq neq gt gte lt lte like : ComparisonOperator

pub data Token : Type 0 where
  attribute : Text → ℕ → Token
  operator : ComparisonOperator → ℕ → Token
  value_int : ℤ → ℕ → Token
  value_string : Text → ℕ → Token
  value_bool : Bool → ℕ → Token
  binary_logical_operator : LogicalOperator → ℕ → Token
  condition_open condition_close logical_open logical_close : ℕ → Token

abbrev pub Tokens : Type 0
Tokens = List Token

unfoldable pub is_logical_open : Token → Bool
is_logical_open (logical_open p) = true
is_logical_open _ = false

unfoldable pub is_logical_close : Token → Bool
is_logical_close (logical_close p) = true
is_logical_close _ = false

unfoldable pub is_condition_open : Token → Bool
is_condition_open (condition_open p) = true
is_condition_open _ = false

unfoldable pub is_condition_close : Token → Bool
is_condition_close (condition_close p) = true
is_condition_close _ = false

unfoldable pub position : Token → ℕ
position (attribute _ p) = p
position (operator _ p) = p
position (value_int _ p) = p
position (value_string _ p) = p
position (value_bool _ p) = p
position (binary_logical_operator _ p) = p
position (condition_open p) = p
position (condition_close p) = p
position (logical_open p) = p
position (logical_close p) = p

pub data FilterErrorCode : Type 0 where
  empty_condition empty_logical_operation wrong_logical_operator : FilterErrorCode
  unknown_filter_operator wrong_numeric_value unclosed_quote : FilterErrorCode
  incorrect_attribute_char incomplete_expression invalid_logical_depth : FilterErrorCode
  value_expected logical_operator_expected operator_expected : FilterErrorCode
  attribute_expected opening_expected closing_expected : FilterErrorCode

pub record FilterError : Type 0 where
  pub char_position : ℕ
  pub error_code : FilterErrorCode

-- `matches!(a, b)` on the two operators of the logical kind.
abbrev pub same_operator : LogicalOperator → LogicalOperator → Bool
same_operator land land = true
same_operator lor lor = true
same_operator _ _ = false
