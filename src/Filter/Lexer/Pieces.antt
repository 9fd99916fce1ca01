-- ===== src/Filter/Lexer/Pieces.antt =====
-- filter_lexer.rs: the character tests, `create_fop` and the `append_…` helpers over the local
-- variables of `condition_lexer_index`.
use doka_one.Prelude.{
  ℕ, ◌+◌, Bool, true, false, ◌&&◌, ◌||◌, Option, none, some, List, [], ◌∷◌, ◌++◌, Text, codes,
  text_eq, starts_with, byte_length, trim_matches, is_empty, any, length, is_digit, leb, ◌==◌,
  if◌then◌else◌, Outcome, ok, err, ◌>>=◌, checked_sub,
}
use doka_one.Filter.Token.{
  ComparisonOperator, eq, neq, gt, gte, lt, lte, like, Token, Tokens, attribute, operator,
  value_int, value_string, value_bool, FilterError, FilterErrorCode, unknown_filter_operator,
  wrong_numeric_value,
}
use doka_one.Filter.Number.{parse_i32}

abbrev pub Lexed : Type 0 → Type 0
Lexed = Outcome FilterError

abbrev pub fail : {A : Type 0} → ℕ → FilterErrorCode → Lexed A
fail p code = err (record { char_position = p; error_code = code })

abbrev pub list_of_fop : List Text
list_of_fop =
    codes "=="
    ∷ codes "!="
    ∷ codes ">="
    ∷ codes "=>"
    ∷ codes "<="
    ∷ codes "=<"
    ∷ codes ">"
    ∷ codes "<"
    ∷ codes "LIKE"
    ∷ []

unfoldable pub find_possible_operator_with : ℕ → Text → List Text → Bool
unfolding starts_with
find_possible_operator_with c op operators = any (λ o. starts_with o (op ++ c ∷ [])) operators

unfoldable pub is_valid_char_attribute : ℕ → Bool
is_valid_char_attribute c =
    leb b'a' c && leb c b'z' || leb b'A' c && leb c b'Z' || is_digit c || c == b'_'

-- `LIST_OF_FOP.iter().any(|fop| fop.starts_with(c))`
unfoldable pub starts_some_fop : ℕ → Bool
unfolding starts_with
starts_some_fop c = any (λ o. starts_with o (c ∷ [])) list_of_fop

pub data ConditionExpectedLexeme : Type 0 where
  expects_attribute expects_operator expects_value : ConditionExpectedLexeme

-- The local variables of `condition_lexer_index`, and its index.
pub record ConditionState : Type 0 where
  pub index : ℕ
  pub expected_lexeme : ConditionExpectedLexeme
  pub attr : Text
  pub fop : Text
  pub value : Text
  pub text_mode : Bool
  pub tokens : Tokens

-- The operator that the text of one stands for.
unfoldable pub fop_of : Text → Option ComparisonOperator
unfolding text_eq
fop_of t =
    if text_eq t (codes "==")
    then some eq
    else if text_eq t (codes "!=")
    then some neq
    else if text_eq t (codes ">")
    then some gt
    else if text_eq t (codes ">=") || text_eq t (codes "=>")
    then some gte
    else if text_eq t (codes "<")
    then some lt
    else if text_eq t (codes "<=") || text_eq t (codes "=<")
    then some lte
    else if text_eq t (codes "LIKE")
    then some like
    else none

unfoldable pub create_fop : Text → ℕ → ℕ → Lexed Token
unfolding fop_of
create_fop fop index offset = do
  char_pos ← checked_sub index (byte_length fop)
  elim (fop_of fop) [
    | none ↦ fail (char_pos + offset) unknown_filter_operator
    | some o ↦ ok (operator o (char_pos + offset))
  ]

unfoldable pub append_fop : ℕ → ConditionState → Lexed ConditionState
unfolding create_fop
append_fop offset s = do
  lexeme ← create_fop s.fop s.index offset
  ok (record s { tokens = s.tokens ++ lexeme ∷ []; fop = []; expected_lexeme = expects_value })

unfoldable pub append_attribute : ℕ → ConditionState → Lexed ConditionState
append_attribute offset s =
    if is_empty s.attr then fail (s.index + offset) wrong_numeric_value else (do
      at ← checked_sub (s.index + offset) (length s.attr)
      ok (record s {
        tokens = s.tokens ++ attribute s.attr at ∷ [];
        attr = [];
        expected_lexeme = expects_operator;
      }))

unfoldable pub create_value : Text → ℕ → Lexed Token
unfolding starts_with trim_matches text_eq parse_i32
create_value value here =
    if starts_with value (b'"' ∷ [])
    then (do
      let raw_value = trim_matches b'"' value
      at ← checked_sub here (length raw_value)
      ok (value_string raw_value at))
    else if text_eq value (codes "TRUE")
    then (do at ← checked_sub here 4; ok (value_bool true at))
    else if text_eq value (codes "FALSE")
    then (do at ← checked_sub here 5; ok (value_bool false at))
    else (do
      at ← checked_sub here (byte_length value)
      elim (parse_i32 value) [
        | none ↦ fail at wrong_numeric_value
        | some parsed ↦ ok (value_int parsed at)
      ])

unfoldable pub append_value : ℕ → ConditionState → Lexed ConditionState
unfolding create_value
append_value offset s = do
  lexeme ← create_value s.value (s.index + offset)
  ok (record s { tokens = s.tokens ++ lexeme ∷ []; value = [] })
