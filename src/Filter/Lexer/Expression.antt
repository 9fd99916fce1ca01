-- ===== src/Filter/Lexer/Expression.antt =====
-- filter_lexer.rs: `exp_lexer_index`, `lopexp_lexer_index` and `lex3`.
use doka_one.Prelude.{
  ℕ, zero, suc, ◌+◌, ◌-◌, ◌≡◌, ◌&&◌, none, some, List, [], ◌∷◌, ◌++◌, map, Text, codes, text_eq,
  byte_length, IsAscii, All, ascii_upper, ◌≤◌, ◌<◌, is_empty, length, get_elem?, ltb, ◌==◌,
  if◌then◌else◌, ok, out_of_fuel, ◌>>=◌, checked_sub, remove_at, drop_last,
}
use doka_one.Filter.Token.{
  land, lor, Token, Tokens, binary_logical_operator, logical_open, logical_close,
  empty_logical_operation, wrong_logical_operator, incomplete_expression, invalid_logical_depth,
}
use doka_one.Filter.Lexer.Pieces.{Lexed, fail}
use doka_one.Filter.Lexer.Condition.{Flow, continue, break, condition_lexer_index}

-- The lexer of a parenthesised expression, from a depth and an index to tokens and a new index.
abbrev pub SubLexer : Type 0
SubLexer = ℕ → ℕ → Lexed (Tokens × ℕ)

pub data ExpressionExpectedLexeme : Type 0 where
  expression_or_condition logical_operator_or_nothing : ExpressionExpectedLexeme

pub data LopexpExpectedLexeme : Type 0 where
  logical_operator expression_or_condition : LopexpExpectedLexeme

-- After a condition: the end of the text is an error inside parentheses, and a `)` is read again.
unfoldable pub after_condition : Text → ℕ → ℕ → Lexed ℕ
after_condition cs depth i = elim (get_elem? cs i) [
  | none ↦ if ltb 0 depth then fail i incomplete_expression else ok i
  | some c ↦ if c == b')' then checked_sub i 1 else ok i
]

-- The local variables of `lopexp_lexer_index`, and its index.
pub record LopexpState : Type 0 where
  pub index : ℕ
  pub expected_lexeme : LopexpExpectedLexeme
  pub lop : Text
  pub tokens : Tokens

-- The token of an upper-cased `AND` or `OR`.
unfoldable pub create_lop : Text → ℕ → ℕ → Lexed Token
unfolding text_eq
create_lop upper index offset =
    if text_eq upper (codes "AND")
    then (do p ← checked_sub (index + offset) 3; ok (binary_logical_operator land p))
    else if text_eq upper (codes "OR")
    then (do p ← checked_sub (index + offset) 2; ok (binary_logical_operator lor p))
    else (do
      p ← checked_sub index (byte_length upper)
      q ← checked_sub p 1
      fail q wrong_logical_operator)

module _ (to_uppercase : Text → Text) (cs : Text) (offset : ℕ) (sub : SubLexer) (depth : ℕ) where
  -- The case `' '`.
  unfoldable pub lopexp_blank : LopexpExpectedLexeme → LopexpState → Lexed (Flow LopexpState)
  lopexp_blank LopexpExpectedLexeme.logical_operator s =
      if is_empty s.lop then ok (continue s) else (do
        lexeme ← create_lop (to_uppercase s.lop) s.index offset
        ok (
            continue (record s {
              tokens = s.tokens ++ lexeme ∷ [];
              expected_lexeme = LopexpExpectedLexeme.expression_or_condition;
            })))
  lopexp_blank LopexpExpectedLexeme.expression_or_condition s = ok (continue s)

  -- The case `'('`: the end of the text after the expression is an error, and its `)` is read again.
  unfoldable pub lopexp_opening : LopexpState → Lexed (Flow LopexpState)
  lopexp_opening s = do
    (sub_tokens, i) ← sub (depth + 1) s.index
    j ← elim (get_elem? cs i) [
      | none ↦ fail i incomplete_expression
      | some c ↦ if c == b')' then checked_sub i 1 else ok i
    ]
    ok (continue (record s { index = j; tokens = s.tokens ++ sub_tokens }))

  -- Any other character: a letter of the operator, or the first of a condition.
  unfoldable pub lopexp_char : ℕ → LopexpExpectedLexeme → LopexpState → Lexed (Flow LopexpState)
  lopexp_char c LopexpExpectedLexeme.logical_operator s =
      ok (continue (record s { lop = s.lop ++ c ∷ [] }))
  lopexp_char c LopexpExpectedLexeme.expression_or_condition s = do
    (sub_tokens, i) ← condition_lexer_index cs offset depth s.index
    j ← after_condition cs depth i
    ok (break (record s { index = j; tokens = s.tokens ++ sub_tokens }))

  -- The body of the loop.
  unfoldable pub lopexp_step : LopexpState → Lexed (Flow LopexpState)
  lopexp_step s = elim (get_elem? cs s.index) [
    | none ↦ fail s.index empty_logical_operation
    | some c ↦
        if c == b' '
        then lopexp_blank s.expected_lexeme s
        else if c == b'('
        then lopexp_opening s
        else if c == b')'
        then ok (break s)
        else lopexp_char c s.expected_lexeme s
  ]

  unfoldable pub lopexp_loop : ℕ → LopexpState → Lexed LopexpState
  unfolding lopexp_step lopexp_blank lopexp_opening lopexp_char
  lopexp_loop zero s = out_of_fuel
  lopexp_loop (suc f) s = do
    flow ← lopexp_step s
    elim flow [ break t ↦ ok t | continue t ↦ lopexp_loop f (record t { index = t.index + 1 }) ]

  unfoldable pub lopexp_lexer_index : ℕ → Lexed (Tokens × ℕ)
  unfolding lopexp_loop
  lopexp_lexer_index i = do
    s ← lopexp_loop (length cs + 1) (record {
      index = i;
      expected_lexeme = LopexpExpectedLexeme.logical_operator;
      lop = [];
      tokens = [];
    })
    ok (s.tokens, s.index)

-- The local variables of `exp_lexer_index`, and its index.
pub record ExpressionState : Type 0 where
  pub index : ℕ
  pub expected_lexem : ExpressionExpectedLexeme
  pub tokens : Tokens

module _ (to_uppercase : Text → Text) (cs : Text) (offset : ℕ) (sub : SubLexer) (depth : ℕ) where
  -- A character that begins a condition, or an operator and what follows it.
  unfoldable pub exp_char :
      ExpressionExpectedLexeme → ExpressionState → Lexed (Flow ExpressionState)
  exp_char ExpressionExpectedLexeme.expression_or_condition s = do
    (sub_tokens, i) ← condition_lexer_index cs offset depth s.index
    j ← after_condition cs depth i
    ok (
        continue (record {
          index = j;
          expected_lexem = logical_operator_or_nothing;
          tokens = s.tokens ++ sub_tokens;
        }))
  exp_char logical_operator_or_nothing s = do
    (sub_tokens, i) ← lopexp_lexer_index to_uppercase cs offset sub depth s.index
    ok (
        continue (record {
          index = i;
          expected_lexem = logical_operator_or_nothing;
          tokens = s.tokens ++ sub_tokens;
        }))

  unfoldable pub exp_opening : ExpressionState → Lexed (Flow ExpressionState)
  exp_opening s = do
    (sub_tokens, i) ← sub (depth + 1) s.index
    ok (
        continue (record {
          index = i;
          expected_lexem = logical_operator_or_nothing;
          tokens = s.tokens ++ sub_tokens;
        }))

  -- The body of the loop, at the index that the round has moved to.
  unfoldable pub exp_step : ExpressionState → Lexed (Flow ExpressionState)
  exp_step s = elim (get_elem? cs s.index) [
    | none ↦ ok (break s)
    | some c ↦
        if c == b'('
        then exp_opening s
        else if c == b')'
        then (if depth == 0 then fail s.index invalid_logical_depth else ok (break s))
        else if c == b' '
        then ok (continue s)
        else exp_char s.expected_lexem s
  ]

  unfoldable pub exp_loop : ℕ → ExpressionState → Lexed ExpressionState
  unfolding exp_step exp_char exp_opening
  exp_loop zero s = out_of_fuel
  exp_loop (suc f) s = do
    flow ← exp_step (record s { index = s.index + 1 })
    elim flow [ break t ↦ ok t | continue t ↦ exp_loop f t ]

  -- Behind the loop: a character that is left over at the root is an error.
  unfoldable pub exp_end : ExpressionState → Lexed (Tokens × ℕ)
  exp_end s =
      if depth == 0 && ltb s.index (length cs - 1)
      then fail s.index invalid_logical_depth
      else ok (s.tokens ++ logical_close (s.index + offset) ∷ [], s.index)

  unfoldable pub exp_body : ℕ → Lexed (Tokens × ℕ)
  unfolding exp_loop exp_end
  exp_body i = do
    s ← exp_loop (length cs + 1) (record {
      index = i;
      expected_lexem = ExpressionExpectedLexeme.expression_or_condition;
      tokens = logical_open (i + offset) ∷ [];
    })
    exp_end s

-- The fuel bounds the nesting of parentheses.
unfoldable pub exp_lexer_index : (Text → Text) → ℕ → Text → ℕ → ℕ → ℕ → Lexed (Tokens × ℕ)
unfolding exp_body lopexp_lexer_index condition_lexer_index after_condition create_lop
exp_lexer_index up zero cs offset depth i = out_of_fuel
exp_lexer_index up (suc f) cs offset depth i =
    exp_body up cs offset (exp_lexer_index up f cs offset) depth i

-- What the lexer takes from elsewhere: `graphemes(true)` of the crate `unicode-segmentation`, and
-- the Unicode tables behind `to_uppercase`.
pub record Unicode : Type 0 where
  pub graphemes : Text → List Text
  pub to_uppercase : Text → Text

abbrev pub IsPrintable : Text → Type 0
IsPrintable = All (λ c. (32 ≤ c) × (c < 127))

-- Their documented behaviour on ASCII: printable characters are graphemes of their own, and the
-- upper case of an ASCII text is that of its letters.
pub record UnicodeLaws (u : Unicode) : Type 0 where
  pub graphemes-IsPrintable : (t : Text) → IsPrintable t → u.graphemes t ≡ map (λ c. c ∷ []) t
  pub to_uppercase-IsAscii : (t : Text) → IsAscii t → u.to_uppercase t ≡ map ascii_upper t

-- The first character of each grapheme that has one.
unfoldable pub first_chars : List Text → Text
first_chars [] = []
first_chars ([] ∷ gs) = first_chars gs
first_chars ((c ∷ g) ∷ gs) = c ∷ first_chars gs

-- The two root delimiters are taken off the tokens.
unfoldable pub lex3_with_offset : Unicode → Text → ℕ → Lexed Tokens
unfolding exp_lexer_index first_chars
lex3_with_offset u input offset = do
  let input_chars = first_chars (u.graphemes (b'+' ∷ input))
  (tokens, i) ← exp_lexer_index u.to_uppercase (length input_chars + 1) input_chars offset 0 0
  ok (drop_last (remove_at tokens 0))

unfoldable pub lex3 : Unicode → Text → Lexed Tokens
unfolding lex3_with_offset
lex3 u input = lex3_with_offset u input 0
