-- ===== src/Filter/Ast/ParserTotal.antt =====
-- filter_ast.rs: about the end of `parse_tokens`.
use doka_one.Prelude.{
  ℕ, zero, suc, ◌+◌, ◌-◌, ◌≤◌, ◌<◌, ◌≡◌, ◌≢◌, refl, Option, some, Text, length, get_elem?, arith,
  panic, out_of_fuel, Ensures, holds, rejected, Ensures-bind, Ensures-ne-out_of_fuel,
  Ensures-ne-panic,
}
use doka_one.Filter.Token.{
  Token, Tokens, attribute, operator, value_int, value_string, value_bool, binary_logical_operator,
  condition_open, logical_open, logical_close, opening_expected,
}
use doka_one.Filter.Lexer.Pieces.{Lexed, fail}
use doka_one.Filter.Lexer.ConditionRounds.{get_elem?-lt}
use doka_one.Filter.Ast.Tree.{FilterExpressionAst}
use doka_one.Filter.Ast.Denotes.{IsValueOf}
use doka_one.Filter.Ast.Parser.{
  Cursor, advance, SubParser, expect_attribute, expect_operator, expect_value, parse_condition,
  expect_logical_operator, expect_closing, expect_opening, parse_logical, parse_tokens_with_index,
  parse_tokens,
}

-- A value or an error.
abbrev Total : {A : Type 0} → Lexed A → Type 0
Total = Ensures ⊥ (λ a. Unit)

-- The index never moves back.
abbrev Moves : Cursor → Lexed (FilterExpressionAst × Cursor) → Type 0
Moves s = Ensures ⊥ (λ (tree, t). s.index ≤ t.index)

module _ (i : ℕ) where
  pub expect_attribute-reads :
      (o : Option Token)
      → Ensures ⊥ (λ a. (p : ℕ) × (o ≡ some (attribute a p))) (expect_attribute i o)
  unfolding expect_attribute
  expect_attribute-reads (some (attribute a p)) = holds (p, refl)
  expect_attribute-reads _ = rejected

  pub expect_operator-reads :
      (o : Option Token)
      → Ensures ⊥ (λ a. (p : ℕ) × (o ≡ some (operator a p))) (expect_operator i o)
  unfolding expect_operator
  expect_operator-reads (some (operator a p)) = holds (p, refl)
  expect_operator-reads _ = rejected

  pub expect_value-reads :
      (o : Option Token)
      → Ensures ⊥ (λ v. (t : Token) × (o ≡ some t) × IsValueOf t v) (expect_value i o)
  unfolding expect_value
  expect_value-reads (some (value_int a p)) = holds (value_int a p, refl, refl)
  expect_value-reads (some (value_string a p)) = holds (value_string a p, refl, refl)
  expect_value-reads (some (value_bool a p)) = holds (value_bool a p, refl, refl)
  expect_value-reads _ = rejected

  pub expect_logical_operator-reads :
      (o : Option Token)
      → Ensures ⊥
          (λ a. (p : ℕ) × (o ≡ some (binary_logical_operator a p)))
          (expect_logical_operator i o)
  unfolding expect_logical_operator
  expect_logical_operator-reads (some (binary_logical_operator a p)) = holds (p, refl)
  expect_logical_operator-reads _ = rejected

  pub expect_closing-reads :
      (o : Option Token)
      → Ensures ⊥ (λ _. (p : ℕ) × (o ≡ some (logical_close p))) (expect_closing i o)
  unfolding expect_closing
  expect_closing-reads (some (logical_close p)) = holds (p, refl)
  expect_closing-reads _ = rejected

  pub expect_opening-Total : (o : Option Token) → Total (expect_opening i o)
  unfolding expect_opening
  expect_opening-Total (some (condition_open p)) = holds tt
  expect_opening-Total (some (logical_open p)) = holds tt
  expect_opening-Total _ = rejected

module _ (uuid8 : ℕ → Text) (tokens : Tokens) where
  parse_condition-Moves : (s : Cursor) → Moves s (parse_condition uuid8 tokens s)
  unfolding parse_condition
  parse_condition-Moves s =
      Ensures-bind (expect_attribute-reads (s.index + 1) (get_elem? tokens (s.index + 1))) λ a _.
        Ensures-bind (expect_operator-reads (s.index + 2) (get_elem? tokens (s.index + 2))) λ o _.
          Ensures-bind (expect_value-reads (s.index + 3) (get_elem? tokens (s.index + 3)))
            λ v _. holds (omega arith)

  parse_logical-Moves :
      (sub : SubParser) (s : Cursor)
      → ((t : Cursor) → s.index < t.index → Moves t (sub t))
      → Moves s (parse_logical tokens sub s)
  unfolding parse_logical
  parse_logical-Moves sub s runs =
      Ensures-bind (expect_opening-Total (s.index + 1) (get_elem? tokens (s.index + 1))) λ _ _.
        Ensures-bind (runs (advance s) (omega arith)) λ (left, l) le.
          Ensures-bind
            (expect_logical_operator-reads (l.index + 1) (get_elem? tokens (l.index + 1)))
            λ o _. Ensures-bind (runs (advance (advance l)) (omega arith)) λ (right, r) le'.
              Ensures-bind (expect_closing-reads (r.index + 1) (get_elem? tokens (r.index + 1)))
                λ _ _. holds (omega arith)

  -- The fuel is enough where it exceeds the number of tokens that are left.
  parse_tokens_with_index-Moves :
      (f : ℕ) (s : Cursor)
      → length tokens - s.index < f
      → Moves s (parse_tokens_with_index f uuid8 tokens s)
  unfolding parse_tokens_with_index
  parse_tokens_with_index-Moves zero s h = absurd (omega arith)
  parse_tokens_with_index-Moves (suc f) s h =
      found (λ t. parse_tokens_with_index-Moves f t) (get_elem? tokens s.index)
        (λ t e. get_elem?-lt tokens s.index e)
    where
      found :
          ((t : Cursor)
            → length tokens - t.index < f
            → Moves t (parse_tokens_with_index f uuid8 tokens t))
          → (o : Option Token) → ((t : Token) → o ≡ some t → s.index < length tokens)
          → Moves s (elim o [
            | some (logical_open p) ↦
                parse_logical tokens (parse_tokens_with_index f uuid8 tokens) s
            | some (condition_open p) ↦ parse_condition uuid8 tokens s
            | _ ↦ fail s.index opening_expected
          ])
      found runs (some (logical_open p)) lt =
          let here : s.index < length tokens = lt _ refl in
          parse_logical-Moves (parse_tokens_with_index f uuid8 tokens) s
            (λ t le. runs t (omega (arith, here)))
      found runs (some (condition_open p)) lt = parse_condition-Moves s
      found runs _ lt = rejected

parse_tokens-Total : (uuid8 : ℕ → Text) (tokens : Tokens) → Total (parse_tokens uuid8 tokens)
unfolding parse_tokens
parse_tokens-Total uuid8 tokens =
    Ensures-bind
      (parse_tokens_with_index-Moves uuid8 tokens (length tokens + 1)
        (record { index = 0; keys = 0 }) (omega arith))
      λ (tree, s) _. holds tt

-- On any tokens the parser ends, and it does not panic: it returns a tree or an error.
pub parse_tokens-ends :
    (uuid8 : ℕ → Text) (tokens : Tokens)
    → (parse_tokens uuid8 tokens ≢ out_of_fuel) × (parse_tokens uuid8 tokens ≢ panic)
parse_tokens-ends uuid8 tokens =
    let total = parse_tokens-Total uuid8 tokens in
    (Ensures-ne-out_of_fuel total, Ensures-ne-panic (λ q. q) total)
