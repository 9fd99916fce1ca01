-- ===== src/Filter/Lexer/ExpressionRuns.antt =====
-- filter_lexer.rs: about the runs of `exp_lexer_index`.
use doka_one.Prelude.{
  ℕ, zero, suc, ◌+◌, ◌-◌, ◌≤◌, ◌<◌, ◌≡◌, refl, false, ◌&&◌, Option, none, some, [], ◌∷◌, ◌++◌, Text,
  length, get_elem?, ltb, ◌==◌, arith, ok, Ensures, holds, rejected, Ensures-if, Ensures-bind,
  if◌then◌else◌,
}
use doka_one.Filter.Token.{Tokens, logical_open, invalid_logical_depth}
use doka_one.Filter.Lexer.Grammar.{
  IsItems, none, IsItems-append, IsGroup, grouped, IsGroup-IsItems, IsCondition-IsItems,
}
use doka_one.Filter.Lexer.Pieces.{Lexed, fail}
use doka_one.Filter.Lexer.Condition.{Flow, continue, break}
use doka_one.Filter.Lexer.ConditionPhases.{NotAscii}
use doka_one.Filter.Lexer.ConditionRounds.{get_elem?-lt}
use doka_one.Filter.Lexer.ConditionRuns.{condition_lexer_index-Ensures}
use doka_one.Filter.Lexer.LopexpPieces.{UppercaseLaw, SubRuns, after_condition-Ensures}
use doka_one.Filter.Lexer.LopexpRuns.{lopexp_lexer_index-Ensures}
use doka_one.Filter.Lexer.Expression.{
  SubLexer, ExpressionExpectedLexeme, logical_operator_or_nothing, ExpressionState, exp_char,
  exp_opening, exp_step, exp_loop, exp_end, exp_body, exp_lexer_index,
}

module _ (up : Text → Text) (law : UppercaseLaw up) (cs : Text) (offset f : ℕ) (sub : SubLexer)
    (sub_runs : SubRuns cs f sub) (depth start : ℕ) (in_reach : length cs - start ≤ f) where
  -- The tokens are an opening and what has been read behind it.
  abbrev HasOpening : Tokens → Type 0
  HasOpening ts = (xs : Tokens) × IsItems xs × (ts ≡ logical_open (start + offset) ∷ xs)

  abbrev ExpNext : ℕ → Flow ExpressionState → Type 0
  ExpNext m (continue t) = HasOpening t.tokens × (m ≤ t.index) × (m < length cs)
  ExpNext m (break t) = HasOpening t.tokens × (m ≤ t.index)

  abbrev ExpRuns : ExpressionState → Lexed (Flow ExpressionState) → Type 0
  ExpRuns s = Ensures (NotAscii cs) (ExpNext s.index)

  grown : {ts us : Tokens} → HasOpening ts → IsItems us → HasOpening (ts ++ us)
  grown {us = us} (xs, h, e) k = (xs ++ us, IsItems-append h k, rw e refl)

  exp_char-Runs :
      (c : ℕ) (e : ExpressionExpectedLexeme) (s : ExpressionState)
      → get_elem? cs s.index ≡ some c
      → (c == b')') ≡ false
      → start < s.index
      → HasOpening s.tokens
      → ExpRuns s (exp_char up cs offset sub depth e s)
  unfolding exp_char
  exp_char-Runs c ExpressionExpectedLexeme.expression_or_condition s at other lt h =
      Ensures-bind (condition_lexer_index-Ensures cs s.index offset depth (omega arith))
        λ (toks, i) (k, le).
          Ensures-bind (after_condition-Ensures cs depth s.index i (omega arith) le at other)
            λ j le'. holds (grown h (IsCondition-IsItems k), le', get_elem?-lt cs s.index at)
  exp_char-Runs c logical_operator_or_nothing s at other lt h =
      Ensures-bind
        (lopexp_lexer_index-Ensures up law cs offset f sub sub_runs depth s.index (omega arith)
          (omega (arith, get_elem?-lt cs s.index at)))
        λ (toks, i) (k, le). holds (grown h k, le, get_elem?-lt cs s.index at)

  exp_opening-Runs :
      (s : ExpressionState)
      → s.index < length cs
      → start < s.index
      → HasOpening s.tokens
      → ExpRuns s (exp_opening up cs offset sub depth s)
  unfolding exp_opening
  exp_opening-Runs s lt moved h =
      Ensures-bind (sub_runs (depth + 1) s.index (omega arith))
        λ (toks, i) (g, le). holds (grown h (IsGroup-IsItems g), omega arith, lt)

  exp_step-Runs :
      (s : ExpressionState)
      → start < s.index
      → HasOpening s.tokens
      → ExpRuns s (exp_step up cs offset sub depth s)
  unfolding exp_step
  exp_step-Runs s moved h = at_char (get_elem? cs s.index) refl
    where
      at_char :
          (o : Option ℕ)
          → get_elem? cs s.index ≡ o
          → ExpRuns s (elim o [
            | none ↦ ok (break s)
            | some c ↦
                if c == b'('
                then exp_opening up cs offset sub depth s
                else if c == b')'
                then (if depth == 0 then fail s.index invalid_logical_depth else ok (break s))
                else if c == b' '
                then ok (continue s)
                else exp_char up cs offset sub depth s.expected_lexem s
          ])
      at_char none at = holds (h, omega arith)
      at_char (some c) at =
          let lt = get_elem?-lt cs s.index at in
          Ensures-if (c == b'(') (λ _. exp_opening-Runs s lt moved h)
            λ _.
              Ensures-if (c == b')')
                (λ _. Ensures-if (depth == 0) (λ _. rejected) (λ _. holds (h, omega arith)))
                λ other.
                  Ensures-if (c == b' ') (λ _. holds (h, omega arith, lt))
                    λ _. exp_char-Runs c s.expected_lexem s at other moved h

  abbrev ExpRead : Lexed ExpressionState → Type 0
  ExpRead = Ensures (NotAscii cs) (λ t. HasOpening t.tokens × (start < t.index))

  exp_next :
      (g m : ℕ)
      → start < m
      → (m < length cs → length cs - m < g)
      → ((t : ExpressionState)
          → HasOpening t.tokens
          → start ≤ t.index
          → length cs - t.index < g
          → ExpRead (exp_loop up cs offset sub depth g t))
      → (flow : Flow ExpressionState) → ExpNext m flow
      → ExpRead (elim flow [ break t ↦ ok t | continue t ↦ exp_loop up cs offset sub depth g t ])
  exp_next g m lt reach more (break t) (h, le) = holds (h, omega arith)
  exp_next g m lt reach more (continue t) (h, le, k) =
      more t h (omega arith) (omega (arith, reach k))

  exp_loop-Runs :
      (g : ℕ) (s : ExpressionState)
      → HasOpening s.tokens
      → start ≤ s.index
      → length cs - s.index < g
      → ExpRead (exp_loop up cs offset sub depth g s)
  unfolding exp_loop
  exp_loop-Runs zero s h le lt = absurd (omega arith)
  exp_loop-Runs (suc g) s h le lt =
      Ensures-bind (exp_step-Runs (record s { index = s.index + 1 }) (omega arith) h)
        (exp_next g (s.index + 1) (omega arith) (λ k. omega arith) (λ t. exp_loop-Runs g t))

  exp_body-Ensures :
      Ensures
        (NotAscii cs)
        (λ (toks, j). IsGroup toks × (start < j))
        (exp_body up cs offset sub depth start)
  unfolding exp_body exp_end
  exp_body-Ensures =
      Ensures-bind (exp_loop-Runs (length cs + 1) _ ([], none, refl) (omega arith) (omega arith))
        λ s ((xs, h, e), lt).
          Ensures-if (depth == 0 && ltb s.index (length cs - 1)) (λ _. rejected)
            λ _. holds (grouped (start + offset) (s.index + offset) h (rw e refl), lt)

pub exp_lexer_index-Ensures :
    (up : Text → Text) (f : ℕ) (cs : Text) (offset depth i : ℕ)
    → UppercaseLaw up
    → length cs - i < f
    → Ensures
        (NotAscii cs)
        (λ (toks, j). IsGroup toks × (i < j))
        (exp_lexer_index up f cs offset depth i)
unfolding exp_lexer_index
exp_lexer_index-Ensures up zero cs offset depth i law lt = absurd (omega arith)
exp_lexer_index-Ensures up (suc f) cs offset depth i law lt =
    exp_body-Ensures up law cs offset f (exp_lexer_index up f cs offset)
      (λ d j reach. exp_lexer_index-Ensures up f cs offset d j law reach) depth i (omega arith)
