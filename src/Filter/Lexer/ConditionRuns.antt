-- ===== src/Filter/Lexer/ConditionRuns.antt =====
-- filter_lexer.rs: about the runs of `condition_lexer_index`.
use doka_one.Prelude.{
  ℕ, zero, suc, ◌+◌, ◌≤◌, ◌<◌, ◌≡◌, refl, Option, none, some, Text, length, get_elem?, ltb, ◌==◌,
  arith, ok, Ensures, holds, rejected, Ensures-if, Ensures-bind, ◌>>=◌, if◌then◌else◌,
}
use doka_one.Filter.Lexer.Grammar.{IsCondition}
use doka_one.Filter.Lexer.Pieces.{
  Lexed, ConditionExpectedLexeme, expects_attribute, expects_operator, expects_value,
  ConditionState, append_value,
}
use doka_one.Filter.Lexer.Condition.{
  Flow, continue, break, condition_blank, condition_closing, condition_char, condition_end,
  condition_step, condition_loop, condition_start, condition_lexer_index,
}
use doka_one.Filter.Lexer.ConditionPhases.{NotAscii, append_value-Ensures, append_value_nil}
use doka_one.Filter.Lexer.ConditionRounds.{
  get_elem?-lt, Inv, in_attribute, Phase, Inv-Phase, rounds, Next, Runs, condition_blank-Runs,
  condition_closing-Runs, condition_char-Runs,
}

module _ (cs : Text) (i : ℕ) (from_one : 1 ≤ i) (offset : ℕ) where
  condition_end-Runs :
      (e : ConditionExpectedLexeme) (depth : ℕ) (s : ConditionState)
      → Phase cs i e s
      → Runs cs i from_one offset s (condition_end offset depth s)
  unfolding condition_end
  condition_end-Runs e depth s h = Ensures-if (ltb 0 depth) (λ _. rejected) λ _. last e h
    where
      last :
          (e : ConditionExpectedLexeme)
          → Phase cs i e s
          → Runs cs i from_one offset s (append_value offset s >>= λ t. ok (break t))
      last expects_attribute h =
          Ensures-bind {P = λ _. ⊥} (append_value_nil cs i from_one offset s h.value_nil)
            λ t k. absurd k
      last expects_operator h =
          Ensures-bind {P = λ _. ⊥} (append_value_nil cs i from_one offset s h.value_nil)
            λ t k. absurd k
      last expects_value h =
          Ensures-bind
            (append_value-Ensures cs i from_one offset s h.has_operator
              (omega (arith, h.value_bound)) h.value_ascii)
            λ t (c, e). holds (c, omega (arith, h.moved))

  condition_step-Runs :
      (depth : ℕ) (s : ConditionState)
      → Inv cs i s
      → Runs cs i from_one offset s (condition_step cs offset depth s)
  unfolding condition_step
  condition_step-Runs depth s inv = at_char (get_elem? cs s.index) refl
    where
      h : Phase cs i s.expected_lexeme s
      h = Inv-Phase s inv

      at_char :
          (o : Option ℕ)
          → get_elem? cs s.index ≡ o
          → Runs cs i from_one offset s (elim o [
            | none ↦ condition_end offset depth s
            | some c ↦
                if c == b' '
                then condition_blank offset s.expected_lexeme s
                else if c == b')'
                then condition_closing offset s
                else condition_char offset c s.expected_lexeme s
          ])
      at_char none at = condition_end-Runs s.expected_lexeme depth s h
      at_char (some c) at =
          let lt = get_elem?-lt cs s.index at in
          Ensures-if (c == b' ')
            (λ _. condition_blank-Runs cs i from_one offset s.expected_lexeme s h lt)
            λ _.
              Ensures-if (c == b')')
                (λ _. condition_closing-Runs cs i from_one offset s.expected_lexeme s h lt)
                λ _. condition_char-Runs cs i from_one offset s.expected_lexeme s c h at

  abbrev Read : Lexed ConditionState → Type 0
  Read = Ensures (NotAscii cs) (λ t. IsCondition t.tokens × (i ≤ t.index))

  -- The loop goes on from a round's outcome.
  loop-Next :
      (f depth m : ℕ)
      → m ≤ f
      → ((t : ConditionState)
          → Inv cs i t
          → rounds cs t < f
          → Read (condition_loop f cs offset depth t))
      → (flow : Flow ConditionState) → Next cs i m flow
      → Read (elim flow [
        | break t ↦ ok t
        | continue t ↦ condition_loop f cs offset depth (record t { index = t.index + 1 })
      ])
  loop-Next f depth m le more (break t) h = holds h
  loop-Next f depth m le more (continue t) (inv, lt) =
      more (record t { index = t.index + 1 }) inv (omega arith)

  condition_loop-Runs :
      (f depth : ℕ) (s : ConditionState)
      → Inv cs i s
      → rounds cs s < f
      → Read (condition_loop f cs offset depth s)
  unfolding condition_loop
  condition_loop-Runs zero depth s inv lt = absurd (omega arith)
  condition_loop-Runs (suc f) depth s inv lt =
      Ensures-bind (condition_step-Runs depth s inv)
        (loop-Next f depth (rounds cs s) (omega arith) (λ t. condition_loop-Runs f depth t))

-- The lexer of a condition, started behind the first character.
pub condition_lexer_index-Ensures :
    (cs : Text) (i : ℕ) (offset depth : ℕ)
    → 1 ≤ i
    → Ensures
        (NotAscii cs)
        (λ (toks, j). IsCondition toks × (i ≤ j))
        (condition_lexer_index cs offset depth i)
unfolding condition_lexer_index
condition_lexer_index-Ensures cs i offset depth one =
    Ensures-bind
      (condition_loop-Runs cs i one offset (length cs + 4) depth (condition_start i) start
        (unfold condition_start in omega arith))
      λ t h. holds h
  where
    start : Inv cs i (condition_start i)
    start = in_attribute (record {
      expected = refl;
      tokens_nil = refl;
      value_nil = refl;
      fop_nil = refl;
      no_text = refl;
      attr_bound = omega arith;
    })
