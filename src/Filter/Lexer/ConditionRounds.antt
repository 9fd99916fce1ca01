-- ===== src/Filter/Lexer/ConditionRounds.antt =====
-- filter_lexer.rs: one round of the loop of `condition_lexer_index`, case by case.
use doka_one.Prelude.{
  ℕ, zero, suc, ◌+◌, ◌-◌, ◌≤◌, ◌<◌, ◌≡◌, refl, sym, subst, ◌∙◌, true, false, not, some, List, [],
  ◌∷◌, ◌++◌, Text, IsAscii, All-append, length, length-append, is_empty, get_elem?, ◌==◌, arith,
  Ensures, holds, rejected, Ensures-if, Ensures-bind, checked_sub-Ensures,
}
use doka_one.Filter.Lexer.Grammar.{IsCondition}
use doka_one.Filter.Lexer.Pieces.{
  Lexed, ConditionExpectedLexeme, expects_attribute, expects_operator, expects_value,
  ConditionState, list_of_fop, is_valid_char_attribute, starts_some_fop,
  find_possible_operator_with,
}
use doka_one.Filter.Lexer.Condition.{
  Flow, continue, break, step_back, condition_blank, condition_closing, condition_quote,
  condition_char,
}
use doka_one.Filter.Lexer.ConditionPhases.{
  AttributePhase, OperatorPhase, ValuePhase, NotAscii, append_attribute-Ensures, append_fop-Ensures,
  append_value-Ensures, append_value_nil,
}

pub get_elem?-IsAscii : (cs : Text) (i : ℕ) (c : ℕ) → IsAscii cs → get_elem? cs i ≡ some c → c < 128
get_elem?-IsAscii [] i c h e = cc
get_elem?-IsAscii (d ∷ cs) zero c (k, h) e = ground arith
get_elem?-IsAscii (d ∷ cs) (suc i) c (k, h) e = get_elem?-IsAscii cs i c h e

pub get_elem?-lt {ℓ} :
    {A : Type ℓ} (xs : List A) (i : ℕ) {a : A} → get_elem? xs i ≡ some a → i < length xs
get_elem?-lt [] i e = cc
get_elem?-lt (x ∷ xs) zero e = omega arith
get_elem?-lt (x ∷ xs) (suc i) e = omega (arith, get_elem?-lt xs i e)

-- The invariant of the loop.
pub data Inv (cs : Text) (i : ℕ) (s : ConditionState) : Type 0 where
  in_attribute : AttributePhase i s → Inv cs i s
  in_operator : OperatorPhase cs i s → Inv cs i s
  in_value : ValuePhase cs i s → Inv cs i s

abbrev pub Phase : Text → ℕ → ConditionExpectedLexeme → ConditionState → Type 0
Phase cs i expects_attribute s = AttributePhase i s
Phase cs i expects_operator s = OperatorPhase cs i s
Phase cs i expects_value s = ValuePhase cs i s

pub Inv-Phase :
    {cs : Text} {i : ℕ} (s : ConditionState) → Inv cs i s → Phase cs i s.expected_lexeme s
Inv-Phase {cs} {i} s (in_attribute h) = subst (λ e. Phase cs i e s) (sym h.expected) h
Inv-Phase {cs} {i} s (in_operator h) = subst (λ e. Phase cs i e s) (sym h.expected) h
Inv-Phase {cs} {i} s (in_value h) = subst (λ e. Phase cs i e s) (sym h.expected) h

abbrev pub rank : ConditionExpectedLexeme → ℕ
rank expects_attribute = 2
rank expects_operator = 1
rank expects_value = 0

-- What bounds the rounds that are left.
abbrev pub rounds : Text → ConditionState → ℕ
rounds cs s = (length cs - s.index) + rank s.expected_lexeme

abbrev pub Next : Text → ℕ → ℕ → Flow ConditionState → Type 0
Next cs i m (continue t) =
    let u = record t { index = t.index + 1 } in Inv cs i u × (rounds cs u < m)
Next cs i m (break t) = IsCondition t.tokens × (i ≤ t.index)

module _ (cs : Text) (i : ℕ) (from_one : 1 ≤ i) (offset : ℕ) where
  abbrev pub Runs : ConditionState → Lexed (Flow ConditionState) → Type 0
  Runs s = Ensures (NotAscii cs) (Next cs i (rounds cs s))

  step_back-Ensures :
      {Q : Type 0} (s : ConditionState)
      → 1 ≤ s.index
      → Ensures Q (λ t. t ≡ record s { index = s.index - 1 }) (step_back s)
  unfolding step_back
  step_back-Ensures s h =
      Ensures-bind (checked_sub-Ensures s.index 1 (λ lt. absurd (omega arith)))
        λ j hj. holds (rw (hj.0) refl)

  -- A value phase, one character on.
  value-continue :
      (s t : ConditionState)
      → ValuePhase cs i s
      → s.index < length cs
      → t.expected_lexeme ≡ expects_value
      → t.tokens ≡ s.tokens
      → t.index ≡ s.index
      → length t.value ≤ length s.value + 1
      → (IsAscii cs → IsAscii t.value)
      → Next cs i (rounds cs s) (continue t)
  value-continue s t h lt e e' e'' le ascii = (
    in_value (record {
      expected = e;
      has_operator = let (a, o, p, q, k) = h.has_operator in (a, o, p, q, e' ∙ k);
      moved = omega (arith, h.moved);
      value_bound = omega (arith, h.value_bound);
      value_ascii = ascii;
    }),
    rw (e, e'', h.expected) (omega arith),
  )

  operator-continue :
      (s t : ConditionState)
      → OperatorPhase cs i t
      → t.index ≡ s.index
      → s.expected_lexeme ≡ expects_attribute
      → s.index < length cs
      → Next cs i (rounds cs s) (continue t)
  operator-continue s t k e a lt = (
    in_operator (record {
      expected = k.expected;
      has_attribute = k.has_attribute;
      value_nil = k.value_nil;
      no_text = k.no_text;
      moved = omega (arith, k.moved);
      fop_bound = omega (arith, k.fop_bound);
      fop_ascii = k.fop_ascii;
    }),
    rw (k.expected, e, a) (omega arith),
  )

  -- The same where the index steps back, and the phase alone falls.
  back-continue :
      (s t : ConditionState)
      → Inv cs i t
      → t.index ≡ s.index
      → 1 ≤ s.index
      → rank t.expected_lexeme < rank s.expected_lexeme
      → Next cs i (rounds cs s) (continue (record t { index = t.index - 1 }))
  back-continue s t k e one lt =
      let back : t.index - 1 + 1 ≡ t.index = omega arith in
      (subst (λ n. Inv cs i (record t { index = n })) (sym back) k, rw (back, e) (omega arith))

  pub condition_blank-Runs :
      (e : ConditionExpectedLexeme) (s : ConditionState)
      → Phase cs i e s
      → s.index < length cs
      → Runs s (condition_blank offset e s)
  unfolding condition_blank
  condition_blank-Runs expects_attribute s h lt =
      Ensures-bind (append_attribute-Ensures cs i from_one offset s h)
        λ t (k, e, _). holds (operator-continue s t k e h.expected lt)
  condition_blank-Runs expects_operator s h lt =
      Ensures-bind (append_fop-Ensures cs i from_one offset s h) λ t (k, e, _, v). holds (
        in_value (record {
          expected = k.expected;
          has_operator = k.has_operator;
          moved = omega (arith, k.moved);
          value_bound = omega (arith, k.value_bound);
          value_ascii = k.value_ascii;
        }),
        rw (k.expected, e, h.expected) (omega arith),
      )
  condition_blank-Runs expects_value s h lt =
      Ensures-if s.text_mode
        (λ _. holds (
          value-continue s (record s { value = s.value ++ b' ' ∷ [] }) h lt h.expected refl refl
            (omega (arith, length-append {0} s.value (b' ' ∷ [])))
            (λ a. All-append _ s.value (b' ' ∷ []) (h.value_ascii a) (omega arith))))
        λ _.
          Ensures-if (is_empty s.value)
            (λ _. holds (value-continue s s h lt h.expected refl refl (omega arith) h.value_ascii))
            λ _.
              Ensures-bind
                (append_value-Ensures cs i from_one offset s h.has_operator
                  (omega (arith, h.value_bound)) h.value_ascii)
                λ t (c, e). holds (c, omega (arith, h.moved))

  -- Without a value there is nothing to end.
  no_value :
      (s : ConditionState)
      → s.text_mode ≡ false
      → s.value ≡ []
      → Runs s (condition_closing offset s)
  unfolding condition_closing
  no_value s n v =
      Ensures-if s.text_mode (λ e. cc)
        λ _. Ensures-bind {P = λ _. ⊥} (append_value_nil cs i from_one offset s v) λ t k. absurd k

  pub condition_closing-Runs :
      (e : ConditionExpectedLexeme) (s : ConditionState)
      → Phase cs i e s
      → s.index < length cs
      → Runs s (condition_closing offset s)
  unfolding condition_closing
  condition_closing-Runs expects_attribute s h lt = no_value s h.no_text h.value_nil
  condition_closing-Runs expects_operator s h lt = no_value s h.no_text h.value_nil
  condition_closing-Runs expects_value s h lt =
      Ensures-if s.text_mode
        (λ _.
          Ensures-bind
            (checked_sub-Ensures s.index (length s.value)
              (λ k. absurd (omega (arith, h.value_bound))))
            λ p hp. rejected)
        λ _.
          Ensures-bind
            (append_value-Ensures cs i from_one offset s h.has_operator
              (omega (arith, h.value_bound)) h.value_ascii)
            λ t (c, e).
              Ensures-bind (step_back-Ensures t (omega (arith, h.moved)))
                λ u k. holds (rw k c, rw k (omega (arith, h.moved)))

  char_lem :
      (s : ConditionState) {c : ℕ} (t : Text)
      → get_elem? cs s.index ≡ some c
      → (IsAscii cs → IsAscii t)
      → IsAscii cs
      → IsAscii (t ++ c ∷ [])
  char_lem s {c} t at h a = All-append _ t (c ∷ []) (h a) (get_elem?-IsAscii cs s.index c a at, tt)

  condition_quote-Runs :
      (s : ConditionState) (c : ℕ)
      → ValuePhase cs i s
      → get_elem? cs s.index ≡ some c
      → Runs s (condition_quote offset (record s { value = s.value ++ c ∷ [] }))
  unfolding condition_quote
  condition_quote-Runs s c h at =
      let longer = length-append {0} s.value (c ∷ []) in
      Ensures-if s.text_mode
        (λ _.
          Ensures-bind
            (append_value-Ensures cs i from_one offset
              (record s { value = s.value ++ c ∷ []; text_mode = false }) h.has_operator
              (omega (arith, longer, h.value_bound)) (char_lem s s.value at h.value_ascii))
            λ t (k, e). holds (k, omega (arith, h.moved)))
        λ _. holds (
          value-continue s (record s { value = s.value ++ c ∷ []; text_mode = true }) h
            (get_elem?-lt cs s.index at) h.expected refl refl (omega (arith, longer))
            (char_lem s s.value at h.value_ascii))

  pub condition_char-Runs :
      (e : ConditionExpectedLexeme) (s : ConditionState) (c : ℕ)
      → Phase cs i e s
      → get_elem? cs s.index ≡ some c
      → Runs s (condition_char offset c e s)
  unfolding condition_char
  condition_char-Runs expects_attribute s c h at =
      let lt = get_elem?-lt cs s.index at in
      Ensures-if (is_valid_char_attribute c)
        (λ _. holds (
          in_attribute (record {
            expected = h.expected;
            tokens_nil = h.tokens_nil;
            value_nil = h.value_nil;
            fop_nil = h.fop_nil;
            no_text = h.no_text;
            attr_bound = omega (arith, length-append {0} s.attr (c ∷ []), h.attr_bound);
          }),
          omega arith,
        ))
        λ _.
          Ensures-if (not (starts_some_fop c)) (λ _. rejected)
            λ _. Ensures-bind (append_attribute-Ensures cs i from_one offset s h) λ t (k, e, _).
              Ensures-bind (step_back-Ensures t (omega (arith, k.moved))) λ u hu. holds (
                rw hu (
                  back-continue s t (in_operator k) e (omega (arith, k.moved))
                    (rw (k.expected, h.expected) (omega arith))))
  condition_char-Runs expects_operator s c h at =
      let lt = get_elem?-lt cs s.index at in
      Ensures-if (find_possible_operator_with c s.fop list_of_fop)
        (λ _. holds (
          in_operator (record {
            expected = h.expected;
            has_attribute = h.has_attribute;
            value_nil = h.value_nil;
            no_text = h.no_text;
            moved = omega (arith, h.moved);
            fop_bound = omega (arith, length-append {0} s.fop (c ∷ []), h.fop_bound);
            fop_ascii = char_lem s s.fop at h.fop_ascii;
          }),
          omega arith,
        ))
        λ _. Ensures-bind (append_fop-Ensures cs i from_one offset s h) λ t (k, e, _, _).
          Ensures-bind (step_back-Ensures t (omega (arith, k.moved))) λ u hu. holds (
            rw hu (
              back-continue s t (in_value k) e (omega (arith, k.moved))
                (rw (k.expected, h.expected) (omega arith))))
  condition_char-Runs expects_value s c h at =
      Ensures-if (c == b'"') (λ _. condition_quote-Runs s c h at)
        λ _. holds (
          value-continue s (record s { value = s.value ++ c ∷ [] }) h (get_elem?-lt cs s.index at)
            h.expected refl refl (omega (arith, length-append {0} s.value (c ∷ [])))
            (char_lem s s.value at h.value_ascii))
