-- ===== src/Filter/Lexer/ConditionPhases.antt =====
-- filter_lexer.rs: what the `append_…` helpers do to the three phases of a condition: reading the
-- attribute, the operator, and the value.
use doka_one.Prelude.{
  ℕ, zero, suc, ◌+◌, ◌≤◌, ◌<◌, ◌≡◌, refl, ap, true, false, Option, none, some, List, [], ◌∷◌, Text,
  IsAscii, length, byte_length, byte_length-IsAscii, trim_matches, trim_start, reverse, codes,
  text_eq_iff, starts_with, text_eq, is_empty, get_elem?, arith, ok, Ensures, holds, rejected,
  Ensures-if, Ensures-bind, checked_sub-Ensures,
}
use mathlib.Core.List.{reverse_aux}
use doka_one.Prelude.Int.{ℤ}
use doka_one.Filter.Token.{
  Tokens, attribute, operator, value_int, ComparisonOperator, unknown_filter_operator,
  wrong_numeric_value,
}
use doka_one.Filter.Lexer.Grammar.{IsValue, IsCondition, triple}
use doka_one.Filter.Lexer.Pieces.{
  fail, expects_attribute, expects_operator, expects_value, ConditionState, fop_of, create_fop,
  append_fop, append_attribute, create_value, append_value,
}
use doka_one.Filter.Number.{parse_i32}

pub get_elem?-IsAscii : (cs : Text) (i : ℕ) (c : ℕ) → IsAscii cs → get_elem? cs i ≡ some c → c < 128
get_elem?-IsAscii [] i c h e = cc
get_elem?-IsAscii (d ∷ cs) zero c (k, h) e = ground arith
get_elem?-IsAscii (d ∷ cs) (suc i) c (k, h) e = get_elem?-IsAscii cs i c h e

pub get_elem?-lt {ℓ} :
    {A : Type ℓ} (xs : List A) (i : ℕ) {a : A} → get_elem? xs i ≡ some a → i < length xs
get_elem?-lt [] i e = cc
get_elem?-lt (x ∷ xs) zero e = omega arith
get_elem?-lt (x ∷ xs) (suc i) e = omega (arith, get_elem?-lt xs i e)

length-trim_start : (q : ℕ) (s : Text) → length (trim_start q s) ≤ length s
unfolding trim_start
length-trim_start q [] = omega arith
length-trim_start q (c ∷ s) = ground (arith, length-trim_start q s)

length-reverse_aux : (s r : Text) → length (reverse_aux s r) ≡ length s + length r
length-reverse_aux [] r = omega arith
length-reverse_aux (c ∷ s) r = omega (arith, length-reverse_aux s (c ∷ r))

length-reverse : (s : Text) → length (reverse s) ≡ length s
length-reverse s = omega (arith, length-reverse_aux s [])

pub length-trim_matches : (q : ℕ) (s : Text) → length (trim_matches q s) ≤ length s
unfolding trim_matches
length-trim_matches q s =
    let front = trim_start q s in
    let back = trim_start q (reverse front) in
    omega (
      arith,
      length-reverse back,
      length-trim_start q (reverse front),
      length-reverse front,
      length-trim_start q s,
    )

abbrev pub HasAttribute : Tokens → Type 0
HasAttribute ts = (a : Text) × (p : ℕ) × (ts ≡ attribute a p ∷ [])

abbrev pub HasOperator : Tokens → Type 0
HasOperator ts =
    (a : Text) × (o : ComparisonOperator) × (p : ℕ) × (q : ℕ) × (ts
      ≡ attribute a p ∷ operator o q ∷ [])

-- `i` is where the condition begins.
pub record AttributePhase (i : ℕ) (s : ConditionState) : Type 0 where
  pub expected : s.expected_lexeme ≡ expects_attribute
  pub tokens_nil : s.tokens ≡ []
  pub value_nil : s.value ≡ []
  pub fop_nil : s.fop ≡ []
  pub no_text : s.text_mode ≡ false
  pub attr_bound : length s.attr + i ≤ s.index

pub record OperatorPhase (cs : Text) (i : ℕ) (s : ConditionState) : Type 0 where
  pub expected : s.expected_lexeme ≡ expects_operator
  pub has_attribute : HasAttribute s.tokens
  pub value_nil : s.value ≡ []
  pub no_text : s.text_mode ≡ false
  pub moved : i < s.index
  pub fop_bound : length s.fop + i ≤ s.index
  pub fop_ascii : IsAscii cs → IsAscii s.fop

pub record ValuePhase (cs : Text) (i : ℕ) (s : ConditionState) : Type 0 where
  pub expected : s.expected_lexeme ≡ expects_value
  pub has_operator : HasOperator s.tokens
  pub moved : i < s.index
  pub value_bound : length s.value + i ≤ s.index
  pub value_ascii : IsAscii cs → IsAscii s.value

abbrev pub NotAscii : Text → Type 0
NotAscii cs = ¬ (IsAscii cs)

module _ (cs : Text) (i : ℕ) (from_one : 1 ≤ i) (offset : ℕ) (s : ConditionState) where
  pub append_attribute-Ensures :
      AttributePhase i s
      → Ensures
          (NotAscii cs)
          (λ t. OperatorPhase cs i t × (t.index ≡ s.index) × (t.value ≡ []))
          (append_attribute offset s)
  unfolding append_attribute
  append_attribute-Ensures h =
      Ensures-if (is_empty s.attr) (λ e. rejected)
        λ e.
          Ensures-bind
            (checked_sub-Ensures (s.index + offset) (length s.attr)
              (λ lt. absurd (omega (arith, h.attr_bound))))
            λ p hp. holds (
              record {
                expected = refl;
                has_attribute = (s.attr, p, rw h.tokens_nil);
                value_nil = h.value_nil;
                no_text = h.no_text;
                moved = moved_lem s.attr e h.attr_bound;
                fop_bound = rw h.fop_nil (omega (arith, h.attr_bound));
                fop_ascii = λ a. rw h.fop_nil tt;
              },
              refl,
              h.value_nil,
            )
    where
      moved_lem : (t : Text) → is_empty t ≡ false → length t + i ≤ s.index → i < s.index
      moved_lem [] e k = cc
      moved_lem (c ∷ t) e k = omega arith

  pub append_fop-Ensures :
      OperatorPhase cs i s
      → Ensures
          (NotAscii cs)
          (λ t. ValuePhase cs i t × (t.index ≡ s.index) × (t.text_mode ≡ false) × (t.value ≡ []))
          (append_fop offset s)
  unfolding append_fop create_fop
  append_fop-Ensures h =
      let (a, p, e) = h.has_attribute in
      Ensures-bind {P = λ lexeme. (o : ComparisonOperator) × (q : ℕ) × (lexeme ≡ operator o q)}
        (Ensures-bind (checked_sub-Ensures s.index (byte_length s.fop) not_short)
          λ at hat. made at (fop_of s.fop))
        λ lexeme (o, q, k). holds (
          record {
            expected = refl;
            has_operator = (a, o, p, q, rw (e, k) refl);
            moved = h.moved;
            value_bound = rw h.value_nil (omega (arith, h.moved));
            value_ascii = λ b. rw h.value_nil tt;
          },
          refl,
          h.no_text,
          h.value_nil,
        )
    where
      not_short : s.index < byte_length s.fop → NotAscii cs
      not_short lt ascii =
          absurd (omega (arith, byte_length-IsAscii s.fop (h.fop_ascii ascii), h.fop_bound))

      made :
          (at : ℕ) (found : Option ComparisonOperator)
          → Ensures
              (NotAscii cs)
              (λ lexeme. (o : ComparisonOperator) × (q : ℕ) × (lexeme ≡ operator o q))
              (elim found [
                | none ↦ fail (at + offset) unknown_filter_operator
                | some o ↦ ok (operator o (at + offset))
              ])
      made at none = rejected
      made at (some o) = holds (o, at + offset, refl)

  -- The value may hold the character at the index itself.
  pub create_value-Ensures :
      (value : Text)
      → length value ≤ s.index
      → (IsAscii cs → IsAscii value)
      → Ensures (NotAscii cs) IsValue (create_value value (s.index + offset))
  unfolding create_value
  create_value-Ensures value bound ascii =
      Ensures-if (starts_with value (b'"' ∷ []))
        (λ e.
          Ensures-bind
            (checked_sub-Ensures (s.index + offset) (length (trim_matches b'"' value))
              (λ lt. absurd (omega (arith, length-trim_matches b'"' value))))
            λ at hat. holds tt)
        λ e.
          Ensures-if (text_eq value (codes "TRUE"))
            (λ k.
              Ensures-bind
                (checked_sub-Ensures (s.index + offset) 4
                  (λ lt. absurd (long (codes "TRUE") k lt (omega arith))))
                λ at hat. holds tt)
            λ k.
              Ensures-if (text_eq value (codes "FALSE"))
                (λ k.
                  Ensures-bind
                    (checked_sub-Ensures (s.index + offset) 5
                      (λ lt. absurd (long (codes "FALSE") k lt (omega arith))))
                    λ at hat. holds tt)
                λ k.
                  Ensures-bind (checked_sub-Ensures (s.index + offset) (byte_length value) short)
                    λ at hat. parsed at (parse_i32 value)
    where
      long : {n : ℕ} (t : Text) → text_eq value t ≡ true → s.index + offset < n → n ≤ length t → ⊥
      long t k lt le = omega (arith, ap length ((text_eq_iff value t).0 k))

      short : s.index + offset < byte_length value → NotAscii cs
      short lt a = omega (arith, byte_length-IsAscii value (ascii a))

      parsed :
          (at : ℕ) (found : Option ℤ)
          → Ensures
              (NotAscii cs)
              IsValue
              (elim found [ none ↦ fail at wrong_numeric_value | some v ↦ ok (value_int v at) ])
      parsed at none = rejected
      parsed at (some v) = holds tt

  pub append_value-Ensures :
      HasOperator s.tokens
      → length s.value ≤ s.index
      → (IsAscii cs → IsAscii s.value)
      → Ensures
          (NotAscii cs)
          (λ t. IsCondition t.tokens × (t.index ≡ s.index))
          (append_value offset s)
  unfolding append_value
  append_value-Ensures (a, o, p, q, e) bound ascii =
      Ensures-bind (create_value-Ensures s.value bound ascii)
        λ v hv. holds (triple a o v p q hv (rw e), refl)

  -- An empty value is no number.
  pub append_value_nil :
      s.value ≡ [] → {P : ConditionState → Type 0} → Ensures (NotAscii cs) P (append_value offset s)
  unfolding append_value create_value starts_with text_eq parse_i32
  append_value_nil e = rw e (
      Ensures-bind {P = λ _. ⊥}
        (Ensures-bind (checked_sub-Ensures (s.index + offset) 0 (λ lt. absurd (omega arith)))
          λ at h. rejected)
        λ v h. absurd h)
