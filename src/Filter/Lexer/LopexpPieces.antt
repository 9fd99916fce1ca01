-- ===== src/Filter/Lexer/LopexpPieces.antt =====
-- filter_lexer.rs: about the operator's token, and about what follows a condition.
use doka_one.Prelude.{
  ℕ, suc, ◌+◌, ◌-◌, ◌≤◌, ◌<◌, ◌≡◌, ◌≢◌, refl, ap, ◌∙◌, true, false, Option, none, some, [], ◌∷◌,
  map, Text, codes, IsAscii, ascii_upper, length, byte_length, byte_length-IsAscii, get_elem?, ltb,
  ◌==◌, arith, ok, Ensures, holds, rejected, Ensures-if, Ensures-bind, Ensures-mono, checked_sub,
  checked_sub-Ensures, if◌then◌else◌, text_eq, text_eq_iff,
}
use doka_one.Filter.Token.{
  LogicalOperator, land, lor, Token, binary_logical_operator, incomplete_expression,
}
use doka_one.Filter.Lexer.Grammar.{none, IsGroup}
use doka_one.Filter.Lexer.Pieces.{fail}
use doka_one.Filter.Lexer.ConditionPhases.{NotAscii}
use doka_one.Filter.Lexer.Expression.{SubLexer, after_condition, create_lop}

-- On ASCII, `to_uppercase` works letter by letter.
abbrev pub UppercaseLaw : (Text → Text) → Type 0
UppercaseLaw up = (t : Text) → IsAscii t → up t ≡ map ascii_upper t

ascii_upper-IsAscii : (t : Text) → IsAscii t → IsAscii (map ascii_upper t)
ascii_upper-IsAscii [] h = tt
ascii_upper-IsAscii (c ∷ t) (k, h) = (ground arith, ascii_upper-IsAscii t h)

length-ascii_upper : (t : Text) → length (map ascii_upper t) ≡ length t
length-ascii_upper [] = refl
length-ascii_upper (c ∷ t) = ap suc (length-ascii_upper t)

byte_length-upper :
    (up : Text → Text) → UppercaseLaw up → (t : Text) → IsAscii t → byte_length (up t) ≡ length t
byte_length-upper up law t h =
    rw (law t h) (byte_length-IsAscii _ (ascii_upper-IsAscii t h) ∙ length-ascii_upper t)

abbrev pub IsLop : Token → Type 0
IsLop t = (o : LogicalOperator) × (p : ℕ) × (t ≡ binary_logical_operator o p)

-- The operator's text ends before the index, in ASCII.
pub create_lop-Ensures :
    (cs : Text) (up : Text → Text) (word : Text) (index offset : ℕ)
    → UppercaseLaw up
    → length word < index
    → (IsAscii cs → IsAscii word)
    → Ensures (NotAscii cs) IsLop (create_lop (up word) index offset)
unfolding create_lop
create_lop-Ensures cs up word index offset law bound ascii =
    Ensures-if (text_eq (up word) (codes "AND"))
      (λ e.
        Ensures-bind
          (checked_sub-Ensures (index + offset) 3 (λ lt a. short (codes "AND") e a (omega arith)))
          λ p h. holds (land, p, refl))
      λ _.
        Ensures-if (text_eq (up word) (codes "OR"))
          (λ e.
            Ensures-bind
              (checked_sub-Ensures (index + offset) 2
                (λ lt a. short (codes "OR") e a (omega arith)))
              λ p h. holds (lor, p, refl))
          λ _.
            Ensures-bind
              (checked_sub-Ensures index (byte_length (up word))
                (λ lt a. absurd (omega (arith, byte_length-upper up law word (ascii a)))))
              λ p (h, le).
                Ensures-bind
                  (checked_sub-Ensures p 1
                    (λ lt a. absurd (omega (arith, byte_length-upper up law word (ascii a)))))
                  λ q k. rejected
  where
    short : (t : Text) → text_eq (up word) t ≡ true → IsAscii cs → index < byte_length t → ⊥
    short t e a lt =
        let same = (text_eq_iff (up word) t).0 e in
        omega (arith, byte_length-upper up law word (ascii a), ap byte_length same)

pub after_condition-Ensures :
    {Q : Type 0} (cs : Text) (depth start i : ℕ) {c : ℕ}
    → 1 ≤ start
    → start ≤ i
    → get_elem? cs start ≡ some c
    → (c == b')') ≡ false
    → Ensures Q (λ j. start ≤ j) (after_condition cs depth i)
unfolding after_condition
after_condition-Ensures {Q} cs depth start i {c} one le at other = go (get_elem? cs i) refl
  where
    go :
        (o : Option ℕ)
        → get_elem? cs i ≡ o
        → Ensures Q
            (λ j. start ≤ j)
            (elim o [
              | none ↦ if ltb 0 depth then fail i incomplete_expression else ok i
              | some c ↦ if c == b')' then checked_sub i 1 else ok i
            ])
    go none e = Ensures-if (ltb 0 depth) (λ _. rejected) (λ _. holds le)
    go (some d) e =
        Ensures-if (d == b')')
          (λ k.
            Ensures-mono (λ j (h, _). omega (arith, moved d e k))
              (checked_sub-Ensures i 1 (λ lt. absurd (omega arith))))
          (λ _. holds le)
      where
        moved : (d : ℕ) → get_elem? cs i ≡ some d → (d == b')') ≡ true → i ≢ start
        moved d e k same = cc (other, k, ap (get_elem? cs) same, e, at)

-- What the lexer of a parenthesised expression promises from an index in range on.
abbrev pub SubRuns : Text → ℕ → SubLexer → Type 0
SubRuns cs f sub =
    (depth i : ℕ)
    → length cs - i < f
    → Ensures (NotAscii cs) (λ (toks, j). IsGroup toks × (i < j)) (sub depth i)
