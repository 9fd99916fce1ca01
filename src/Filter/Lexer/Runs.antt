-- ===== src/Filter/Lexer/Runs.antt =====
-- filter_lexer.rs: about the runs of `lex3`.
use doka_one.Prelude.{
  ℕ, ◌≡◌, ◌≢◌, refl, ap, [], ◌∷◌, map, Text, IsAscii, remove_at, drop_last, arith, ok, panic,
  out_of_fuel, Ensures, holds, Ensures-bind, Ensures-ok, Ensures-ne-out_of_fuel, Ensures-ne-panic,
}
use doka_one.Filter.Token.{Tokens, logical_close}
use doka_one.Filter.Lexer.Grammar.{IsItems, IsGroup, grouped, drop_last-append}
use doka_one.Filter.Lexer.ConditionPhases.{NotAscii}
use doka_one.Filter.Lexer.ExpressionRuns.{exp_lexer_index-Ensures}
use doka_one.Filter.Lexer.Expression.{
  Unicode, UnicodeLaws, IsPrintable, first_chars, lex3_with_offset, lex3,
}

first_chars-singletons : (t : Text) → first_chars (map (λ c. c ∷ []) t) ≡ t
unfolding first_chars
first_chars-singletons [] = refl
first_chars-singletons (c ∷ t) = ap (◌∷◌ c) (first_chars-singletons t)

IsPrintable-IsAscii : (t : Text) → IsPrintable t → IsAscii t
IsPrintable-IsAscii [] h = tt
IsPrintable-IsAscii (c ∷ t) (k, h) = (omega arith, IsPrintable-IsAscii t h)

inner-IsItems : {ts : Tokens} → IsGroup ts → IsItems (drop_last (remove_at ts 0))
inner-IsItems (grouped {xs = xs} p q h e) = rw (e, drop_last-append xs (logical_close q)) h

module _ (u : Unicode) (laws : UnicodeLaws u) (input : Text) (offset : ℕ) where
  lex3_with_offset-Ensures :
      Ensures
        (NotAscii (first_chars (u.graphemes (b'+' ∷ input))))
        IsItems
        (lex3_with_offset u input offset)
  unfolding lex3_with_offset
  lex3_with_offset-Ensures =
      Ensures-bind
        (exp_lexer_index-Ensures u.to_uppercase _ (first_chars (u.graphemes (b'+' ∷ input))) offset
          0 0 laws.to_uppercase-IsAscii (omega arith))
        λ (toks, i) (g, lt). holds (inner-IsItems g)

-- The lexer ends on every text, at every offset: the fuel of its loops and of its nesting suffices.
pub lex3_with_offset-ne-out_of_fuel :
    (u : Unicode)
    → UnicodeLaws u
    → (input : Text) (offset : ℕ) → lex3_with_offset u input offset ≢ out_of_fuel
lex3_with_offset-ne-out_of_fuel u laws input offset =
    Ensures-ne-out_of_fuel (lex3_with_offset-Ensures u laws input offset)

-- Whatever tokens `lex3` returns are well formed: parentheses are balanced, and an attribute, an
-- operator and a value stand only together, in this order.
pub lex3-IsItems :
    (u : Unicode) → UnicodeLaws u → (input : Text) {ts : Tokens} → lex3 u input ≡ ok ts → IsItems ts
unfolding lex3
lex3-IsItems u laws input = Ensures-ok (lex3_with_offset-Ensures u laws input 0)

-- On printable ASCII no subtraction of `lex3` overflows: it returns tokens or an error.
pub lex3-ne-panic :
    (u : Unicode) → UnicodeLaws u → (input : Text) → IsPrintable input → lex3 u input ≢ panic
unfolding lex3
lex3-ne-panic u laws input h =
    let plain : first_chars (u.graphemes (b'+' ∷ input)) ≡ b'+' ∷ input =
      rw (laws.graphemes-IsPrintable (b'+' ∷ input) (omega arith, h))
        (first_chars-singletons (b'+' ∷ input)) in
    Ensures-ne-panic (λ no. no (rw plain (omega arith, IsPrintable-IsAscii input h)))
      (lex3_with_offset-Ensures u laws input 0)
