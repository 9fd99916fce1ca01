-- ===== src/Filter/Number.antt =====
-- `str::parse::<i32>` and the printing of an `i32`, which filter_lexer.rs and filter_ast.rs call.
use doka_one.Prelude.{
  ℕ, zero, suc, ◌+◌, ◌-◌, ◌*◌, ◌/◌, ◌%◌, Option, none, some, [], ◌∷◌, ◌++◌, Text, is_digit, leb,
  ltb, ◌==◌, if◌then◌else◌,
}
use doka_one.Prelude.Int.{ℤ, pos, negsuc}

-- Digits in front of the accumulated value. The range is tested at the end, which is the same
-- test as at every digit: the value only grows.
unfoldable pub parse_digits : ℕ → Text → Option ℕ
parse_digits acc [] = some acc
parse_digits acc (c ∷ cs) = if is_digit c then parse_digits (acc * 10 + (c - 48)) cs else none

unfoldable pub parse_magnitude : ℕ → Text → Option ℕ
unfolding parse_digits
parse_magnitude bound [] = none
parse_magnitude bound (c ∷ cs) = elim (parse_digits 0 (c ∷ cs)) [
  | none ↦ none
  | some n ↦ if leb n bound then some n else none
]

abbrev pub i32_max : ℕ
i32_max = 2147483647

abbrev negate : ℕ → ℤ
negate zero = pos 0
negate (suc n) = negsuc n

unfoldable pub parse_i32 : Text → Option ℤ
unfolding parse_magnitude
parse_i32 [] = none
parse_i32 (c ∷ cs) =
    if c == b'-'
    then elim (parse_magnitude (i32_max + 1) cs) [ none ↦ none | some n ↦ some (negate n) ]
    else elim (parse_magnitude i32_max (if c == b'+' then cs else c ∷ cs)) [
      | none ↦ none
      | some n ↦ some (pos n)
    ]

-- The decimal digits of a number, least significant last; `fuel` bounds their count.
unfoldable pub show_digits : ℕ → ℕ → Text
show_digits zero n = []
show_digits (suc f) n =
    let front = show_digits f (n / 10) in
    if ltb n 10 then (48 + n) ∷ [] else front ++ (48 + n % 10) ∷ []

unfoldable pub show_ℕ : ℕ → Text
unfolding show_digits
show_ℕ n = show_digits (suc n) n

unfoldable pub show_i32 : ℤ → Text
unfolding show_ℕ
show_i32 (pos n) = show_ℕ n
show_i32 (negsuc n) = b'-' ∷ show_ℕ (suc n)
