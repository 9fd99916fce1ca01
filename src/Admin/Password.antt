-- ===== src/Admin/Password.antt =====
-- admin-server/src/dk_password.rs: `valid_password`. (`€` is the one special character that is not
-- ASCII, code point 8364.)
pub mod Rule
use doka_one.Prelude.{
  ℕ, zero, suc, ◌+◌, ◌%◌, Bool, true, false, ◌&&◌, ◌||◌, List, [], ◌∷◌, Text, codes, any, length,
  leb, ltb, ◌==◌, if◌then◌else◌,
}

pub data CharType : Type 0 where
  digit upper lower wrong : CharType

unfoldable pub is_latin_base_char : ℕ → CharType
is_latin_base_char b =
    if leb 48 b && leb b 57
    then digit
    else if leb 65 b && leb b 90
    then upper
    else if leb 97 b && leb b 122
    then lower
    else wrong

abbrev pub special_chars : Text
special_chars = 8364 ∷ codes "$%;,.:_-/&!?#*+"

-- `special_chars.contains(&c)`
unfoldable pub is_special : ℕ → Bool
is_special c = any (λ s. s == c) special_chars

-- The counters are `u16`: they wrap round (in a build without overflow checks).
pub record Counts : Type 0 where
  pub valid : Bool
  pub nb_upper : ℕ
  pub nb_digit : ℕ
  pub nb_symbol : ℕ

abbrev pub u16_next : ℕ → ℕ
u16_next n = (n + 1) % 65536

-- One round: the new counters, with `valid` false where the loop breaks.
unfoldable pub count_as : CharType → ℕ → Counts → Counts
count_as digit c k = record k { nb_digit = u16_next k.nb_digit }
count_as upper c k = record k { nb_upper = u16_next k.nb_upper }
count_as lower c k = k
count_as wrong c k =
    if is_special c
    then record k { nb_symbol = u16_next k.nb_symbol }
    else record k { valid = false }

unfoldable pub count_chars : Text → Counts → Counts
unfolding count_as is_latin_base_char is_special
count_chars [] k = k
count_chars (c ∷ cs) k =
    let l = count_as (is_latin_base_char c) c k in
    let rest = count_chars cs l in if l.valid then rest else l

abbrev pub no_counts : Counts
no_counts = record { valid = true; nb_upper = 0; nb_digit = 0; nb_symbol = 0 }

unfoldable pub valid_password : Text → Bool
unfolding count_chars
valid_password pass =
    if ltb (length pass) 8
    then false
    else (let k = count_chars pass no_counts in
        if k.nb_upper == 0 || k.nb_digit == 0 || k.nb_symbol == 0 then false else k.valid)
