-- ===== src/Prelude/Chars.antt =====
-- Text as a list of code points. A Rust `String` is its UTF-8 encoding: `byte_length` is `len()`,
-- `length` is `chars().count()`.
use Prim.Native.Nat.{ℕ, ◌+◌, ◌-◌, ◌<◌}
use Prim.Native.Char.{code}
use Prim.Native.String.{String}
use mathlib.Core.Path.{◌≡◌, refl}
use mathlib.Core.Logic.{◌↔◌}
use mathlib.Core.Bool.{Bool, true, false, ◌&&◌}
use mathlib.Core.List.{List, [], ◌∷◌, ◌++◌, reverse}
use native.Mathlib.Omega.{arith}
use doka_one.Prelude.Tests.{ltb, leb, ◌==◌, if◌then◌else◌}
use doka_one.Prelude.Lists.{length, All}

abbrev pub Text : Type 0
Text = List ℕ

-- The code points of a literal. `String` has its own `[]` and `∷`.
abbrev pub codes : String → Text
codes String.[] = []
codes (String.◌∷◌ c s) = code c ∷ codes s

unfoldable pub text_eq : Text → Text → Bool
text_eq [] [] = true
text_eq (x ∷ xs) (y ∷ ys) = x == y && text_eq xs ys
text_eq _ _ = false

pub text_eq_iff : (s t : Text) → (text_eq s t ≡ true) ↔ (s ≡ t)
unfolding text_eq
text_eq_iff (x ∷ xs) (y ∷ ys) = ground (arith, text_eq_iff xs ys)
text_eq_iff _ _ = ground arith

pub text_eq_self : (s : Text) → text_eq s s ≡ true
text_eq_self s = (text_eq_iff s s).1 refl

-- `s.starts_with(p)`.
unfoldable pub starts_with : Text → Text → Bool
starts_with s [] = true
starts_with [] (c ∷ p) = false
starts_with (d ∷ s) (c ∷ p) = d == c && starts_with s p

abbrev pub utf8_width : ℕ → ℕ
utf8_width c = if ltb c 128 then 1 else if ltb c 2048 then 2 else if ltb c 65536 then 3 else 4

abbrev pub byte_length : Text → ℕ
byte_length [] = 0
byte_length (c ∷ s) = utf8_width c + byte_length s

-- `str::trim_start_matches` and `str::trim_matches` with one character.
unfoldable pub trim_start : ℕ → Text → Text
trim_start q [] = []
trim_start q (c ∷ s) = if c == q then trim_start q s else c ∷ s

unfoldable pub trim_matches : ℕ → Text → Text
unfolding trim_start
trim_matches q s = reverse (trim_start q (reverse (trim_start q s)))

-- `[T]::join` and `concat` on texts.
unfoldable pub join : Text → List Text → Text
join sep [] = []
join sep (t ∷ []) = t
join sep (t ∷ u ∷ ts) = t ++ (sep ++ join sep (u ∷ ts))

abbrev pub concat : List Text → Text
concat [] = []
concat (t ∷ ts) = t ++ concat ts

abbrev pub is_digit : ℕ → Bool
is_digit c = leb b'0' c && leb c b'9'

abbrev pub IsAscii : Text → Type 0
IsAscii = All (λ c. c < 128)

abbrev pub ascii_upper : ℕ → ℕ
ascii_upper c = if leb b'a' c && leb c b'z' then c - 32 else c

abbrev pub ascii_lower : ℕ → ℕ
ascii_lower c = if leb b'A' c && leb c b'Z' then c + 32 else c

pub byte_length-IsAscii : (s : Text) → IsAscii s → byte_length s ≡ length s
byte_length-IsAscii [] h = refl
byte_length-IsAscii (c ∷ s) (k, h) = ground (arith, byte_length-IsAscii s h)
