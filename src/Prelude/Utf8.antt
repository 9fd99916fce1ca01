-- ===== src/Prelude/Utf8.antt =====
-- The bytes of a text: `str::as_bytes` and `String::from_utf8`.
use Prim.Native.Nat.{ℕ, zero, suc, ◌+◌, ◌-◌, ◌*◌, ◌/◌, ◌%◌, ◌<◌}
use mathlib.Core.Path.{◌≡◌, refl, ap, ◌∙◌, sym}
use mathlib.Core.Bool.{Bool, true, ◌&&◌, ◌||◌}
use mathlib.Core.Option.{Option, none, some}
use mathlib.Core.List.{List, [], ◌∷◌, ◌++◌}
use native.Mathlib.Omega.{arith}
use doka_one.Prelude.Tests.{ltb, leb, if◌then◌else◌}
use doka_one.Prelude.Lists.{length, All, length-append}
use doka_one.Prelude.Chars.{Text}

abbrev pub Bytes : Type 0
Bytes = List ℕ

unfoldable pub char_bytes : ℕ → Bytes
char_bytes c =
    if ltb c 128
    then c ∷ []
    else if ltb c 2048
    then (192 + c / 64) ∷ (128 + c % 64) ∷ []
    else if ltb c 65536
    then (224 + c / 4096) ∷ (128 + c / 64 % 64) ∷ (128 + c % 64) ∷ []
    else (240 + c / 262144) ∷ (128 + c / 4096 % 64) ∷ (128 + c / 64 % 64) ∷ (128 + c % 64) ∷ []

unfoldable pub as_bytes : Text → Bytes
unfolding char_bytes
as_bytes [] = []
as_bytes (c ∷ s) = char_bytes c ++ as_bytes s

abbrev is_continuation : ℕ → Bool
is_continuation b = leb 128 b && ltb b 192

-- No surrogate, and no more than the last code point.
abbrev pub is_scalar : ℕ → Bool
is_scalar c = ltb c 55296 || leb 57344 c && ltb c 1114112

abbrev accept : Bool → ℕ → Bytes → Option (ℕ × Bytes)
accept b c s = if b then some (c, s) else none

decode_two : ℕ → Bytes → Option (ℕ × Bytes)
decode_two b (b1 ∷ s) =
    let c = (b - 192) * 64 + (b1 - 128) in accept (is_continuation b1 && leb 128 c) c s
decode_two b [] = none

decode_three : ℕ → Bytes → Option (ℕ × Bytes)
decode_three b (b1 ∷ b2 ∷ s) =
    let c = (b - 224) * 4096 + (b1 - 128) * 64 + (b2 - 128) in
    accept (is_continuation b1 && is_continuation b2 && leb 2048 c && is_scalar c) c s
decode_three b (b1 ∷ []) = none
decode_three b [] = none

decode_four : ℕ → Bytes → Option (ℕ × Bytes)
decode_four b (b1 ∷ b2 ∷ b3 ∷ s) =
    let c = (b - 240) * 262144 + (b1 - 128) * 4096 + (b2 - 128) * 64 + (b3 - 128) in
    accept
      (is_continuation b1 && is_continuation b2 && is_continuation b3 && leb 65536 c && is_scalar c)
      c s
decode_four b (b1 ∷ b2 ∷ []) = none
decode_four b (b1 ∷ []) = none
decode_four b [] = none

-- The first character, and the bytes behind it.
decode_char : Bytes → Option (ℕ × Bytes)
unfolding decode_two decode_three decode_four
decode_char [] = none
decode_char (b ∷ s) =
    if ltb b 128
    then some (b, s)
    else if leb 192 b && ltb b 224
    then decode_two b s
    else if leb 224 b && ltb b 240
    then decode_three b s
    else if leb 240 b && ltb b 248
    then decode_four b s
    else none

abbrev prepend : ℕ → Option Text → Option Text
prepend c none = none
prepend c (some t) = some (c ∷ t)

abbrev decode_rest : (Bytes → Option Text) → Option (ℕ × Bytes) → Option Text
decode_rest go none = none
decode_rest go (some (c, s)) = prepend c (go s)

decode_all : ℕ → Bytes → Option Text
unfolding decode_char
decode_all f [] = some []
decode_all zero (b ∷ s) = none
decode_all (suc f) (b ∷ s) = decode_rest (decode_all f) (decode_char (b ∷ s))

unfoldable pub from_utf8 : Bytes → Option Text
unfolding decode_all
from_utf8 s = decode_all (length s) s

abbrev pub IsScalarText : Text → Type 0
IsScalarText = All (λ c. is_scalar c ≡ true)

decode_char-char_bytes :
    (c : ℕ) (rest : Bytes)
    → is_scalar c ≡ true
    → decode_char (char_bytes c ++ rest) ≡ some (c, rest)
unfolding decode_char char_bytes
decode_char-char_bytes c rest h = ground arith

char_bytes-cons : (c : ℕ) → (b : ℕ) × ((t : Bytes) × (char_bytes c ≡ b ∷ t))
unfolding char_bytes
char_bytes-cons c = (first, (rest, ground arith))
  where
    first : ℕ
    first =
        if ltb c 128
        then c
        else if ltb c 2048
        then 192 + c / 64
        else if ltb c 65536
        then 224 + c / 4096
        else 240 + c / 262144

    rest : Bytes
    rest =
        if ltb c 128
        then []
        else if ltb c 2048
        then (128 + c % 64) ∷ []
        else if ltb c 65536
        then (128 + c / 64 % 64) ∷ (128 + c % 64) ∷ []
        else (128 + c / 4096 % 64) ∷ (128 + c / 64 % 64) ∷ (128 + c % 64) ∷ []

decode_all-step :
    (c f : ℕ) (rest : Bytes)
    → is_scalar c ≡ true
    → decode_all (suc f) (char_bytes c ++ rest) ≡ prepend c (decode_all f rest)
unfolding decode_all
decode_all-step c f rest h =
    let (b, (t, e)) = char_bytes-cons c in
    ap (λ s. decode_all (suc f) (s ++ rest)) e
    ∙ ap (decode_rest (decode_all f))
        (ap (λ s. decode_char (s ++ rest)) (sym e) ∙ decode_char-char_bytes c rest h)

length-char_bytes : (c : ℕ) → 0 < length (char_bytes c)
unfolding char_bytes
length-char_bytes c = ground arith

decode_all-as_bytes :
    (s : Text) (f : ℕ)
    → IsScalarText s
    → length (as_bytes s) < suc f
    → decode_all f (as_bytes s) ≡ some s
unfolding as_bytes decode_all
decode_all-as_bytes [] zero h lt = refl
decode_all-as_bytes [] (suc f) h lt = refl
decode_all-as_bytes (c ∷ s) zero (g, h) lt =
    absurd (omega (arith, length-char_bytes c, length-append (char_bytes c) (as_bytes s), lt))
decode_all-as_bytes (c ∷ s) (suc f) (g, h) lt =
    decode_all-step c f (as_bytes s) g
    ∙ ap (prepend c) (
        decode_all-as_bytes s f h
          (omega (arith, length-char_bytes c, length-append (char_bytes c) (as_bytes s), lt)))

-- A text is read back from its bytes.
pub from_utf8-as_bytes : (s : Text) → IsScalarText s → from_utf8 (as_bytes s) ≡ some s
unfolding from_utf8
from_utf8-as_bytes s h = decode_all-as_bytes s (length (as_bytes s)) h (omega arith)
