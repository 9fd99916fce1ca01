-- ===== src/Prelude/Effects.antt =====
-- Calls that change a state and may fail: the state comes back after a failure too, since what was
-- written stays written; and postconditions on such calls.
use mathlib.Core.Path.{◌≡◌, refl}
use mathlib.Core.Bool.{Bool, true, false}
use mathlib.Core.Option.{Option, none, some}
use doka_one.Prelude.Tests.{if◌then◌else◌}
use doka_one.Prelude.Runs.{Outcome, ok, err, panic, out_of_fuel}

abbrev pub Run : Type 0 → Type 0 → Type 0 → Type 0
Run W E A = W → Outcome E A × W

abbrev pub pure : {W E A : Type 0} → A → Run W E A
pure a w = (ok a, w)

abbrev pub fail : {W E A : Type 0} → E → Run W E A
fail e w = (err e, w)

-- A computation without a state, as a call.
abbrev pub lift : {W E A : Type 0} → Outcome E A → Run W E A
lift r w = (r, w)

abbrev pub resume : {W E A B : Type 0} → (A → Run W E B) → Outcome E A × W → Outcome E B × W
resume f (ok a, w) = f a w
resume f (err e, w) = (err e, w)
resume f (panic, w) = (panic, w)
resume f (out_of_fuel, w) = (out_of_fuel, w)

infixl 5 ◌>>=◌ ◌>>◌
abbrev pub ◌>>=◌ : {W E A B : Type 0} → Run W E A → (A → Run W E B) → Run W E B
◌>>=◌ m f w = resume f (m w)

abbrev pub ◌>>◌ : {W E A B : Type 0} → Run W E A → Run W E B → Run W E B
m >> k = m >>= λ _. k

-- `.ok_or(…)?`
abbrev pub ok_or : {W E A : Type 0} → E → Option A → Run W E A
ok_or e none = fail e
ok_or e (some a) = pure a

-- `let Ok(x) = … else { return Err(e) }`: any error of the call becomes `e`.
abbrev pub relabel : {W D E A : Type 0} → E → Outcome D A × W → Outcome E A × W
relabel e (ok a, w) = (ok a, w)
relabel e (err d, w) = (err e, w)
relabel e (panic, w) = (panic, w)
relabel e (out_of_fuel, w) = (out_of_fuel, w)

abbrev pub or_return : {W D E A : Type 0} → Run W D A → E → Run W E A
or_return m e w = relabel e (m w)

-- `let _ = …`, or a test of `is_err()`: the call's outcome as a value.
abbrev pub caught : {W D E A : Type 0} → Outcome D A × W → Outcome E (Option A) × W
caught (ok a, w) = (ok (some a), w)
caught (err d, w) = (ok none, w)
caught (panic, w) = (panic, w)
caught (out_of_fuel, w) = (out_of_fuel, w)

abbrev pub attempt : {W D E A : Type 0} → Run W D A → Run W E (Option A)
attempt m w = caught (m w)

-- The call ended, with no panic and within its fuel: `P` holds of its value and state if it has
-- a value, and `Q` of its state if it failed.
pub data Ends {W E A : Type 0} (P : A → W → Type 0) (Q : W → Type 0)
    : Outcome E A × W → Type 0 where
  returned : {a : A} {w : W} → P a w → Ends P Q (ok a, w)
  failed : {e : E} {w : W} → Q w → Ends P Q (err e, w)

module _ {W E A : Type 0} {P : A → W → Type 0} {Q : W → Type 0} where
  pub Ends-bind :
      {B : Type 0} {R : B → W → Type 0} {r : Outcome E A × W} {f : A → Run W E B}
      → Ends P Q r
      → ((a : A) (w : W) → P a w → Ends R Q (f a w))
      → Ends R Q (resume f r)
  Ends-bind (returned {a} {w} h) k = k a w h
  Ends-bind (failed h) k = failed h

  pub Ends-relabel :
      {D : Type 0} (e : D) {r : Outcome E A × W} → Ends P Q r → Ends P Q (relabel e r)
  Ends-relabel e (returned h) = returned h
  Ends-relabel e (failed h) = failed h

  pub Ends-mono :
      {R : A → W → Type 0} {S : W → Type 0} {r : Outcome E A × W}
      → Ends P Q r
      → ((a : A) (w : W) → P a w → R a w)
      → ((w : W) → Q w → S w)
      → Ends R S r
  Ends-mono (returned {a} {w} h) k l = returned (k a w h)
  Ends-mono (failed {e} {w} h) k l = failed (l w h)

  pub Ends-if :
      (b : Bool) {x y : Outcome E A × W}
      → (b ≡ true → Ends P Q x)
      → (b ≡ false → Ends P Q y)
      → Ends P Q (if b then x else y)
  Ends-if true hx hy = hx refl
  Ends-if false hx hy = hy refl
