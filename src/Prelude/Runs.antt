-- ===== src/Prelude/Runs.antt =====
-- The outcome of a call: a value, an `Err`, a panic, or (in the model only) a loop that ran out of
-- its fuel; and postconditions on outcomes.
use Prim.Native.Nat.{ℕ, ◌-◌, ◌≤◌, ◌<◌}
use mathlib.Core.Path.{◌≡◌, refl, subst}
use mathlib.Core.Logic.{◌≢◌}
use mathlib.Core.Bool.{Bool, true, false}
use native.Mathlib.Omega.{arith}
use doka_one.Prelude.Tests.{leb, leb→le, if◌then◌else◌}

-- The error of `anyhow`; its message is only logged.
pub data Failure : Type 0 where
  failure : Failure

pub data Outcome (E : Type 0) (A : Type 0) : Type 0 where
  ok : A → Outcome E A
  err : E → Outcome E A
  panic out_of_fuel : Outcome E A

infixl 5 ◌>>=◌
abbrev pub ◌>>=◌ : {E A B : Type 0} → Outcome E A → (A → Outcome E B) → Outcome E B
ok a >>= f = f a
err e >>= f = err e
panic >>= f = panic
out_of_fuel >>= f = out_of_fuel

-- Inversion of a successful bind.
pub on_ok :
    {E A B R : Type 0} (m : Outcome E A) (f : A → Outcome E B) {b : B}
    → (m >>= f) ≡ ok b
    → ((a : A) → m ≡ ok a → f a ≡ ok b → R)
    → R
on_ok (ok a) f h k = k a refl h
on_ok (err e) f h k = absurd (cc)
on_ok panic f h k = absurd (cc)
on_ok out_of_fuel f h k = absurd (cc)

-- Subtraction on an unsigned machine integer, with overflow checks.
abbrev pub checked_sub : {E : Type 0} → ℕ → ℕ → Outcome E ℕ
checked_sub a b = if leb b a then ok (a - b) else panic

-- The run ended within its fuel; `P` holds of its value if it has one, and `Q` if it panicked.
pub data Ensures (Q : Type 0) {E A : Type 0} (P : A → Type 0) : Outcome E A → Type 0 where
  holds : {a : A} → P a → Ensures Q P (ok a)
  rejected : {e : E} → Ensures Q P (err e)
  panics : Q → Ensures Q P panic

module _ {Q E A : Type 0} {P : A → Type 0} where
  pub Ensures-ok : {r : Outcome E A} {a : A} → Ensures Q P r → r ≡ ok a → P a
  Ensures-ok (holds h) e = subst P (cc) h
  Ensures-ok rejected e = cc
  Ensures-ok (panics q) e = cc

  pub Ensures-ne-out_of_fuel : {r : Outcome E A} → Ensures Q P r → r ≢ out_of_fuel
  Ensures-ne-out_of_fuel (holds h) = cc
  Ensures-ne-out_of_fuel rejected = cc
  Ensures-ne-out_of_fuel (panics q) = cc

  pub Ensures-ne-panic : {r : Outcome E A} → ¬ Q → Ensures Q P r → r ≢ panic
  Ensures-ne-panic nq (holds h) = cc
  Ensures-ne-panic nq rejected = cc
  Ensures-ne-panic nq (panics q) = absurd (nq q)

  pub Ensures-if :
      (b : Bool) {x y : Outcome E A}
      → (b ≡ true → Ensures Q P x)
      → (b ≡ false → Ensures Q P y)
      → Ensures Q P (if b then x else y)
  Ensures-if true hx hy = hx refl
  Ensures-if false hx hy = hy refl

  pub Ensures-bind :
      {B : Type 0} {R : B → Type 0} {r : Outcome E A} {f : A → Outcome E B}
      → Ensures Q P r
      → ((a : A) → P a → Ensures Q R (f a))
      → Ensures Q R (r >>= f)
  Ensures-bind (holds {a} h) k = k a h
  Ensures-bind rejected k = rejected
  Ensures-bind (panics q) k = panics q

pub Ensures-mono :
    {Q E A : Type 0} {P R : A → Type 0} {r : Outcome E A}
    → ((a : A) → P a → R a)
    → Ensures Q P r
    → Ensures Q R r
Ensures-mono k (holds h) = holds (k _ h)
Ensures-mono k rejected = rejected
Ensures-mono k (panics q) = panics q

-- A subtraction panics only where it would go below zero.
pub checked_sub-Ensures :
    {Q E : Type 0} (a b : ℕ)
    → (a < b → Q)
    → Ensures Q {E = E} (λ d. (d ≡ a - b) × (b ≤ a)) (checked_sub a b)
checked_sub-Ensures a b q =
    Ensures-if (leb b a) (λ h. holds (refl, leb→le b a h)) (λ h. panics (q (ground arith)))

-- A run that ends without a panic has the value that it has.
pub Ensures-self :
    {E A : Type 0} {P : A → Type 0} {r : Outcome E A} → Ensures ⊥ P r → Ensures ⊥ (λ a. r ≡ ok a) r
Ensures-self (holds h) = holds refl
Ensures-self rejected = rejected
Ensures-self (panics q) = absurd q
