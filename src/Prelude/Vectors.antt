-- ===== src/Prelude/Vectors.antt =====
-- The operations of `Vec` that panic out of range, and sorting in descending order.
use Prim.Native.Nat.{ℕ}
use mathlib.Core.List.{List, [], ◌∷◌}
use doka_one.Prelude.Tests.{ltb, leb, if◌then◌else◌}
use doka_one.Prelude.Lists.{length, set, remove_at, insert_at}
use doka_one.Prelude.Runs.{Outcome, ok, panic}

module _ {E A : Type 0} where
  -- `tokens.remove(i)`
  unfoldable pub vec_remove : List A → ℕ → Outcome E (List A)
  vec_remove xs i = if ltb i (length xs) then ok (remove_at xs i) else panic

  -- `tokens.insert(i, v)`
  unfoldable pub vec_insert : List A → ℕ → A → Outcome E (List A)
  vec_insert xs i v = if leb i (length xs) then ok (insert_at xs i v) else panic

  -- `tokens[i] = v`
  unfoldable pub vec_set : List A → ℕ → A → Outcome E (List A)
  vec_set xs i v = if ltb i (length xs) then ok (set xs i v) else panic

-- `v.sort_by(|a, b| key(b).cmp(key(a)))`, a stable sort: descending, equal keys in their order.
module _ {A : Type 0} (key : A → ℕ) where
  unfoldable pub insert_desc : A → List A → List A
  insert_desc a [] = a ∷ []
  insert_desc a (b ∷ bs) = if leb (key b) (key a) then a ∷ b ∷ bs else b ∷ insert_desc a bs

  unfoldable pub sort_desc : List A → List A
  unfolding insert_desc
  sort_desc [] = []
  sort_desc (a ∷ as') = insert_desc a (sort_desc as')
