-- ===== src/Prelude/Sorting.antt =====
-- A stable sort in ascending order, and that it forgets the order of what it is given where no two
-- keys are the same.
use Prim.Native.Nat.{ℕ, ◌<◌}
use mathlib.Core.Path.{◌≡◌, refl, sym, ap, ◌∙◌, subst}
use mathlib.Core.Logic.{◌≢◌}
use mathlib.Core.List.{List, [], ◌∷◌, Permᴰ}
use native.Mathlib.Omega.{arith}
use doka_one.Prelude.Tests.{leb, if◌then◌else◌}
use doka_one.Prelude.Lists.{All}

module _ {A : Type 0} (key : A → ℕ) where
  -- `v.sort_by_key(key)`, and `ORDER BY key`.
  unfoldable pub insert_asc : A → List A → List A
  insert_asc a [] = a ∷ []
  insert_asc a (b ∷ bs) = if leb (key a) (key b) then a ∷ b ∷ bs else b ∷ insert_asc a bs

  unfoldable pub sort_asc : List A → List A
  unfolding insert_asc
  sort_asc [] = []
  sort_asc (a ∷ as') = insert_asc a (sort_asc as')

  abbrev pub HasNotKey : ℕ → List A → Type 0
  HasNotKey k = All (λ a. key a ≢ k)

  abbrev pub HasDistinctKeys : List A → Type 0
  HasDistinctKeys [] = Unit
  HasDistinctKeys (a ∷ as') = HasNotKey (key a) as' × HasDistinctKeys as'

  insert_asc-swap :
      (a b : A) (l : List A)
      → key a ≢ key b
      → insert_asc a (insert_asc b l) ≡ insert_asc b (insert_asc a l)
  unfolding insert_asc
  insert_asc-swap a b [] ne = ground arith
  insert_asc-swap a b (c ∷ l) ne = ground (arith, insert_asc-swap a b l ne)

  pub All-Permᴰ : (P : A → Type 0) {l m : List A} → Permᴰ l m → All P l → All P m
  All-Permᴰ P Permᴰ.nil h = tt
  All-Permᴰ P (Permᴰ.cons e p) (h, t) = (subst P e h, All-Permᴰ P p t)
  All-Permᴰ P (Permᴰ.swap e f) (h, (k, t)) = (subst P f k, (subst P e h, t))
  All-Permᴰ P (Permᴰ.trans p q) h = All-Permᴰ P q (All-Permᴰ P p h)

  pub HasDistinctKeys-Permᴰ : {l m : List A} → Permᴰ l m → HasDistinctKeys l → HasDistinctKeys m
  HasDistinctKeys-Permᴰ Permᴰ.nil h = tt
  HasDistinctKeys-Permᴰ (Permᴰ.cons {l₂ = m} e p) (n, h) = (
    subst (λ b. HasNotKey (key b) m) e (All-Permᴰ (λ a. key a ≢ _) p n),
    HasDistinctKeys-Permᴰ p h,
  )
  HasDistinctKeys-Permᴰ (Permᴰ.swap {l = l} e f) ((ne, n), (k, h)) = (
    (λ q. ne (ap key f ∙ sym q ∙ sym (ap key e)), subst (λ b. HasNotKey (key b) l) f k),
    (subst (λ b. HasNotKey (key b) l) e n, h),
  )
  HasDistinctKeys-Permᴰ (Permᴰ.trans p q) h = HasDistinctKeys-Permᴰ q (HasDistinctKeys-Permᴰ p h)

  -- Two orders of the same elements, of which no two have the same key, are sorted alike.
  pub sort_asc-Permᴰ : {l m : List A} → Permᴰ l m → HasDistinctKeys l → sort_asc l ≡ sort_asc m
  unfolding sort_asc
  sort_asc-Permᴰ Permᴰ.nil h = refl
  sort_asc-Permᴰ (Permᴰ.cons {l₂ = m} e p) (n, h) =
      ap (insert_asc _) (sort_asc-Permᴰ p h) ∙ ap (λ a. insert_asc a (sort_asc m)) e
  sort_asc-Permᴰ (Permᴰ.swap {a = a} {b = b} {a' = a'} {l = l} e f) ((ne, n), (k, h)) =
      insert_asc-swap a b (sort_asc l) (λ q. ne (sym q))
      ∙ ap (λ c. insert_asc c (insert_asc a (sort_asc l))) f
      ∙ ap (λ c. insert_asc a' (insert_asc c (sort_asc l))) e
  sort_asc-Permᴰ (Permᴰ.trans p q) h =
      sort_asc-Permᴰ p h ∙ sort_asc-Permᴰ q (HasDistinctKeys-Permᴰ p h)

  -- Ascending keys: every key is below those that follow.
  abbrev pub IsAscending : List A → Type 0
  IsAscending [] = Unit
  IsAscending (a ∷ as') = All (λ b. key a < key b) as' × IsAscending as'

  pub IsAscending-HasDistinctKeys : (l : List A) → IsAscending l → HasDistinctKeys l
  IsAscending-HasDistinctKeys [] h = tt
  IsAscending-HasDistinctKeys (a ∷ l) (lt, h) = (above l lt, IsAscending-HasDistinctKeys l h)
    where
      above : (l : List A) → All (λ b. key a < key b) l → HasNotKey (key a) l
      above [] h = tt
      above (b ∷ l) (lt, h) = ((λ e. omega arith), above l h)

  insert_asc-first : (a : A) (l : List A) → All (λ b. key a < key b) l → insert_asc a l ≡ a ∷ l
  unfolding insert_asc
  insert_asc-first a [] h = refl
  insert_asc-first a (b ∷ l) (lt, h) = ground arith

  pub sort_asc-IsAscending : (l : List A) → IsAscending l → sort_asc l ≡ l
  unfolding sort_asc
  sort_asc-IsAscending [] h = refl
  sort_asc-IsAscending (a ∷ l) (lt, h) =
      ap (insert_asc a) (sort_asc-IsAscending l h) ∙ insert_asc-first a l lt
