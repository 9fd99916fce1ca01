-- ===== src/Files/Store/Rows.antt =====
-- file_delegate.rs: about the rows that a statement selects.
use doka_one.Prelude.{
  ◌≡◌, refl, ap, Bool, true, List, [], ◌∷◌, ◌++◌, All, Bool-cases, inl, inr, arith,
}
use doka_one.Files.Store.{where_rows, unless, update_rows}

module _ {A : Type 0} (p : A → Bool) where
  pub where_rows-append :
      (xs ys : List A) → where_rows p (xs ++ ys) ≡ where_rows p xs ++ where_rows p ys
  unfolding where_rows
  where_rows-append [] ys = refl
  where_rows-append (x ∷ xs) ys = ground (arith, where_rows-append xs ys)

  pub where_rows-All : (xs : List A) → All (λ x. p x ≡ true) xs → where_rows p xs ≡ xs
  unfolding where_rows
  where_rows-All [] h = refl
  where_rows-All (x ∷ xs) (e, h) = ground (arith, where_rows-All xs h)

  -- What was deleted is not selected.
  pub where_rows-unless : (xs : List A) → where_rows p (where_rows (unless p) xs) ≡ []
  unfolding where_rows
  where_rows-unless [] = refl
  where_rows-unless (x ∷ xs) = elim (Bool-cases (p x)) [
    | inl e ↦ rw e (where_rows-unless xs)
    | inr e ↦ rw (e, e) (where_rows-unless xs)
  ]

-- An update that does not change what a row is selected by.
pub where_rows-update_rows :
    {A : Type 0} (q p : A → Bool) (h : A → A)
    → ((r : A) → q (h r) ≡ q r)
    → (xs : List A) → where_rows q (update_rows p h xs) ≡ update_rows p h (where_rows q xs)
unfolding where_rows update_rows
where_rows-update_rows q p h same [] = refl
where_rows-update_rows q p h same (x ∷ xs) =
    let rest = where_rows-update_rows q p h same xs in
    elim (Bool-cases (p x)) [
      | inl e ↦ elim (Bool-cases (q x)) [
        | inl f ↦ rw (e, same x, f, e) (ap (λ l. h x ∷ l) rest)
        | inr f ↦ rw (e, same x, f) rest
      ]
      | inr e ↦ elim (Bool-cases (q x)) [
        | inl f ↦ rw (e, f, e) (ap (λ l. x ∷ l) rest)
        | inr f ↦ rw (e, f) rest
      ]
    ]
