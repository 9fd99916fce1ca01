-- ===== src/Filter/Normalizer/Wrapped/Removed.antt =====
-- filter_normalizer.rs: how `n1` takes the tokens out, from the last position to the first.
use doka_one.Prelude.{
  ℕ, zero, suc, ◌≤◌, ◌<◌, ◌≡◌, refl, ap, sym, ◌∙◌, true, false, List, [], ◌∷◌, ◌++◌, append_assoc,
  append-nil, length, length-append, remove_at, All, All-append, ltb, leb, arith, ok, ◌>>=◌,
  vec_remove, insert_desc, sort_desc,
}
use doka_one.Filter.Token.{Token, Tokens, logical_close}
use doka_one.Filter.Normalizer.N1.{remove_all}
use doka_one.Filter.Normalizer.Wrapped.Scanned.{closes, removals}

-- The removals from the last: first the closings, from `at` on, and then the openings below `j`.
abbrev pub rise : ℕ → ℕ → List ℕ
rise zero at = []
rise (suc j) at = rise j (suc at) ++ at ∷ []

abbrev pub down : ℕ → List ℕ
down zero = []
down (suc j) = j ∷ down j

rise-above : (j at m : ℕ) → m < at → All (λ b. leb b m ≡ false) (rise j at)
rise-above zero at m h = tt
rise-above (suc j) at m h =
    All-append (λ b. leb b m ≡ false) (rise j (suc at)) (at ∷ [])
      (rise-above j (suc at) m (omega arith)) (ground arith, tt)

insert_desc-passed :
    (a : ℕ) (xs ys : List ℕ)
    → All (λ b. leb b a ≡ false) xs
    → insert_desc (λ p. p) a (xs ++ ys) ≡ xs ++ insert_desc (λ p. p) a ys
unfolding insert_desc
insert_desc-passed a [] ys h = refl
insert_desc-passed a (x ∷ xs) ys (f, h) = rw (f, insert_desc-passed a xs ys h) refl

insert_desc-down : (a j : ℕ) → j ≤ a → insert_desc (λ p. p) a (down j) ≡ a ∷ down j
unfolding insert_desc
insert_desc-down a zero h = refl
insert_desc-down a (suc j) h = let first : leb j a ≡ true = ground arith in rw first refl

pub sort_desc-removals :
    (j at : ℕ) → j ≤ at → sort_desc (λ p. p) (removals j at) ≡ rise j at ++ down j
unfolding sort_desc
sort_desc-removals zero at h = refl
sort_desc-removals (suc j) at h =
    ap (λ l. insert_desc (λ p. p) j (insert_desc (λ p. p) at l))
      (sort_desc-removals j (suc at) (omega arith))
    ∙ ap (insert_desc (λ p. p) j) (
        insert_desc-passed at (rise j (suc at)) (down j) (rise-above j (suc at) at (omega arith))
        ∙ ap (λ l. rise j (suc at) ++ l) (insert_desc-down at j (omega arith))
        ∙ sym (append_assoc (rise j (suc at)) (at ∷ []) (down j)))
    ∙ insert_desc-passed j (rise (suc j) at) (down j) (rise-above (suc j) at j (omega arith))
    ∙ ap (λ l. rise (suc j) at ++ l) (insert_desc-down j j (omega arith))

remove_at-last : (ts : Tokens) (t : Token) → remove_at (ts ++ t ∷ []) (length ts) ≡ ts
remove_at-last [] t = refl
remove_at-last (u ∷ ts) t = ap (λ l. u ∷ l) (remove_at-last ts t)

vec_remove-last :
    {E : Type 0} (ts : Tokens) (t : Token) → vec_remove {E = E} (ts ++ t ∷ []) (length ts) ≡ ok ts
unfolding vec_remove
vec_remove-last ts t =
    let inside : ltb (length ts) (length (ts ++ t ∷ [])) ≡ true =
      ap (ltb (length ts)) (length-append ts (t ∷ [])) ∙ ground arith in
    rw (inside, remove_at-last ts t) refl

pub remove_rise :
    (qs : List ℕ) (before : Tokens) (at : ℕ) (xs : List ℕ)
    → length before ≡ at
    → remove_all (before ++ closes qs) (rise (length qs) at ++ xs) ≡ remove_all before xs
unfolding remove_all
remove_rise [] before at xs e = ap (λ l. remove_all l xs) (append-nil before)
remove_rise (q ∷ qs) before at xs e =
    let longer = before ++ logical_close q ∷ [] in
    let e' : length longer ≡ suc at = length-append before (logical_close q ∷ []) ∙ omega arith in
    ap (λ l. remove_all l (rise (suc (length qs)) at ++ xs))
      (sym (append_assoc before (logical_close q ∷ []) (closes qs)))
    ∙ ap (remove_all (longer ++ closes qs)) (append_assoc (rise (length qs) (suc at)) (at ∷ []) xs)
    ∙ remove_rise qs longer (suc at) (at ∷ xs) e'
    ∙ ap (λ n. vec_remove longer n >>= λ us. remove_all us xs) (sym e)
    ∙ ap (λ r. r >>= λ us. remove_all us xs) (vec_remove-last before (logical_close q))

length-remove_at : (us : Tokens) (j : ℕ) → length us ≡ suc j → length (remove_at us j) ≡ j
length-remove_at [] j e = omega arith
length-remove_at (u ∷ us) zero e = omega arith
length-remove_at (u ∷ us) (suc j) e =
    let shorter = length-remove_at us j (omega arith) in ap suc shorter

remove_at-append :
    (us ts : Tokens) (j : ℕ) → j < length us → remove_at (us ++ ts) j ≡ remove_at us j ++ ts
remove_at-append [] ts j h = absurd (omega arith)
remove_at-append (u ∷ us) ts zero h = refl
remove_at-append (u ∷ us) ts (suc j) h = ap (λ l. u ∷ l) (remove_at-append us ts j (omega arith))

pub remove_down : (j : ℕ) (us ts : Tokens) → length us ≡ j → remove_all (us ++ ts) (down j) ≡ ok ts
unfolding remove_all vec_remove
remove_down zero [] ts e = refl
remove_down zero (u ∷ us) ts e = absurd (omega arith)
remove_down (suc j) us ts e =
    let shorter : j < length us = omega arith in
    let inside : ltb j (length (us ++ ts)) ≡ true =
      ap (ltb j) (length-append us ts) ∙ ground arith in
    rw inside (
      ap (λ l. remove_all l (down j)) (remove_at-append us ts j shorter)
      ∙ remove_down j (remove_at us j) ts (length-remove_at us j e))
