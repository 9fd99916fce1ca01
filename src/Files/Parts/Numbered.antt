-- ===== src/Files/Parts/Numbered.antt =====
-- file_delegate.rs: about parts that are numbered in a row.
use doka_one.Prelude.{
  ℕ, ◌+◌, ◌≤◌, ◌<◌, ◌≡◌, ◌≢◌, refl, sym, ap, ◌∙◌, List, [], ◌∷◌, ◌++◌, append_assoc, append-nil,
  Bytes, length, concat, All, arith,
}
use doka_one.Prelude.Sorting.{HasNotKey, HasDistinctKeys, IsAscending, IsAscending-HasDistinctKeys}
use doka_one.Files.Parts.{Indexed, IndexedParts, part_insert, part_number}

-- Blocks with their numbers, from `k` on.
abbrev pub number : ℕ → List Bytes → IndexedParts
number k [] = []
number k (b ∷ bs) = (k, b) ∷ number (k + 1) bs

pub number-append :
    (k : ℕ) (bs cs : List Bytes) → number k (bs ++ cs) ≡ number k bs ++ number (k + length bs) cs
number-append k [] cs = ap (λ n. number n cs) (omega arith)
number-append k (b ∷ bs) cs =
    ap (λ l. (k, b) ∷ l)
      (number-append (k + 1) bs cs ∙ ap (λ n. number (k + 1) bs ++ number n cs) (omega arith))

pub concat-append : (bs cs : List Bytes) → concat (bs ++ cs) ≡ concat bs ++ concat cs
concat-append [] cs = refl
concat-append (b ∷ bs) cs =
    ap (λ s. b ++ s) (concat-append bs cs) ∙ sym (append_assoc b (concat bs) (concat cs))

pub concat-snoc : (bs : List Bytes) (b : Bytes) → concat (bs ++ b ∷ []) ≡ concat bs ++ b
concat-snoc bs b = concat-append bs (b ∷ []) ∙ ap (λ s. concat bs ++ s) (append-nil b)

pub number-snoc :
    (bs : List Bytes) (b : Bytes) → number 0 (bs ++ b ∷ []) ≡ number 0 bs ++ (length bs, b) ∷ []
number-snoc bs b = number-append 0 bs (b ∷ []) ∙ ap (λ n. number 0 bs ++ (n, b) ∷ []) (omega arith)

abbrev pub IsBelow : ℕ → IndexedParts → Type 0
IsBelow n = All (λ p. p.0 < n)

pub IsBelow-number : (k : ℕ) (bs : List Bytes) (n : ℕ) → k + length bs ≤ n → IsBelow n (number k bs)
IsBelow-number k [] n h = tt
IsBelow-number k (b ∷ bs) n h = (omega arith, IsBelow-number (k + 1) bs n (omega arith))

pub All-append_right : {A : Type 0} (P : A → Type 0) (xs ys : List A) → All P (xs ++ ys) → All P ys
All-append_right P [] ys h = h
All-append_right P (x ∷ xs) ys (p, h) = All-append_right P xs ys h

-- A number above all others is put at the end.
pub part_insert-IsBelow :
    (n : ℕ) (b : Bytes) (m : IndexedParts) → IsBelow n m → part_insert n b m ≡ m ++ (n, b) ∷ []
unfolding part_insert
part_insert-IsBelow n b [] h = refl
part_insert-IsBelow n b ((j, c) ∷ m) (lt, h) = ground (arith, part_insert-IsBelow n b m h)

pub number-IsAscending : (k : ℕ) (bs : List Bytes) → IsAscending part_number (number k bs)
number-IsAscending k [] = tt
number-IsAscending k (b ∷ bs) = (above k (k + 1) bs (omega arith), number-IsAscending (k + 1) bs)
  where
    above : (k n : ℕ) (bs : List Bytes) → k < n → All (λ p. k < p.0) (number n bs)
    above k n [] h = tt
    above k n (b ∷ bs) h = (h, above k (n + 1) bs (omega arith))

pub number-HasDistinctKeys : (k : ℕ) (bs : List Bytes) → HasDistinctKeys part_number (number k bs)
number-HasDistinctKeys k bs =
    IsAscending-HasDistinctKeys part_number (number k bs) (number-IsAscending k bs)

module _ {A : Type 0} where
  -- A number that no other part has is put at the end.
  pub part_insert-HasNotKey :
      (n : ℕ) (b : A) (m : Indexed A)
      → HasNotKey part_number n m
      → part_insert n b m ≡ m ++ (n, b) ∷ []
  unfolding part_insert
  part_insert-HasNotKey n b [] h = refl
  part_insert-HasNotKey n b ((j, c) ∷ m) (ne, h) = ground (arith, part_insert-HasNotKey n b m h)

  pub HasDistinctKeys-middle :
      (m : Indexed A) (x : ℕ × A) (l : Indexed A)
      → HasDistinctKeys part_number (m ++ x ∷ l)
      → HasNotKey part_number x.0 m
  HasDistinctKeys-middle [] x l h = tt
  HasDistinctKeys-middle (a ∷ m) x l (n, h) =
      (λ e. head_differs m n (sym e), HasDistinctKeys-middle m x l h)
    where
      head_differs : (m : Indexed A) → HasNotKey part_number a.0 (m ++ x ∷ l) → x.0 ≢ a.0
      head_differs [] (ne, h) = ne
      head_differs (b ∷ m) (ne, h) = head_differs m h
