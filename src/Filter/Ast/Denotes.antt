-- ===== src/Filter/Ast/Denotes.antt =====
-- Which tokens denote a tree, and what it means that tokens stand at an index.
use doka_one.Prelude.{
  ℕ, suc, ◌+◌, ◌≡◌, refl, subst, some, [], ◌∷◌, ◌++◌, Text, length, get_elem?, arith,
}
use doka_one.Filter.Token.{
  LogicalOperator, ComparisonOperator, Token, Tokens, attribute, operator, value_int, value_string,
  value_bool, binary_logical_operator, condition_open, condition_close, logical_open, logical_close,
}
use doka_one.Filter.Ast.Tree.{FilterValue, FilterExpressionAst, condition, logical, nil, cons}

abbrev pub IsValueOf : Token → FilterValue → Type 0
IsValueOf (value_int a p) v = v ≡ FilterValue.value_int a
IsValueOf (value_string a p) v = v ≡ FilterValue.value_string a
IsValueOf (value_bool a p) v = v ≡ FilterValue.value_bool a
IsValueOf _ v = ⊥

-- Each condition in its own delimiters and each operation in its own, with two operands. The two
-- numbers are the keys given out before and after.
pub data Denotes (uuid8 : ℕ → Text) : ℕ → Tokens → FilterExpressionAst → ℕ → Type 0 where
  denotes_condition :
      {k : ℕ} {us : Tokens} {a : Text} {o : ComparisonOperator} {t : Token} {v : FilterValue}
      (p q r s : ℕ)
      → IsValueOf t v
      → us ≡ condition_open p ∷ attribute a q ∷ operator o r ∷ t ∷ condition_close s ∷ []
      → Denotes uuid8 k us
          (condition (record { key = uuid8 k; attribute = a; operator = o; value = v }))
          (k + 1)
  denotes_logical :
      {k m n : ℕ} {us xs ys : Tokens} {l r : FilterExpressionAst} {o : LogicalOperator} (p q s : ℕ)
      → Denotes uuid8 k xs l m
      → Denotes uuid8 m ys r n
      → us ≡ logical_open p ∷ (xs ++ binary_logical_operator o q ∷ (ys ++ logical_close s ∷ []))
      → Denotes uuid8 k us (logical o (cons l (cons r nil))) n

abbrev pub IsOpening : Token → Type 0
IsOpening (condition_open p) = Unit
IsOpening (logical_open p) = Unit
IsOpening _ = ⊥

-- Tokens that denote a tree begin with a delimiter that opens.
pub Denotes-IsOpening :
    {uuid8 : ℕ → Text} {k n : ℕ} {us : Tokens} {tree : FilterExpressionAst}
    → Denotes uuid8 k us tree n
    → (x : Token) × (zs : Tokens) × (us ≡ x ∷ zs) × IsOpening x
Denotes-IsOpening (denotes_condition p q r s v e) = (_, _, e, tt)
Denotes-IsOpening (denotes_logical p q s l r e) = (_, _, e, tt)

-- The tokens `xs` stand in `tokens` from index `i` on.
abbrev pub Stands : Tokens → ℕ → Tokens → Type 0
Stands tokens i [] = Unit
Stands tokens i (x ∷ xs) = (get_elem? tokens i ≡ some x) × Stands tokens (i + 1) xs

pub Stands-append :
    (tokens : Tokens) (i : ℕ) (xs ys : Tokens)
    → Stands tokens i (xs ++ ys)
    → Stands tokens i xs × Stands tokens (i + length xs) ys
Stands-append tokens i [] ys h = (tt, subst (λ n. Stands tokens n ys) (omega arith) h)
Stands-append tokens i (x ∷ xs) ys (e, h) =
    let (a, b) = Stands-append tokens (i + 1) xs ys h in
    ((e, a), subst (λ n. Stands tokens n ys) (omega arith) b)

Stands-cons :
    (t : Token) (tokens : Tokens) (i : ℕ) (xs : Tokens)
    → Stands tokens i xs
    → Stands (t ∷ tokens) (i + 1) xs
Stands-cons t tokens i [] h = tt
Stands-cons t tokens i (x ∷ xs) (e, h) =
    let next : suc i ≡ i + 1 = omega arith in
    (subst (λ n. get_elem? (t ∷ tokens) n ≡ some x) next e, Stands-cons t tokens (i + 1) xs h)

pub Stands-self : (xs : Tokens) → Stands xs 0 xs
Stands-self [] = tt
Stands-self (x ∷ xs) = (refl, Stands-cons x xs 0 xs (Stands-self xs))

pub Stands-join :
    (tokens : Tokens) (i : ℕ) (xs ys : Tokens)
    → Stands tokens i xs
    → Stands tokens (i + length xs) ys
    → Stands tokens i (xs ++ ys)
Stands-join tokens i [] ys h k = subst (λ n. Stands tokens n ys) (omega arith) k
Stands-join tokens i (x ∷ xs) ys (e, h) k =
    (e, Stands-join tokens (i + 1) xs ys h (subst (λ n. Stands tokens n ys) (omega arith) k))

Stands-tail :
    (t : Token) (tokens : Tokens) (i : ℕ) (xs : Tokens)
    → Stands (t ∷ tokens) (i + 1) xs
    → Stands tokens i xs
Stands-tail t tokens i [] h = tt
Stands-tail t tokens i (x ∷ xs) (e, h) =
    let next : i + 1 ≡ suc i = omega arith in
    (subst (λ n. get_elem? (t ∷ tokens) n ≡ some x) next e, Stands-tail t tokens (i + 1) xs h)

-- Tokens that stand at the front are a prefix.
pub Stands-prefix :
    (tokens xs : Tokens) → Stands tokens 0 xs → (rest : Tokens) × (tokens ≡ xs ++ rest)
Stands-prefix tokens [] h = (tokens, refl)
Stands-prefix [] (x ∷ xs) (e, h) = cc
Stands-prefix (t ∷ tokens) (x ∷ xs) (e, h) =
    let (rest, k) = Stands-prefix tokens xs (Stands-tail t tokens 0 xs h) in (rest, cc)
