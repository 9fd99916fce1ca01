-- ===== src/Filter/Normalizer/Delimited.antt =====
-- Tokens in which every operation has its delimiters: what a scan passes over, and the parts of an
-- operation.
use doka_one.Prelude.{ℕ, ◌+◌, ◌≡◌, ap, some, [], ◌∷◌, ◌++◌, length, length-append, get_elem?, arith}
use doka_one.Filter.Token.{
  LogicalOperator, Token, Tokens, attribute, operator, value_int, value_string, value_bool,
  binary_logical_operator, logical_open, logical_close,
}
use doka_one.Filter.Ast.Tree.{FilterValue}
use doka_one.Filter.Ast.Denotes.{IsValueOf, Stands, Stands-append}

-- A token that both directions pass over.
abbrev pub IsPlain : Token → Type 0
IsPlain (attribute _ _) = Unit
IsPlain (operator _ _) = Unit
IsPlain (value_int _ _) = Unit
IsPlain (value_string _ _) = Unit
IsPlain (value_bool _ _) = Unit
IsPlain (binary_logical_operator _ _) = Unit
IsPlain _ = ⊥

pub IsValueOf-IsPlain : (t : Token) (v : FilterValue) → IsValueOf t v → IsPlain t
IsValueOf-IsPlain (value_int _ _) v h = tt
IsValueOf-IsPlain (value_string _ _) v h = tt
IsValueOf-IsPlain (value_bool _ _) v h = tt
IsValueOf-IsPlain _ v h = absurd h

pub end_of_operation :
    {us : Tokens} (i : ℕ) (xs ys : Tokens) (o : LogicalOperator) (p q s : ℕ)
    → us ≡ logical_open p ∷ (xs ++ binary_logical_operator o q ∷ (ys ++ logical_close s ∷ []))
    → i + 1 + length xs + 1 + length ys + 1 ≡ i + length us
end_of_operation i xs ys o p q s e = omega (
  arith,
  ap length e,
  length-append {0} xs (binary_logical_operator o q ∷ (ys ++ logical_close s ∷ [])),
  length-append {0} ys (logical_close s ∷ []),
)

module _ (tokens : Tokens) where
  -- Where the parts of an operation stand that begins at `i`.
  pub record Parts (i : ℕ) (xs ys : Tokens) (o : LogicalOperator) (p q s : ℕ) : Type 0 where
    pub opening : get_elem? tokens i ≡ some (logical_open p)
    pub left : Stands tokens (i + 1) xs
    pub middle : get_elem? tokens (i + 1 + length xs) ≡ some (binary_logical_operator o q)
    pub right : Stands tokens (i + 1 + length xs + 1) ys
    pub closing : get_elem? tokens (i + 1 + length xs + 1 + length ys) ≡ some (logical_close s)

  pub Stands-Parts :
      (i : ℕ) (xs ys : Tokens) (o : LogicalOperator) (p q s : ℕ)
      → Stands tokens i
          (logical_open p ∷ (xs ++ binary_logical_operator o q ∷ (ys ++ logical_close s ∷ [])))
      → Parts i xs ys o p q s
  Stands-Parts i xs ys o p q s (e, st) =
      let (sx, (eo, rest)) =
        Stands-append tokens (i + 1) xs (binary_logical_operator o q ∷ (ys ++ logical_close s ∷ []))
          st in
      let (sy, (ec, _)) =
        Stands-append tokens (i + 1 + length xs + 1) ys (logical_close s ∷ []) rest in
      record { opening = e; left = sx; middle = eo; right = sy; closing = ec }
