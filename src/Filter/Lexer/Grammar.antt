-- ===== src/Filter/Lexer/Grammar.antt =====
-- The token lists that the lexer can return: operators, conditions of three tokens, and balanced
-- groups in parentheses.
use doka_one.Prelude.{ℕ, [], ◌∷◌, ◌++◌, Text, ◌≡◌, refl, sym, subst, append_assoc, drop_last}
use doka_one.Filter.Token.{
  LogicalOperator, ComparisonOperator, Token, Tokens, attribute, operator, value_int, value_string,
  value_bool, binary_logical_operator, logical_open, logical_close,
}

abbrev pub IsValue : Token → Type 0
IsValue (value_int _ _) = Unit
IsValue (value_string _ _) = Unit
IsValue (value_bool _ _) = Unit
IsValue _ = ⊥

pub data IsItems : Tokens → Type 0 where
  none : IsItems []
  lop :
      {o : LogicalOperator} {p : ℕ} {ts : Tokens}
      → IsItems ts
      → IsItems (binary_logical_operator o p ∷ ts)
  cond :
      {a : Text} {o : ComparisonOperator} {v : Token} {p q : ℕ} {ts : Tokens}
      → IsValue v
      → IsItems ts
      → IsItems (attribute a p ∷ operator o q ∷ v ∷ ts)
  group :
      {xs ts us : Tokens} {p : ℕ} (q : ℕ)
      → IsItems xs
      → IsItems ts
      → us ≡ xs ++ (logical_close q ∷ ts)
      → IsItems (logical_open p ∷ us)

pub IsItems-append : {xs ys : Tokens} → IsItems xs → IsItems ys → IsItems (xs ++ ys)
IsItems-append none k = k
IsItems-append (lop h) k = lop (IsItems-append h k)
IsItems-append (cond v h) k = cond v (IsItems-append h k)
IsItems-append {ys = ys} (group {xs} {ts} q hx h e) k =
    group q hx (IsItems-append h k) (rw e (append_assoc xs (logical_close q ∷ ts) ys))

-- A parenthesised expression.
pub data IsGroup : Tokens → Type 0 where
  grouped :
      {us xs : Tokens} (p q : ℕ)
      → IsItems xs
      → us ≡ logical_open p ∷ (xs ++ logical_close q ∷ [])
      → IsGroup us

pub IsGroup-IsItems : {us : Tokens} → IsGroup us → IsItems us
IsGroup-IsItems (grouped p q h e) = subst IsItems (sym e) (group q h none refl)

-- The tokens of one condition.
pub data IsCondition : Tokens → Type 0 where
  triple :
      {us : Tokens} (a : Text) (o : ComparisonOperator) (v : Token) (p q : ℕ)
      → IsValue v
      → us ≡ attribute a p ∷ operator o q ∷ v ∷ []
      → IsCondition us

pub IsCondition-IsItems : {us : Tokens} → IsCondition us → IsItems us
IsCondition-IsItems (triple a o v p q h e) = subst IsItems (sym e) (cond h none)

pub drop_last-append : (xs : Tokens) (t : Token) → drop_last (xs ++ t ∷ []) ≡ xs
drop_last-append [] t = refl
drop_last-append (x ∷ []) t = refl
drop_last-append (x ∷ y ∷ ys) t = rw (drop_last-append (y ∷ ys) t)
