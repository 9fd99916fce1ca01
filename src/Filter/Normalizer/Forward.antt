-- ===== src/Filter/Normalizer/Forward.antt =====
-- `check_forward` over tokens in which every operation has its delimiters.
use doka_one.Prelude.{
  ℕ, suc, ◌+◌, ◌≡◌, refl, sym, ap, subst, ◌∙◌, Bool, true, some, [], ◌∷◌, Text, length, get_elem?,
  arith,
}
use doka_one.Filter.Token.{
  ComparisonOperator, Token, Tokens, attribute, operator, value_int, value_string, value_bool,
  binary_logical_operator, condition_open, condition_close, logical_open, logical_close,
  is_logical_close,
}
use doka_one.Filter.Ast.Tree.{FilterValue, FilterExpressionAst}
use doka_one.Filter.Ast.Denotes.{IsValueOf, Denotes, denotes_condition, denotes_logical, Stands}
use doka_one.Filter.Normalizer.N2.{check_logical_close_delimiter}
use doka_one.Filter.Normalizer.N3.{
  CheckLogicalBoundary, with_logical, boundary, check_forward, at_lowering, at_condition, lower,
}
use doka_one.Filter.Normalizer.Delimited.{
  IsPlain, IsValueOf-IsPlain, end_of_operation, Stands-Parts,
}

module _ (tokens : Tokens) (start : ℕ) where
  abbrev forward : ℕ → ℕ → ℕ → CheckLogicalBoundary
  forward = check_forward tokens start

  abbrev closes : ℕ → Bool
  closes = check_logical_close_delimiter tokens

  forth_plain :
      (t : Token) (n i d : ℕ)
      → IsPlain t
      → get_elem? tokens i ≡ some t
      → forward (suc n) i d ≡ forward n (i + 1) d
  unfolding check_forward
  forth_plain (attribute _ _) n i d h e = rw (check_forward, e) refl
  forth_plain (operator _ _) n i d h e = rw (check_forward, e) refl
  forth_plain (value_int _ _) n i d h e = rw (check_forward, e) refl
  forth_plain (value_string _ _) n i d h e = rw (check_forward, e) refl
  forth_plain (value_bool _ _) n i d h e = rw (check_forward, e) refl
  forth_plain (binary_logical_operator _ _) n i d h e = rw (check_forward, e) refl
  forth_plain _ n i d h e = absurd h

  forth_condition_open :
      (p n i d : ℕ)
      → get_elem? tokens i ≡ some (condition_open p)
      → forward (suc n) i d ≡ forward n (i + 1) d
  unfolding check_forward
  forth_condition_open p n i d e = rw (check_forward, e) refl

  forth_condition_close :
      (p n i d : ℕ)
      → get_elem? tokens i ≡ some (condition_close p)
      → forward (suc n) i d ≡ at_condition (i + 1) d (closes (i + 1)) (forward n (i + 1) d)
  unfolding check_forward
  forth_condition_close p n i d e = rw (check_forward, e) refl

  forth_logical_open :
      (p n i d : ℕ)
      → get_elem? tokens i ≡ some (logical_open p)
      → forward (suc n) i d ≡ forward n (i + 1) (suc d)
  unfolding check_forward
  forth_logical_open p n i d e = rw (check_forward, e) refl

  forth_logical_close :
      (p n i d : ℕ)
      → get_elem? tokens i ≡ some (logical_close p)
      → forward (suc n) i d
        ≡ at_lowering start (i + 1) d (closes (i + 1)) (forward n (i + 1) (lower d))
  unfolding check_forward
  forth_logical_close p n i d e = rw (check_forward, e) refl

  fewer : (i d : ℕ) {m n : ℕ} → m ≡ n → forward n i d ≡ forward m i d
  fewer i d e = ap (λ n. forward n i d) (sym e)

  moved : (n d : ℕ) {i j : ℕ} → i ≡ j → forward n i d ≡ forward n j d
  moved n d e = ap (λ i. forward n i d) e

  -- Forward over a condition, to its closing delimiter.
  forth_condition :
      {a : Text} {o : ComparisonOperator} (t : Token) (v : FilterValue) (p q r s n i d : ℕ)
      → IsValueOf t v
      → Stands tokens i
          (condition_open p ∷ attribute a q ∷ operator o r ∷ t ∷ condition_close s ∷ [])
      → let j = i + 1 + 1 + 1 + 1 + 1 in
        forward (suc (suc (suc (suc (suc n))))) i d ≡ at_condition j d (closes j) (forward n j d)
  forth_condition {a} {o} t v p q r s n i d h (e0, (e1, (e2, (e3, (e4, _))))) =
      forth_condition_open p _ i d e0
      ∙ forth_plain (attribute a q) _ (i + 1) d tt e1
      ∙ forth_plain (operator o r) _ (i + 1 + 1) d tt e2
      ∙ forth_plain t _ (i + 1 + 1 + 1) d (IsValueOf-IsPlain t v h) e3
      ∙ forth_condition_close s n (i + 1 + 1 + 1 + 1) d e4

  -- Forward over tokens that denote a tree, inside of something: the depth is what it was.
  forth_over :
      {uuid8 : ℕ → Text} {k m : ℕ} {xs : Tokens} {tree : FilterExpressionAst} (n i d : ℕ)
      → Denotes uuid8 k xs tree m
      → Stands tokens i xs
      → forward (length xs + n) i (suc d) ≡ forward n (i + length xs) (suc d)
  unfolding at_condition at_lowering
  forth_over {xs = us} n i d (denotes_condition p q r s v e) st =
      let there : i + 1 + 1 + 1 + 1 + 1 ≡ i + length us = omega (arith, ap length e) in
      let long : suc (suc (suc (suc (suc n)))) ≡ length us + n = omega (arith, ap length e) in
      fewer i (suc d) long
      ∙ forth_condition _ _ p q r s n i (suc d) v (subst (Stands tokens i) e st)
      ∙ moved n (suc d) there
  forth_over {xs = us} n i d (denotes_logical {xs = xs} {ys} {o = o} p q s l r e) st =
      let parts = Stands-Parts tokens i xs ys o p q s (subst (Stands tokens i) e st) in
      let there = end_of_operation i xs ys o p q s e in
      let long : suc (length xs + suc (length ys + suc n)) ≡ length us + n = omega (arith, there) in
      fewer i (suc d) long
      ∙ forth_logical_open p _ i (suc d) parts.opening
      ∙ forth_over (suc (length ys + suc n)) (i + 1) (suc d) l parts.left
      ∙ forth_plain (binary_logical_operator o q) _ (i + 1 + length xs) (suc (suc d)) tt
          parts.middle
      ∙ forth_over (suc n) (i + 1 + length xs + 1) (suc d) r parts.right
      ∙ forth_logical_close s n (i + 1 + length xs + 1 + length ys) (suc (suc d)) parts.closing
      ∙ moved n (suc d) there

  closes-found : (q i : ℕ) → get_elem? tokens i ≡ some (logical_close q) → closes i ≡ true
  unfolding check_logical_close_delimiter is_logical_close
  closes-found q i e = rw (check_logical_close_delimiter, e) refl

  -- Forward over the right operand of an operation that ends behind it: the operation's delimiter
  -- is found.
  pub forth_operand :
      {uuid8 : ℕ → Text} {k m : ℕ} {xs : Tokens} {tree : FilterExpressionAst} (q n i : ℕ)
      → get_elem? tokens (i + length xs) ≡ some (logical_close q)
      → Denotes uuid8 k xs tree m
      → Stands tokens i xs
      → (forward (length xs + suc n) i 0).boundary_type ≡ with_logical
  unfolding at_condition at_lowering
  forth_operand {xs = us} q n i e' (denotes_condition p q' r s v e) st =
      let there : i + length us ≡ i + 1 + 1 + 1 + 1 + 1 = omega (arith, ap length e) in
      let long : suc (suc (suc (suc (suc (suc n))))) ≡ length us + suc n =
        omega (arith, ap length e) in
      ap (λ b. b.boundary_type)
        (fewer i 0 long ∙ forth_condition _ _ p q' r s (suc n) i 0 v (subst (Stands tokens i) e st))
      ∙ rw (subst (λ j. closes j ≡ true) there (closes-found q (i + length us) e')) refl
  forth_operand {xs = us} q n i e' (denotes_logical {xs = xs} {ys} {o = o} p q' s l r e) st =
      let parts = Stands-Parts tokens i xs ys o p q' s (subst (Stands tokens i) e st) in
      let there = end_of_operation i xs ys o p q' s e in
      let long : suc (length xs + suc (length ys + suc (suc n))) ≡ length us + suc n =
        omega (arith, there) in
      let closing = subst (λ j. get_elem? tokens j ≡ some (logical_close q)) (sym there) e' in
      let j = i + 1 + length xs + 1 + length ys + 1 in
      let last : at_lowering start j 1 (closes j) (forward (suc n) j 0)
          ≡ boundary start with_logical =
        rw (closes-found q j closing) (forth_logical_close q n j 0 closing) in
      ap (λ b. b.boundary_type)
        (fewer i 0 long
          ∙ forth_logical_open p _ i 0 parts.opening
          ∙ forth_over (suc (length ys + suc (suc n))) (i + 1) 0 l parts.left
          ∙ forth_plain (binary_logical_operator o q') _ (i + 1 + length xs) 1 tt parts.middle
          ∙ forth_over (suc (suc n)) (i + 1 + length xs + 1) 0 r parts.right
          ∙ forth_logical_close s (suc n) (i + 1 + length xs + 1 + length ys) 1 parts.closing
          ∙ last)
