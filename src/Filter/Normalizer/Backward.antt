-- ===== src/Filter/Normalizer/Backward.antt =====
-- `check_backward` over tokens in which every operation has its delimiters.
use doka_one.Prelude.{
  ℕ, suc, ◌+◌, ◌≡◌, refl, sym, ap, subst, ◌∙◌, true, some, [], ◌∷◌, Text, length, get_elem?, arith,
}
use doka_one.Filter.Token.{
  ComparisonOperator, Token, Tokens, attribute, operator, value_int, value_string, value_bool,
  binary_logical_operator, condition_open, condition_close, logical_open, logical_close,
  is_logical_open,
}
use doka_one.Filter.Ast.Tree.{FilterValue, FilterExpressionAst}
use doka_one.Filter.Ast.Denotes.{IsValueOf, Denotes, denotes_condition, denotes_logical, Stands}
use doka_one.Filter.Normalizer.N2.{check_logical_open_delimiter}
use doka_one.Filter.Normalizer.N3.{
  CheckLogicalBoundary, with_logical, boundary, opens_before, check_backward, at_lowering,
  at_condition, lower,
}
use doka_one.Filter.Normalizer.Delimited.{
  IsPlain, IsValueOf-IsPlain, end_of_operation, Stands-Parts,
}

module _ (tokens : Tokens) (start : ℕ) where
  abbrev backward : ℕ → ℕ → CheckLogicalBoundary
  backward = check_backward tokens start

  -- A token at `i`, read at `i + 1`.
  back : (i d : ℕ) {b : CheckLogicalBoundary} → backward (suc i) d ≡ b → backward (i + 1) d ≡ b
  back i d {b} e = let next : suc i ≡ i + 1 = omega arith in subst (λ n. backward n d ≡ b) next e

  back_plain :
      (t : Token) (i d : ℕ)
      → IsPlain t
      → get_elem? tokens i ≡ some t
      → backward (i + 1) d ≡ backward i d
  unfolding check_backward
  back_plain (attribute _ _) i d h e = back i d (rw (check_backward, e) refl)
  back_plain (operator _ _) i d h e = back i d (rw (check_backward, e) refl)
  back_plain (value_int _ _) i d h e = back i d (rw (check_backward, e) refl)
  back_plain (value_string _ _) i d h e = back i d (rw (check_backward, e) refl)
  back_plain (value_bool _ _) i d h e = back i d (rw (check_backward, e) refl)
  back_plain (binary_logical_operator _ _) i d h e = back i d (rw (check_backward, e) refl)
  back_plain _ i d h e = absurd h

  back_condition_close :
      (p i d : ℕ)
      → get_elem? tokens i ≡ some (condition_close p)
      → backward (i + 1) d ≡ backward i d
  unfolding check_backward
  back_condition_close p i d e = back i d (rw (check_backward, e) refl)

  back_condition_open :
      (p i d : ℕ)
      → get_elem? tokens i ≡ some (condition_open p)
      → backward (i + 1) d ≡ at_condition i d (opens_before tokens i) (backward i d)
  unfolding check_backward
  back_condition_open p i d e = back i d (rw (check_backward, e) refl)

  back_logical_close :
      (p i d : ℕ)
      → get_elem? tokens i ≡ some (logical_close p)
      → backward (i + 1) d ≡ backward i (suc d)
  unfolding check_backward
  back_logical_close p i d e = back i d (rw (check_backward, e) refl)

  back_logical_open :
      (p i d : ℕ)
      → get_elem? tokens i ≡ some (logical_open p)
      → backward (i + 1) d ≡ at_lowering start i d (opens_before tokens i) (backward i (lower d))
  unfolding check_backward
  back_logical_open p i d e = back i d (rw (check_backward, e) refl)

  moved : (d : ℕ) {m n : ℕ} → m ≡ n → backward n d ≡ backward m d
  moved d e = ap (λ n. backward n d) (sym e)

  -- Backward over a condition, to its opening delimiter.
  back_condition :
      {a : Text} {o : ComparisonOperator} (t : Token) (v : FilterValue) (p q r s i d : ℕ)
      → IsValueOf t v
      → Stands tokens i
          (condition_open p ∷ attribute a q ∷ operator o r ∷ t ∷ condition_close s ∷ [])
      → backward (i + 1 + 1 + 1 + 1 + 1) d ≡ at_condition i d (opens_before tokens i) (backward i d)
  back_condition {a} {o} t v p q r s i d h (e0, (e1, (e2, (e3, (e4, _))))) =
      back_condition_close s (i + 1 + 1 + 1 + 1) d e4
      ∙ back_plain t (i + 1 + 1 + 1) d (IsValueOf-IsPlain t v h) e3
      ∙ back_plain (operator o r) (i + 1 + 1) d tt e2
      ∙ back_plain (attribute a q) (i + 1) d tt e1
      ∙ back_condition_open p i d e0

  -- Backward over tokens that denote a tree, inside of something: the depth is what it was.
  back_over :
      {uuid8 : ℕ → Text} {k m : ℕ} {xs : Tokens} {tree : FilterExpressionAst} (i d : ℕ)
      → Denotes uuid8 k xs tree m
      → Stands tokens i xs
      → backward (i + length xs) (suc d) ≡ backward i (suc d)
  unfolding at_condition at_lowering
  back_over {xs = us} i d (denotes_condition p q r s v e) st =
      let there : i + 1 + 1 + 1 + 1 + 1 ≡ i + length us = omega (arith, ap length e) in
      moved (suc d) there ∙ back_condition _ _ p q r s i (suc d) v (subst (Stands tokens i) e st)
  back_over i d (denotes_logical {xs = xs} {ys} {o = o} p q s l r e) st =
      let parts = Stands-Parts tokens i xs ys o p q s (subst (Stands tokens i) e st) in
      moved (suc d) (end_of_operation i xs ys o p q s e)
      ∙ back_logical_close s (i + 1 + length xs + 1 + length ys) (suc d) parts.closing
      ∙ back_over (i + 1 + length xs + 1) (suc d) r parts.right
      ∙ back_plain (binary_logical_operator o q) (i + 1 + length xs) (suc (suc d)) tt parts.middle
      ∙ back_over (i + 1) (suc d) l parts.left
      ∙ back_logical_open p i (suc (suc d)) parts.opening

  opens_before-found :
      (q i : ℕ) → get_elem? tokens i ≡ some (logical_open q) → opens_before tokens (i + 1) ≡ true
  unfolding opens_before check_logical_open_delimiter is_logical_open
  opens_before-found q i e =
      let next : suc i ≡ i + 1 = omega arith in
      subst (λ n. opens_before tokens n ≡ true) next
        (rw (opens_before, check_logical_open_delimiter, e) refl)

  -- Backward over the left operand of an operation that begins at `i`: an operation's delimiter is
  -- found.
  pub back_operand :
      {uuid8 : ℕ → Text} {k m : ℕ} {xs : Tokens} {tree : FilterExpressionAst} (q i : ℕ)
      → get_elem? tokens i ≡ some (logical_open q)
      → Denotes uuid8 k xs tree m
      → Stands tokens (i + 1) xs
      → (backward (i + 1 + length xs) 0).boundary_type ≡ with_logical
  unfolding at_condition at_lowering
  back_operand {xs = us} q i e' (denotes_condition p q' r s v e) st =
      let there : i + 1 + 1 + 1 + 1 + 1 + 1 ≡ i + 1 + length us = omega (arith, ap length e) in
      ap (λ b. b.boundary_type)
        (moved 0 there
          ∙ back_condition _ _ p q' r s (i + 1) 0 v (subst (Stands tokens (i + 1)) e st))
      ∙ rw (opens_before-found q i e') refl
  back_operand q i e' (denotes_logical {xs = xs} {ys} {o = o} p q' s l r e) st =
      let j = i + 1 in
      let parts = Stands-Parts tokens j xs ys o p q' s (subst (Stands tokens j) e st) in
      let last : at_lowering start j 1 (opens_before tokens j) (backward j 0)
          ≡ boundary start with_logical =
        rw (opens_before-found q i e') (back_logical_open q i 0 e') in
      ap (λ b. b.boundary_type)
        (moved 0 (end_of_operation j xs ys o p q' s e)
          ∙ back_logical_close s (j + 1 + length xs + 1 + length ys) 0 parts.closing
          ∙ back_over (j + 1 + length xs + 1) 0 r parts.right
          ∙ back_plain (binary_logical_operator o q') (j + 1 + length xs) 1 tt parts.middle
          ∙ back_over (j + 1) 0 l parts.left
          ∙ back_logical_open p j 1 parts.opening
          ∙ last)
