-- ===== src/Filter/Normalizer/Fixed.antt =====
-- filter_normalizer.rs: about the pass `n3` on tokens in which every operation has its delimiters.
use doka_one.Prelude.{
  ℕ, suc, ◌+◌, ◌-◌, ◌≡◌, refl, sym, ap, subst, ◌∙◌, Bool, true, false, Option, none, [], ◌∷◌, ◌++◌,
  Text, length, arith, ok, append_assoc, append-nil, if◌then◌else◌,
}
use doka_one.Filter.Token.{
  LogicalOperator, land, lor, ComparisonOperator, Token, Tokens, attribute, operator, value_int,
  value_string, value_bool, binary_logical_operator, condition_open, condition_close, logical_close,
}
use doka_one.Filter.Lexer.ConditionRounds.{get_elem?-lt}
use doka_one.Filter.Ast.Tree.{FilterValue, FilterExpressionAst}
use doka_one.Filter.Ast.Denotes.{
  IsValueOf, Denotes, denotes_condition, denotes_logical, Stands, Stands-self,
}
use doka_one.Filter.Normalizer.N3.{
  BoundaryType, with_logical, check_forward, check_binary_logical_operator, inserting_of,
  find_next_from, find_next_ajustable, n3_for_op, n3_binary_logical_operator,
}
use doka_one.Filter.Normalizer.Delimited.{end_of_operation, Parts, Stands-Parts}
use doka_one.Filter.Normalizer.Backward.{back_operand}
use doka_one.Filter.Normalizer.Forward.{forth_operand}

inserting_of-none :
    (b c : BoundaryType) (l r : ℕ)
    → b ≡ with_logical
    → c ≡ with_logical
    → inserting_of b c l r ≡ none
unfolding inserting_of
inserting_of-none b c l r e e' = rw (e, e') refl

if-same {ℓ} : {A : Type ℓ} (b : Bool) (x : A) → (if b then x else x) ≡ x
if-same true x = refl
if-same false x = refl

module _ (tokens : Tokens) (for_lop : LogicalOperator) where
  abbrev find_in : Tokens → ℕ → Option (ℕ × ℕ)
  find_in = find_next_from tokens for_lop

  -- The operator of an operation that has its delimiters wants no others.
  check_binary_logical_operator-none :
      {uuid8 : ℕ → Text} {k m n : ℕ} {l r : FilterExpressionAst} (i : ℕ) (xs ys : Tokens)
      (o : LogicalOperator) (p q s : ℕ)
      → Denotes uuid8 k xs l m
      → Denotes uuid8 m ys r n
      → Parts tokens i xs ys o p q s
      → check_binary_logical_operator tokens (i + 1 + length xs) ≡ none
  unfolding check_binary_logical_operator
  check_binary_logical_operator-none i xs ys o p q s dl dr parts =
      let at = i + 1 + length xs in
      let lt = get_elem?-lt tokens (at + 1 + length ys) parts.closing in
      let n = length tokens - (at + 1) - length ys - 1 in
      let left : length ys + suc n ≡ length tokens - (at + 1) = omega (arith, lt) in
      inserting_of-none _ _ _ _ (back_operand tokens at p i parts.opening dl parts.left) (
        subst (λ f. (check_forward tokens at f (at + 1) 0).boundary_type ≡ with_logical) left
          (forth_operand tokens at s n (at + 1) parts.closing dr parts.right))

  find_operator :
      (o : LogicalOperator) (q at : ℕ) (ts : Tokens)
      → check_binary_logical_operator tokens at ≡ none
      → find_in (binary_logical_operator o q ∷ ts) at ≡ find_in ts (at + 1)
  unfolding find_next_from
  find_operator o q at ts e = rw (find_next_from, e) (if-same _ _)

  find_value :
      (t : Token) (v : FilterValue) (at : ℕ) (ts : Tokens)
      → IsValueOf t v
      → find_in (t ∷ ts) at ≡ find_in ts (at + 1)
  unfolding find_next_from
  find_value (value_int _ _) v at ts h = refl
  find_value (value_string _ _) v at ts h = refl
  find_value (value_bool _ _) v at ts h = refl
  find_value _ v at ts h = absurd h

  find_condition :
      (a : Text) (o : ComparisonOperator) (t : Token) (v : FilterValue) (p q r s i : ℕ)
      (rest : Tokens)
      → IsValueOf t v
      → find_in (condition_open p ∷ attribute a q ∷ operator o r ∷ t ∷ condition_close s ∷ rest) i
        ≡ find_in rest (i + 1 + 1 + 1 + 1 + 1)
  unfolding find_next_from
  find_condition a o t v p q r s i rest h =
      find_value t v (i + 1 + 1 + 1) (condition_close s ∷ rest) h

  -- No operator of tokens that denote a tree is found.
  find_over :
      {uuid8 : ℕ → Text} {k m : ℕ} {xs : Tokens} {tree : FilterExpressionAst} (i : ℕ)
      (rest : Tokens)
      → Denotes uuid8 k xs tree m
      → Stands tokens i xs
      → find_in (xs ++ rest) i ≡ find_in rest (i + length xs)
  unfolding find_next_from
  find_over {xs = us} i rest (denotes_condition {a = a} {o} {t} {v} p q r s h e) st =
      let there : i + 1 + 1 + 1 + 1 + 1 ≡ i + length us = omega (arith, ap length e) in
      ap (λ us. find_in (us ++ rest) i) e
      ∙ find_condition a o t v p q r s i rest h
      ∙ ap (find_in rest) there
  find_over {xs = us} i rest (denotes_logical {xs = xs} {ys} {o = o} p q s l r e) st =
      let parts = Stands-Parts tokens i xs ys o p q s (subst (Stands tokens i) e st) in
      ap (λ us. find_in (us ++ rest) i) e
      ∙ ap (λ ts. find_in ts (i + 1))
          (append_assoc xs (binary_logical_operator o q ∷ (ys ++ logical_close s ∷ [])) rest)
      ∙ find_over (i + 1) (binary_logical_operator o q ∷ ((ys ++ logical_close s ∷ []) ++ rest)) l
          parts.left
      ∙ find_operator o q (i + 1 + length xs) ((ys ++ logical_close s ∷ []) ++ rest)
          (check_binary_logical_operator-none i xs ys o p q s l r parts)
      ∙ ap (λ ts. find_in ts (i + 1 + length xs + 1)) (append_assoc ys (logical_close s ∷ []) rest)
      ∙ find_over (i + 1 + length xs + 1) (logical_close s ∷ rest) r parts.right
      ∙ ap (find_in rest) (end_of_operation i xs ys o p q s e)

module _ {uuid8 : ℕ → Text} {k m : ℕ} {xs : Tokens} {tree : FilterExpressionAst}
    (d : Denotes uuid8 k xs tree m) where
  n3_for_op-Denotes : (f : ℕ) (for_lop : LogicalOperator) → n3_for_op (suc f) xs for_lop ≡ ok xs
  unfolding n3_for_op find_next_ajustable
  n3_for_op-Denotes f for_lop =
      let nothing : find_next_from xs for_lop xs 0 ≡ none =
        ap (λ us. find_next_from xs for_lop us 0) (sym (append-nil xs))
        ∙ find_over xs for_lop 0 [] d (Stands-self xs) in
      rw (n3_for_op, nothing) refl

-- The pass `n3` leaves tokens as they are that denote a tree: where every operation already has its
-- delimiters, none are put in.
pub n3_binary_logical_operator-Denotes :
    {uuid8 : ℕ → Text} {k m : ℕ} {xs : Tokens} {tree : FilterExpressionAst}
    → Denotes uuid8 k xs tree m
    → n3_binary_logical_operator xs ≡ ok xs
unfolding n3_binary_logical_operator
n3_binary_logical_operator-Denotes {xs = xs} d =
    let one : suc (length xs) ≡ length xs + 1 = omega arith in
    let runs = λ (o : LogicalOperator).
      subst (λ f. n3_for_op f xs o ≡ ok xs) one (n3_for_op-Denotes d (length xs) o) in
    rw (runs land, runs lor) refl
