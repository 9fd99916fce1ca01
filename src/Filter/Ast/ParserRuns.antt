-- ===== src/Filter/Ast/ParserRuns.antt =====
-- filter_ast.rs: about `parse_tokens` on tokens that denote a tree.
use doka_one.Prelude.{
  ℕ, zero, suc, ◌+◌, ◌-◌, ◌≤◌, ◌≡◌, refl, ap, subst, ◌∙◌, some, [], ◌∷◌, ◌++◌, Text, length,
  length-append, get_elem?, arith, ok,
}
use doka_one.Filter.Token.{
  LogicalOperator, ComparisonOperator, Token, Tokens, attribute, operator, value_int, value_string,
  value_bool, binary_logical_operator, condition_open, condition_close, logical_open, logical_close,
}
use doka_one.Filter.Lexer.Pieces.{Lexed}
use doka_one.Filter.Ast.Tree.{FilterValue, FilterExpressionAst, condition, logical, nil, cons}
use doka_one.Filter.Ast.Parser.{
  Cursor, SubParser, expect_attribute, expect_operator, expect_value, parse_condition,
  expect_logical_operator, expect_closing, expect_opening, parse_logical, parse_tokens_with_index,
  parse_tokens,
}
use doka_one.Filter.Ast.Denotes.{
  IsValueOf, IsOpening, Denotes-IsOpening, Denotes, denotes_condition, denotes_logical, Stands,
  Stands-append, Stands-self,
}

abbrev at : ℕ → ℕ → Cursor
at i k = record { index = i; keys = k }

ok-at :
    {tree : FilterExpressionAst} {n i j : ℕ}
    → i ≡ j
    → ◌≡◌ {A = Lexed (FilterExpressionAst × Cursor)} (ok (tree, at i n)) (ok (tree, at j n))
ok-at {tree} {n} e = ap (λ i. ok (tree, at i n)) e

module _ (uuid8 : ℕ → Text) (tokens : Tokens) where
  expect_value-found :
      (t : Token) (v : FilterValue) (i : ℕ)
      → IsValueOf t v
      → get_elem? tokens i ≡ some t
      → expect_value i (get_elem? tokens i) ≡ ok v
  unfolding expect_value
  expect_value-found (value_int a p) v i h e = rw (e, h) refl
  expect_value-found (value_string a p) v i h e = rw (e, h) refl
  expect_value-found (value_bool a p) v i h e = rw (e, h) refl
  expect_value-found (attribute _ _) v i h e = absurd h
  expect_value-found (operator _ _) v i h e = absurd h
  expect_value-found (binary_logical_operator _ _) v i h e = absurd h
  expect_value-found (condition_open _) v i h e = absurd h
  expect_value-found (condition_close _) v i h e = absurd h
  expect_value-found (logical_open _) v i h e = absurd h
  expect_value-found (logical_close _) v i h e = absurd h

  expect_opening-found :
      (t : Token) (i : ℕ)
      → IsOpening t
      → get_elem? tokens i ≡ some t
      → expect_opening i (get_elem? tokens i) ≡ ok tt
  unfolding expect_opening
  expect_opening-found (condition_open p) i h e = rw (e) refl
  expect_opening-found (logical_open p) i h e = rw (e) refl
  expect_opening-found (attribute _ _) i h e = absurd h
  expect_opening-found (operator _ _) i h e = absurd h
  expect_opening-found (binary_logical_operator _ _) i h e = absurd h
  expect_opening-found (condition_close _) i h e = absurd h
  expect_opening-found (value_int _ _) i h e = absurd h
  expect_opening-found (value_string _ _) i h e = absurd h
  expect_opening-found (value_bool _ _) i h e = absurd h
  expect_opening-found (logical_close _) i h e = absurd h

  expect_attribute-found :
      {a : Text} {p : ℕ} (i : ℕ)
      → get_elem? tokens i ≡ some (attribute a p)
      → expect_attribute i (get_elem? tokens i) ≡ ok a
  unfolding expect_attribute
  expect_attribute-found i e = rw (e) refl

  expect_operator-found :
      {o : ComparisonOperator} {p : ℕ} (i : ℕ)
      → get_elem? tokens i ≡ some (operator o p)
      → expect_operator i (get_elem? tokens i) ≡ ok o
  unfolding expect_operator
  expect_operator-found i e = rw (e) refl

  expect_logical_operator-found :
      {o : LogicalOperator} {p : ℕ} (i : ℕ)
      → get_elem? tokens i ≡ some (binary_logical_operator o p)
      → expect_logical_operator i (get_elem? tokens i) ≡ ok o
  unfolding expect_logical_operator
  expect_logical_operator-found i e = rw (e) refl

  expect_closing-found :
      {p : ℕ} (i : ℕ)
      → get_elem? tokens i ≡ some (logical_close p)
      → expect_closing i (get_elem? tokens i) ≡ ok tt
  unfolding expect_closing
  expect_closing-found i e = rw (e) refl

  parse_condition-found :
      {a : Text} {o : ComparisonOperator} {t : Token} {v : FilterValue} (i k p q r s : ℕ)
      → IsValueOf t v
      → Stands tokens i
          (condition_open p ∷ attribute a q ∷ operator o r ∷ t ∷ condition_close s ∷ [])
      → parse_condition uuid8 tokens (at i k)
        ≡ ok (
          condition (record { key = uuid8 k; attribute = a; operator = o; value = v }),
          at (i + 4) (k + 1),
        )
  unfolding parse_condition
  parse_condition-found {o = o} {t} {v} i k p q r s h (e0, (e1, (e2, (e3, _)))) =
      let two : i + 1 + 1 ≡ i + 2 = omega arith in
      let three : i + 1 + 1 + 1 ≡ i + 3 = omega arith in
      rw
        (
          expect_attribute-found (i + 1) e1,
          expect_operator-found (i + 2)
              (subst (λ n. get_elem? tokens n ≡ some (operator o r)) two e2),
          expect_value-found t v (i + 3) h (subst (λ n. get_elem? tokens n ≡ some t) three e3),
        )
        refl

  -- One operation, from what `sub` does on its two operands.
  parse_logical-found :
      {k m n : ℕ} {l r : FilterExpressionAst} {o : LogicalOperator} (xs ys : Tokens)
      (sub : SubParser) (i p q s : ℕ)
      → Denotes uuid8 k xs l m
      → Stands tokens i
          (logical_open p ∷ (xs ++ binary_logical_operator o q ∷ (ys ++ logical_close s ∷ [])))
      → (Stands tokens (i + 1) xs → sub (at (i + 1) k) ≡ ok (l, at (i + length xs) m))
      → (Stands tokens (i + length xs + 1 + 1) ys
          → sub (at (i + length xs + 1 + 1) m) ≡ ok (r, at (i + length xs + 1 + length ys) n))
      → parse_logical tokens sub (at i k)
        ≡ ok (logical o (cons l (cons r nil)), at (i + length xs + 1 + length ys + 1) n)
  unfolding parse_logical
  parse_logical-found {o = o} xs ys sub i p q s dl (_, st) left right =
      let (sx, rest) =
        Stands-append tokens (i + 1) xs (binary_logical_operator o q ∷ (ys ++ logical_close s ∷ []))
          st in
      let at_operator : i + 1 + length xs ≡ i + length xs + 1 = omega arith in
      let (so, rest') =
        subst (λ n. Stands tokens n (binary_logical_operator o q ∷ (ys ++ logical_close s ∷ [])))
          at_operator rest in
      let (sy, closing) =
        Stands-append tokens (i + length xs + 1 + 1) ys (logical_close s ∷ []) rest' in
      let at_closing : i + length xs + 1 + 1 + length ys ≡ i + length xs + 1 + length ys + 1 =
        omega arith in
      let (sc, _) = subst (λ n. Stands tokens n (logical_close s ∷ [])) at_closing closing in
      let (x, zs, e, opening) = Denotes-IsOpening dl in
      let first = subst (λ us. Stands tokens (i + 1) us) e sx in
      rw
        (
          expect_opening-found x (i + 1) opening first.0,
          left sx,
          expect_logical_operator-found (i + length xs + 1) so,
          right sy,
          expect_closing-found (i + length xs + 1 + length ys + 1) sc,
        )
        refl

  -- The index `j` that is reached is that of the last token.
  parse_tokens_with_index-Denotes :
      {k n : ℕ} {xs : Tokens} {tree : FilterExpressionAst} (f i j : ℕ)
      → Denotes uuid8 k xs tree n
      → Stands tokens i xs
      → length xs ≤ f
      → j + 1 ≡ i + length xs
      → parse_tokens_with_index f uuid8 tokens (at i k) ≡ ok (tree, at j n)
  unfolding parse_tokens_with_index
  parse_tokens_with_index-Denotes zero i j (denotes_condition p q r s v e) st le last =
      absurd (omega (arith, ap length e))
  parse_tokens_with_index-Denotes zero i j (denotes_logical p q s l r e) st le last =
      absurd (omega (arith, ap length e))
  parse_tokens_with_index-Denotes {k} (suc f) i j (denotes_condition p q r s v e) st le last =
      let st' = subst (Stands tokens i) e st in
      let there : i + 4 ≡ j = omega (arith, ap length e) in
      rw (parse_tokens_with_index, st'.0) (parse_condition-found i k p q r s v st' ∙ ok-at there)
  parse_tokens_with_index-Denotes {k} {n} (suc f) i j
        (denotes_logical {xs = xs} {ys} {o = o} p q s l r e) st le last =
      let st' = subst (Stands tokens i) e st in
      let long = ap length e in
      let long' =
        length-append {0} xs (binary_logical_operator o q ∷ (ys ++ logical_close s ∷ [])) in
      let long'' = length-append {0} ys (logical_close s ∷ []) in
      let there : i + length xs + 1 + length ys + 1 ≡ j = omega (arith, long, long', long'') in
      rw (parse_tokens_with_index, st'.0)
        (parse_logical-found xs ys (parse_tokens_with_index f uuid8 tokens) i p q s l st'
            (λ sx.
              parse_tokens_with_index-Denotes f (i + 1) (i + length xs) l sx
                (omega (arith, long, long', long'')) (omega arith))
            (λ sy.
              parse_tokens_with_index-Denotes f (i + length xs + 1 + 1)
                (i + length xs + 1 + length ys) r sy (omega (arith, long, long', long''))
                (omega arith))
          ∙ ok-at there)

-- Where tokens denote a tree, `parse_tokens` returns that tree, with keys given out from left to
-- right, whatever tokens follow.
pub parse_tokens-Denotes :
    (uuid8 : ℕ → Text) {xs : Tokens} {tree : FilterExpressionAst} {n : ℕ} (rest : Tokens)
    → Denotes uuid8 0 xs tree n
    → parse_tokens uuid8 (xs ++ rest) ≡ ok tree
unfolding parse_tokens
parse_tokens-Denotes uuid8 {xs} rest d =
    let (x, zs, e, _) = Denotes-IsOpening d in
    let stands = (Stands-append (xs ++ rest) 0 xs rest (Stands-self (xs ++ rest))).0 in
    rw
      (parse_tokens_with_index-Denotes uuid8 (xs ++ rest) (length (xs ++ rest) + 1) 0
        (length xs - 1) d stands (omega (arith, length-append {0} xs rest))
        (omega (arith, ap length e)))
      refl
