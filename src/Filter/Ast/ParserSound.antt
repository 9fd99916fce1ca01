-- ===== src/Filter/Ast/ParserSound.antt =====
-- filter_ast.rs: about the trees that `parse_tokens` returns.
use doka_one.Prelude.{
  ℕ, zero, suc, ◌+◌, ◌-◌, ◌≤◌, ◌<◌, ◌≡◌, refl, ap, sym, subst, Option, some, [], ◌∷◌, ◌++◌, Text,
  length, length-append, get_elem?, arith, ok, Ensures, holds, rejected, Ensures-bind, Ensures-ok,
}
use doka_one.Filter.Token.{
  LogicalOperator, Token, Tokens, attribute, operator, value_int, value_string, value_bool,
  binary_logical_operator, condition_open, condition_close, logical_open, logical_close,
  opening_expected,
}
use doka_one.Filter.Lexer.Pieces.{Lexed, fail}
use doka_one.Filter.Lexer.ConditionRounds.{get_elem?-lt}
use doka_one.Filter.Lexer.Grammar.{IsValue}
use doka_one.Filter.Ast.Tree.{FilterValue, FilterExpressionAst, logical, cons, nil}
use doka_one.Filter.Ast.Parser.{
  Cursor, advance, SubParser, parse_condition, parse_logical, parse_tokens_with_index, parse_tokens,
}
use doka_one.Filter.Ast.Denotes.{
  IsValueOf, Denotes, denotes_condition, denotes_logical, Denotes-IsOpening, Stands, Stands-join,
  Stands-prefix,
}
use doka_one.Filter.Ast.ParserTotal.{
  expect_attribute-reads, expect_operator-reads, expect_value-reads, expect_logical_operator-reads,
  expect_closing-reads, expect_opening-Total,
}

-- Behind every value the condition is closed.
abbrev pub ValuesAreClosed : Tokens → Type 0
ValuesAreClosed tokens =
    (i : ℕ) (t : Token)
    → IsValue t
    → get_elem? tokens i ≡ some t
    → (q : ℕ) × (get_elem? tokens (i + 1) ≡ some (condition_close q))

IsValueOf-IsValue : (t : Token) (v : FilterValue) → IsValueOf t v → IsValue t
IsValueOf-IsValue (value_int _ _) v h = tt
IsValueOf-IsValue (value_string _ _) v h = tt
IsValueOf-IsValue (value_bool _ _) v h = tt
IsValueOf-IsValue _ v h = absurd h

module _ (uuid8 : ℕ → Text) (tokens : Tokens) (closed : ValuesAreClosed tokens) where
  -- The tokens that were read between two cursors denote the tree.
  record Read (s : Cursor) (tree : FilterExpressionAst) (t : Cursor) : Type 0 where
    read : Tokens
    stands : Stands tokens s.index read
    denotes : Denotes uuid8 s.keys read tree t.keys
    ends : s.index + length read ≡ t.index + 1

  abbrev Reads : Cursor → Lexed (FilterExpressionAst × Cursor) → Type 0
  Reads s = Ensures ⊥ (λ (tree, t). Read s tree t)

  Read-moves : {s t : Cursor} {tree : FilterExpressionAst} → Read s tree t → s.index ≤ t.index
  Read-moves h =
      let (x, zs, e, _) = Denotes-IsOpening h.denotes in omega (arith, h.ends, ap length e)

  parse_condition-Reads :
      (p : ℕ) (s : Cursor)
      → get_elem? tokens s.index ≡ some (condition_open p)
      → Reads s (parse_condition uuid8 tokens s)
  unfolding parse_condition
  parse_condition-Reads p s e0 =
      let i = s.index in
      let two : i + 2 ≡ i + 1 + 1 = omega arith in
      let three : i + 3 ≡ i + 1 + 1 + 1 = omega arith in
      Ensures-bind (expect_attribute-reads (i + 1) (get_elem? tokens (i + 1))) λ a (q, e1).
        Ensures-bind (expect_operator-reads (i + 2) (get_elem? tokens (i + 2))) λ o (r, e2).
          Ensures-bind (expect_value-reads (i + 3) (get_elem? tokens (i + 3))) λ v (t, e3, h).
            let e3' = subst (λ n. get_elem? tokens n ≡ some t) three e3 in
            let (c, e4) = closed (i + 1 + 1 + 1) t (IsValueOf-IsValue t v h) e3' in
            holds (record {
              read = condition_open p ∷ attribute a q ∷ operator o r ∷ t ∷ condition_close c ∷ [];
              stands = (
                e0,
                (
                  e1,
                  (subst (λ n. get_elem? tokens n ≡ some (operator o r)) two e2, (e3', (e4, tt))),
                ),
              );
              denotes = denotes_condition p q r c h refl;
              ends = omega arith;
            })

  parse_logical-Reads :
      (p : ℕ) (sub : SubParser) (s : Cursor)
      → get_elem? tokens s.index ≡ some (logical_open p)
      → ((t : Cursor) → s.index < t.index → Reads t (sub t))
      → Reads s (parse_logical tokens sub s)
  unfolding parse_logical
  parse_logical-Reads p sub s e0 runs =
      Ensures-bind (expect_opening-Total (s.index + 1) (get_elem? tokens (s.index + 1))) λ _ _.
        Ensures-bind (runs (advance s) (omega arith)) λ (left, l) hl.
          Ensures-bind
            (expect_logical_operator-reads (l.index + 1) (get_elem? tokens (l.index + 1)))
            λ o (q, eo).
              Ensures-bind (runs (advance (advance l)) (omega (arith, Read-moves hl)))
                λ (right, r) hr.
                  Ensures-bind (expect_closing-reads (r.index + 1) (get_elem? tokens (r.index + 1)))
                    λ _ (c, ec). holds (operation p q c s l r o e0 hl eo hr ec)
    where
      operation :
          {left right : FilterExpressionAst} (p q c : ℕ) (s l r : Cursor) (o : LogicalOperator)
          → get_elem? tokens s.index ≡ some (logical_open p)
          → Read (advance s) left l
          → get_elem? tokens (l.index + 1) ≡ some (binary_logical_operator o q)
          → Read (advance (advance l)) right r
          → get_elem? tokens (r.index + 1) ≡ some (logical_close c)
          → Read s (logical o (cons left (cons right nil))) (advance r)
      operation p q c s l r o e0 hl eo hr ec =
          let xs = hl.read in
          let ys = hr.read in
          let closing = logical_close c ∷ [] in
          let tail = binary_logical_operator o q ∷ (ys ++ closing) in
          let at_closing : r.index + 1 ≡ l.index + 1 + 1 + length ys = sym (hr.ends) in
          let at_operator : l.index + 1 ≡ s.index + 1 + length xs = sym (hl.ends) in
          let behind =
            Stands-join tokens (l.index + 1 + 1) ys closing hr.stands
              (subst (λ n. get_elem? tokens n ≡ some (logical_close c)) at_closing ec, tt) in
          let st = subst (λ n. Stands tokens n tail) at_operator (eo, behind) in
          record {
            read = logical_open p ∷ (xs ++ tail);
            stands = (e0, Stands-join tokens (s.index + 1) xs tail hl.stands st);
            denotes = denotes_logical p q c hl.denotes hr.denotes refl;
            ends =
                omega (
                  arith,
                  hl.ends,
                  hr.ends,
                  length-append {0} xs tail,
                  length-append {0} ys closing,
                );
          }

  parse_tokens_with_index-Reads :
      (f : ℕ) (s : Cursor)
      → length tokens - s.index < f
      → Reads s (parse_tokens_with_index f uuid8 tokens s)
  unfolding parse_tokens_with_index
  parse_tokens_with_index-Reads zero s h = absurd (omega arith)
  parse_tokens_with_index-Reads (suc f) s h =
      found (λ t. parse_tokens_with_index-Reads f t) (get_elem? tokens s.index) refl
    where
      found :
          ((t : Cursor)
            → length tokens - t.index < f
            → Reads t (parse_tokens_with_index f uuid8 tokens t))
          → (o : Option Token) → get_elem? tokens s.index ≡ o
          → Reads s (elim o [
            | some (logical_open p) ↦
                parse_logical tokens (parse_tokens_with_index f uuid8 tokens) s
            | some (condition_open p) ↦ parse_condition uuid8 tokens s
            | _ ↦ fail s.index opening_expected
          ])
      found runs (some (logical_open p)) e =
          let here = get_elem?-lt tokens s.index e in
          parse_logical-Reads p (parse_tokens_with_index f uuid8 tokens) s e
            (λ t le. runs t (omega (arith, here)))
      found runs (some (condition_open p)) e = parse_condition-Reads p s e
      found runs _ e = rejected

-- Some first tokens denote the tree.
abbrev pub BeginsWith : (ℕ → Text) → Tokens → FilterExpressionAst → Type 0
BeginsWith uuid8 tokens tree =
    (xs : Tokens) × (rest : Tokens) × (n : ℕ) × (tokens ≡ xs ++ rest) × Denotes uuid8 0 xs tree n

-- Where every value is followed by the end of its condition, a tree that `parse_tokens` returns is
-- denoted by the first tokens.
pub parse_tokens-BeginsWith :
    (uuid8 : ℕ → Text) (tokens : Tokens) {tree : FilterExpressionAst}
    → ValuesAreClosed tokens
    → parse_tokens uuid8 tokens ≡ ok tree
    → BeginsWith uuid8 tokens tree
unfolding parse_tokens
parse_tokens-BeginsWith uuid8 tokens closed = Ensures-ok {P = BeginsWith uuid8 tokens} (
    Ensures-bind
      (parse_tokens_with_index-Reads uuid8 tokens closed (length tokens + 1)
        (record { index = 0; keys = 0 }) (omega arith))
      λ (tree, t) h.
        let (rest, e) = Stands-prefix tokens h.read h.stands in
        holds (h.read, rest, t.keys, e, h.denotes))
