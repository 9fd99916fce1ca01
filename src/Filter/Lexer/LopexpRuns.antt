-- ===== src/Filter/Lexer/LopexpRuns.antt =====
-- filter_lexer.rs: about the runs of `lopexp_lexer_index`.
use doka_one.Prelude.{
  ℕ, zero, suc, ◌+◌, ◌-◌, ◌≤◌, ◌<◌, ◌≡◌, refl, sym, subst, false, Option, none, some, [], ◌∷◌, ◌++◌,
  Text, IsAscii, All-append, length, length-append, is_empty, get_elem?, ◌==◌, arith, ok, Ensures,
  holds, rejected, Ensures-if, Ensures-bind, Ensures-mono, checked_sub, checked_sub-Ensures,
  if◌then◌else◌,
}
use doka_one.Filter.Token.{Tokens, empty_logical_operation, incomplete_expression}
use doka_one.Filter.Lexer.Grammar.{
  IsItems, none, lop, IsItems-append, IsGroup-IsItems, IsCondition-IsItems,
}
use doka_one.Filter.Lexer.Pieces.{Lexed, fail}
use doka_one.Filter.Lexer.Condition.{Flow, continue, break}
use doka_one.Filter.Lexer.ConditionPhases.{NotAscii}
use doka_one.Filter.Lexer.ConditionRounds.{get_elem?-lt, get_elem?-IsAscii}
use doka_one.Filter.Lexer.ConditionRuns.{condition_lexer_index-Ensures}
use doka_one.Filter.Lexer.Expression.{
  SubLexer, LopexpExpectedLexeme, LopexpState, lopexp_blank, lopexp_opening, lopexp_char,
  lopexp_step, lopexp_loop, lopexp_lexer_index,
}
use doka_one.Filter.Lexer.LopexpPieces.{
  UppercaseLaw, create_lop-Ensures, after_condition-Ensures, SubRuns,
}

module _ (up : Text → Text) (law : UppercaseLaw up) (cs : Text) (offset f : ℕ) (sub : SubLexer)
    (sub_runs : SubRuns cs f sub) (depth start : ℕ) (one : 1 ≤ start)
    (in_reach : length cs - start < f) where
  abbrev Lop : LopexpExpectedLexeme → LopexpState → Type 0
  Lop LopexpExpectedLexeme.logical_operator s = length s.lop + start ≤ s.index
  Lop LopexpExpectedLexeme.expression_or_condition s = Unit

  record LopInv (s : LopexpState) : Type 0 where
    items : IsItems s.tokens
    moved : start ≤ s.index
    lop_bound : Lop s.expected_lexeme s
    lop_ascii : IsAscii cs → IsAscii s.lop

  abbrev LopNext : ℕ → Flow LopexpState → Type 0
  LopNext m (continue t) = LopInv (record t { index = t.index + 1 }) × (m ≤ t.index)
  LopNext m (break t) = IsItems t.tokens × (start ≤ t.index)

  abbrev LopRuns : LopexpState → Lexed (Flow LopexpState) → Type 0
  LopRuns s = Ensures (NotAscii cs) (LopNext s.index)

  lopexp_blank-Runs :
      (e : LopexpExpectedLexeme) (s : LopexpState)
      → s.expected_lexeme ≡ e
      → LopInv s
      → LopRuns s (lopexp_blank up cs offset sub depth e s)
  unfolding lopexp_blank
  lopexp_blank-Runs LopexpExpectedLexeme.logical_operator s e h =
      let bound : length s.lop + start ≤ s.index = subst (λ e. Lop e s) e h.lop_bound in
      Ensures-if (is_empty s.lop)
        (λ _. holds (
          record {
            items = h.items;
            moved = omega (arith, h.moved);
            lop_bound = subst (λ e. Lop e (record s { index = s.index + 1 })) (sym e) (omega arith);
            lop_ascii = h.lop_ascii;
          },
          omega arith,
        ))
        λ _.
          Ensures-bind (create_lop-Ensures cs up s.lop s.index offset law (omega arith) h.lop_ascii)
            λ t (o, p, k). holds (
              record {
                items = IsItems-append h.items (rw k (lop none));
                moved = omega (arith, h.moved);
                lop_bound = tt;
                lop_ascii = h.lop_ascii;
              },
              omega arith,
            )
  lopexp_blank-Runs LopexpExpectedLexeme.expression_or_condition s e h = holds (
    record {
      items = h.items;
      moved = omega (arith, h.moved);
      lop_bound = subst (λ e. Lop e (record s { index = s.index + 1 })) (sym e) tt;
      lop_ascii = h.lop_ascii;
    },
    omega arith,
  )

  lopexp_opening-Runs :
      (s : LopexpState)
      → LopInv s
      → s.index < length cs
      → LopRuns s (lopexp_opening up cs offset sub depth s)
  unfolding lopexp_opening
  lopexp_opening-Runs s h lt =
      Ensures-bind (sub_runs (depth + 1) s.index (omega (arith, h.moved, in_reach)))
        λ (toks, i) (g, j). Ensures-bind {P = λ j. s.index ≤ j} (again i j (get_elem? cs i)) λ k le.
          holds (
            record {
              items = IsItems-append h.items (IsGroup-IsItems g);
              moved = omega (arith, h.moved);
              lop_bound = kept s.expected_lexeme k (s.tokens ++ toks) le h.lop_bound;
              lop_ascii = h.lop_ascii;
            },
            le,
          )
    where
      again :
          (i : ℕ)
          → s.index < i
          → (o : Option ℕ)
          → Ensures
              (NotAscii cs)
              (λ j. s.index ≤ j)
              (elim o [
                | none ↦ fail i incomplete_expression
                | some c ↦ if c == b')' then checked_sub i 1 else ok i
              ])
      again i j none = rejected
      again i j (some c) =
          Ensures-if (c == b')')
            (λ _.
              Ensures-mono (λ k (e, _). omega arith)
                (checked_sub-Ensures i 1 (λ l. absurd (omega arith))))
            (λ _. holds (omega arith))

      kept :
          (e : LopexpExpectedLexeme) (k : ℕ) (ts : Tokens)
          → s.index ≤ k
          → Lop e s
          → Lop e (record s { index = k + 1; tokens = ts })
      kept LopexpExpectedLexeme.logical_operator k ts le b = omega arith
      kept LopexpExpectedLexeme.expression_or_condition k ts le b = tt

  lopexp_char-Runs :
      (c : ℕ) (e : LopexpExpectedLexeme) (s : LopexpState)
      → s.expected_lexeme ≡ e
      → get_elem? cs s.index ≡ some c
      → (c == b')') ≡ false
      → LopInv s
      → LopRuns s (lopexp_char up cs offset sub depth c e s)
  unfolding lopexp_char
  lopexp_char-Runs c LopexpExpectedLexeme.logical_operator s e at other h =
      let bound : length s.lop + start ≤ s.index = subst (λ e. Lop e s) e h.lop_bound in
      let longer = length-append {0} s.lop (c ∷ []) in
      holds (
        record {
          items = h.items;
          moved = omega (arith, h.moved);
          lop_bound =
              subst (λ e. Lop e (record s { lop = s.lop ++ c ∷ []; index = s.index + 1 })) (sym e)
                (omega (arith, longer));
          lop_ascii = λ a.
              All-append _ s.lop (c ∷ []) (h.lop_ascii a) (get_elem?-IsAscii cs s.index c a at, tt);
        },
        omega arith,
      )
  lopexp_char-Runs c LopexpExpectedLexeme.expression_or_condition s e at other h =
      Ensures-bind
        (condition_lexer_index-Ensures cs s.index offset depth (omega (arith, h.moved, one)))
        λ (toks, i) (k, le).
          Ensures-bind
            (after_condition-Ensures cs depth s.index i (omega (arith, h.moved, one)) le at other)
            λ j le'. holds (IsItems-append h.items (IsCondition-IsItems k), omega (arith, h.moved))

  lopexp_step-Runs :
      (s : LopexpState)
      → LopInv s
      → Ensures
          (NotAscii cs)
          (λ flow. LopNext s.index flow × (s.index < length cs))
          (lopexp_step up cs offset sub depth s)
  unfolding lopexp_step
  lopexp_step-Runs s h = at_char (get_elem? cs s.index) refl
    where
      at_char :
          (o : Option ℕ)
          → get_elem? cs s.index ≡ o
          → Ensures
              (NotAscii cs)
              (λ flow. LopNext s.index flow × (s.index < length cs))
              (elim o [
                | none ↦ fail s.index empty_logical_operation
                | some c ↦
                    if c == b' '
                    then lopexp_blank up cs offset sub depth s.expected_lexeme s
                    else if c == b'('
                    then lopexp_opening up cs offset sub depth s
                    else if c == b')'
                    then ok (break s)
                    else lopexp_char up cs offset sub depth c s.expected_lexeme s
              ])
      at_char none at = rejected
      at_char (some c) at =
          let lt = get_elem?-lt cs s.index at in
          Ensures-mono (λ flow n. (n, lt))
            (Ensures-if (c == b' ') (λ _. lopexp_blank-Runs s.expected_lexeme s refl h)
              λ _.
                Ensures-if (c == b'(') (λ _. lopexp_opening-Runs s h lt)
                  λ _.
                    Ensures-if (c == b')') (λ _. holds (h.items, h.moved))
                      λ other. lopexp_char-Runs c s.expected_lexeme s refl at other h)

  abbrev LopRead : Lexed LopexpState → Type 0
  LopRead = Ensures (NotAscii cs) (λ t. IsItems t.tokens × (start ≤ t.index))

  lopexp_next :
      (g m : ℕ)
      → length cs - m < suc g
      → ((t : LopexpState)
          → LopInv t
          → length cs - t.index < g
          → LopRead (lopexp_loop up cs offset sub depth g t))
      → (flow : Flow LopexpState) → LopNext m flow × (m < length cs)
      → LopRead (elim flow [
        | break t ↦ ok t
        | continue t ↦ lopexp_loop up cs offset sub depth g (record t { index = t.index + 1 })
      ])
  lopexp_next g m le more (break t) (h, _) = holds h
  lopexp_next g m le more (continue t) ((inv, k), lt) =
      more (record t { index = t.index + 1 }) inv (omega arith)

  lopexp_loop-Runs :
      (g : ℕ) (s : LopexpState)
      → LopInv s
      → length cs - s.index < g
      → LopRead (lopexp_loop up cs offset sub depth g s)
  unfolding lopexp_loop
  lopexp_loop-Runs zero s h lt = absurd (omega arith)
  lopexp_loop-Runs (suc g) s h lt =
      Ensures-bind (lopexp_step-Runs s h) (lopexp_next g s.index lt (λ t. lopexp_loop-Runs g t))

  pub lopexp_lexer_index-Ensures :
      Ensures
        (NotAscii cs)
        (λ (toks, j). IsItems toks × (start ≤ j))
        (lopexp_lexer_index up cs offset sub depth start)
  unfolding lopexp_lexer_index
  lopexp_lexer_index-Ensures =
      Ensures-bind
        (lopexp_loop-Runs (length cs + 1) _
          (record {
            items = none;
            moved = omega arith;
            lop_bound = omega arith;
            lop_ascii = λ a. tt;
          })
          (omega arith))
        λ s h. holds h
