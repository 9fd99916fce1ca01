-- ===== src/Pg/DataSet/Cursor.antt =====
-- sql_transaction.rs: about the loop over a data set.
use doka_one.Prelude.{
  ℕ, zero, suc, ◌+◌, ◌<◌, ◌≡◌, refl, sym, ap, ◌∙◌, true, false, some, List, [], ◌∷◌, ◌++◌, length,
  length-append, get_elem?, arith, append_assoc, Outcome, ok, err, panic, out_of_fuel,
}
use doka_one.Prelude.Effects.{Run, pure, resume, ◌>>=◌}
use doka_one.Pg.DataSet.{Row, SqlDataSet, next, current_row, advance, while_next, for_data_set}

get_elem?-append_at :
    {A : Type 0} (pre : List A) (x : A) (post : List A)
    → get_elem? (pre ++ x ∷ post) (length pre) ≡ some x
get_elem?-append_at [] x post = refl
get_elem?-append_at (p ∷ ps) x post = get_elem?-append_at ps x post

abbrev at_row : ℕ → List Row → SqlDataSet
at_row p rows = record { position = p; rows = rows }

module _ (pre : List Row) (rows : List Row) where
  next_past : rows ≡ pre ++ [] → next (at_row (length pre) rows) ≡ (false, at_row (length pre) rows)
  unfolding next
  next_past e = ground (arith, ap length e, length-append pre [])

  module _ (r : Row) (post : List Row) (e : rows ≡ pre ++ r ∷ post) where
    next_at : next (at_row (length pre) rows) ≡ (true, at_row (length pre + 1) rows)
    unfolding next
    next_at = ground (arith, ap length e, length-append pre (r ∷ post))

    current_row_at : current_row (at_row (length pre + 1) rows) ≡ some r
    unfolding current_row
    current_row_at =
        ground (arith, ap length e, length-append pre (r ∷ post), get_elem?-append_at pre r post)

module _ {W E A : Type 0} where
  -- A pass over rows, in their order.
  unfoldable pub for_rows : (Row → A → Run W E A) → List Row → A → Run W E A
  for_rows g [] a = pure a
  for_rows g (r ∷ rs) a = g r a >>= for_rows g rs

  -- The body does at a row what `g` does with the row.
  abbrev pub Reads : (SqlDataSet → A → Run W E A) → (Row → A → Run W E A) → Type 0
  Reads body g =
      (d : SqlDataSet) (r : Row) → current_row d ≡ some r → (a : A) (w : W) → body d a w ≡ g r a w

  resume_ext :
      (h k : A → Run W E A)
      → ((a : A) (w : W) → h a w ≡ k a w)
      → (x : Outcome E A × W) → resume h x ≡ resume k x
  resume_ext h k e (ok a, w) = e a w
  resume_ext h k e (err d, w) = refl
  resume_ext h k e (panic, w) = refl
  resume_ext h k e (out_of_fuel, w) = refl

  module _ (body : SqlDataSet → A → Run W E A) (g : Row → A → Run W E A)
      (reads : Reads body g) where
    while_next-for_rows :
        (post pre rows : List Row) (p f : ℕ) (a : A) (w : W)
        → rows ≡ pre ++ post
        → p ≡ length pre
        → length post < f
        → while_next body f (at_row p rows) a w ≡ for_rows g post a w
    unfolding while_next for_rows
    while_next-for_rows [] pre rows p (suc f) a w e at lt =
        ap (λ q. advance body (while_next body f) a (next (at_row q rows)) w) at
        ∙ ap (λ n. advance body (while_next body f) a n w) (next_past pre rows e)
    while_next-for_rows (r ∷ post) pre rows p (suc f) a w e at lt =
        ap (λ q. advance body (while_next body f) a (next (at_row q rows)) w) at
        ∙ ap (λ n. advance body (while_next body f) a n w) (next_at pre rows r post e)
        ∙ ap (resume (while_next body f (at_row (length pre + 1) rows)))
            (reads _ r (current_row_at pre rows r post e) a w)
        ∙ resume_ext _ _
            (λ b v.
              while_next-for_rows post (pre ++ r ∷ []) rows (length pre + 1) f b v
                (e ∙ sym (append_assoc pre (r ∷ []) post))
                (omega (arith, length-append pre (r ∷ []))) (omega arith))
            (g r a w)
    while_next-for_rows [] pre rows p zero a w e at lt = absurd (omega arith)
    while_next-for_rows (r ∷ post) pre rows p zero a w e at lt = absurd (omega arith)

  -- The loop over a data set ends, and it reads every row once and in order, wherever the body
  -- depends on nothing of the data set but the row at the position.
  pub for_data_set-for_rows :
      (body : SqlDataSet → A → Run W E A) (g : Row → A → Run W E A)
      → Reads body g
      → (rows : List Row) (a : A) (w : W) → for_data_set body rows a w ≡ for_rows g rows a w
  unfolding for_data_set
  for_data_set-for_rows body g reads rows a w =
      while_next-for_rows body g reads rows [] rows 0 (suc (length rows)) a w refl refl
        (omega arith)
