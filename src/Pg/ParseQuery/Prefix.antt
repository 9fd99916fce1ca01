-- ===== src/Pg/ParseQuery/Prefix.antt =====
-- sql_transaction.rs: about parameters of which one's name begins with another's.
use doka_one.Prelude.{◌≡◌, ap, ◌∙◌, [], ◌∷◌, ◌++◌, append_assoc, Text}
use doka_one.Pg.Cell.{CellValue}
use doka_one.Pg.ParseQuery.{replace, param_mark, position_mark, parse_params, parse_query}
use doka_one.Pg.ParseQuery.Template.{
  HasNoMark, replace-sql, replace-mark, replace-HasNoMark, HasNoMark-append,
  HasNoMark-position_mark,
}

-- A query that holds one mark, that of the longer of two names, is given these two parameters, and
-- the hash map has the shorter name, with which the longer one begins, in front. Then the shorter is
-- replaced inside the mark of the longer, which is left with the position of the other's value and the
-- rest of its name behind it. Neither the rest of the name nor the query around the mark has a colon.
pub parse_query-prefix :
    (name rest before after : Text) (v w : CellValue)
    → HasNoMark rest
    → HasNoMark before
    → HasNoMark after
    → parse_query
        (before ++ (param_mark (name ++ rest) ++ after))
        ((name, v) ∷ (name ++ rest, w) ∷ [])
      ≡ (before ++ (position_mark 1 ++ (rest ++ after)), v ∷ w ∷ [])
unfolding parse_query parse_params
parse_query-prefix name rest before after v w h hb ha =
    let left = before ++ (position_mark 1 ++ (rest ++ after)) in
    let free : HasNoMark left = HasNoMark-append before (position_mark 1 ++ (rest ++ after)) hb (
      HasNoMark-append (position_mark 1) (rest ++ after) (HasNoMark-position_mark 1)
        (HasNoMark-append rest after h ha)) in
    let tail : HasNoMark (rest ++ after) = HasNoMark-append rest after h ha in
    let first : replace (param_mark name) (position_mark 1)
          (before ++ (param_mark (name ++ rest) ++ after))
        ≡ left =
      ap (λ s. replace (param_mark name) (position_mark 1) (before ++ (b':' ∷ s)))
        (append_assoc name rest after)
      ∙ replace-sql name (position_mark 1) before (param_mark name ++ (rest ++ after)) hb
      ∙ ap (λ s. before ++ s) (replace-mark name (position_mark 1) (rest ++ after))
      ∙ ap (λ s. before ++ (position_mark 1 ++ s))
          (replace-HasNoMark name (position_mark 1) (rest ++ after) tail) in
    ap (λ s. (replace (param_mark (name ++ rest)) (position_mark 2) s, v ∷ w ∷ [])) first
    ∙ ap (λ s. (s, v ∷ w ∷ [])) (replace-HasNoMark (name ++ rest) (position_mark 2) left free)
