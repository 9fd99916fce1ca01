-- ===== src/Pg/Tests.antt =====
-- A query of two parameters, a transaction on a counter, and names that begin alike.
use doka_one.Prelude.{
  ◌≡◌, refl, Bool, true, false, ◌&&◌, not, some, List, [], ◌∷◌, ◌++◌, Text, codes, ◌==◌, arith,
  text_eq, starts_with,
}
use doka_one.Prelude.Int.{pos}
use doka_one.Filter.Number.{show_ℕ}
use doka_one.Pg.Cell.{int, string}
use doka_one.Pg.ParseQuery.{Params, parse_query, param_mark, position_mark}
use doka_one.Pg.ParseQuery.Template.{
  Piece, sql, param, print, print_numbered, values, HasNoMark, parse_query-print,
}
use doka_one.Pg.ParseQuery.Prefix.{parse_query-prefix}

abbrev has_no_mark : Text → Bool
has_no_mark [] = true
has_no_mark (c ∷ s) = not (c == b':') && has_no_mark s

has_no_mark-HasNoMark : (s : Text) → has_no_mark s ≡ true → HasNoMark s
has_no_mark-HasNoMark [] h = tt
has_no_mark-HasNoMark (c ∷ s) h = (λ e. ground arith, has_no_mark-HasNoMark s (ground arith))

abbrev two_params : Params
two_params = (codes "b", string (some (codes "x"))) ∷ (codes "a", int (some (pos 7))) ∷ []

abbrev two_pieces : List Piece
two_pieces =
    sql (codes "WHERE id=") ∷ param (codes "a") ∷ sql (codes " AND n=") ∷ param (codes "b") ∷ []

parse_query-print_example :
    parse_query (print two_pieces) two_params
    ≡ (print_numbered two_params 1 two_pieces, values two_params)
unfolding starts_with
parse_query-print_example =
    parse_query-print two_params two_pieces
      (
        has_no_mark-HasNoMark (codes "WHERE id=") refl,
        (
          (refl, tt),
          (refl, (has_no_mark-HasNoMark (codes " AND n=") refl, ((refl, tt), (tt, tt)))),
        ),
      )
      (
        (refl, tt),
        (
          ((λ h. absurd (apart h)), ((λ h. refl), tt)),
          ((refl, tt), (((λ h. refl), ((λ h. absurd (apart h)), tt)), tt)),
        ),
      )
  where
    apart : false ≡ true → ⊥
    apart h = cc

two_pieces_numbered : print_numbered two_params 1 two_pieces ≡ codes "WHERE id=$2 AND n=$1"
unfolding text_eq show_ℕ
two_pieces_numbered = refl

parse_query-prefix_example :
    parse_query
      (codes "WHERE k=" ++ (param_mark (codes "id" ++ codes "_2") ++ codes " LIMIT 1"))
      ((codes "id", int (some (pos 7))) ∷ (codes "id" ++ codes "_2", int (some (pos 8))) ∷ [])
    ≡ (
      codes "WHERE k=" ++ (position_mark 1 ++ (codes "_2" ++ codes " LIMIT 1")),
      int (some (pos 7)) ∷ int (some (pos 8)) ∷ [],
    )
parse_query-prefix_example =
    parse_query-prefix (codes "id") (codes "_2") (codes "WHERE k=") (codes " LIMIT 1")
      (int (some (pos 7))) (int (some (pos 8))) (has_no_mark-HasNoMark (codes "_2") refl)
      (has_no_mark-HasNoMark (codes "WHERE k=") refl)
      (has_no_mark-HasNoMark (codes " LIMIT 1") refl)
