-- ===== src/Filter/Normalizer/Tests.antt =====
-- The pass `n1` on the inputs of the tests of filter_normalizer.rs.
use doka_one.Prelude.{[], ◌∷◌, codes, ok, ◌≡◌, refl}
use doka_one.Prelude.Int.{pos}
use doka_one.Filter.Token.{
  Token, land, lor, eq, lt, gt, attribute, operator, value_int, binary_logical_operator,
  logical_open, logical_close,
}
use doka_one.Filter.Normalizer.N1.{n1_remove_successive_logical_open_close}

abbrev lo : Token
lo = logical_open 0

abbrev lc : Token
lc = logical_close 0

normalize_n1 :
    n1_remove_successive_logical_open_close (
      lo
      ∷ lo
      ∷ attribute (codes "2") 0
      ∷ attribute (codes "3") 0
      ∷ attribute (codes "4") 0
      ∷ lc
      ∷ lc
      ∷ attribute (codes "7") 0
      ∷ lo
      ∷ attribute (codes "9") 0
      ∷ lo
      ∷ lo
      ∷ lo
      ∷ attribute (codes "13") 0
      ∷ lc
      ∷ lc
      ∷ attribute (codes "16") 0
      ∷ lc
      ∷ lc
      ∷ [])
    ≡ ok (
        lo
        ∷ attribute (codes "2") 0
        ∷ attribute (codes "3") 0
        ∷ attribute (codes "4") 0
        ∷ lc
        ∷ attribute (codes "7") 0
        ∷ lo
        ∷ attribute (codes "9") 0
        ∷ lo
        ∷ lo
        ∷ attribute (codes "13") 0
        ∷ lc
        ∷ attribute (codes "16") 0
        ∷ lc
        ∷ lc
        ∷ [])
unfolding n1_remove_successive_logical_open_close
normalize_n1 = refl

normalize_n1_test_2 :
    n1_remove_successive_logical_open_close (
      lo
      ∷ lo
      ∷ lo
      ∷ value_int (pos 0) 0
      ∷ lo
      ∷ lc
      ∷ value_int (pos 1) 0
      ∷ lc
      ∷ lo
      ∷ lo
      ∷ lo
      ∷ lo
      ∷ value_int (pos 2) 0
      ∷ lc
      ∷ lc
      ∷ lc
      ∷ lc
      ∷ lc
      ∷ lc
      ∷ [])
    ≡ ok (
        lo
        ∷ value_int (pos 0) 0
        ∷ lo
        ∷ lc
        ∷ value_int (pos 1) 0
        ∷ lc
        ∷ lo
        ∷ value_int (pos 2) 0
        ∷ lc
        ∷ [])
unfolding n1_remove_successive_logical_open_close
normalize_n1_test_2 = refl

normalize_n1_test_3 :
    n1_remove_successive_logical_open_close (
      lo
      ∷ attribute (codes "age") 0
      ∷ operator lt 0
      ∷ value_int (pos 40) 0
      ∷ lc
      ∷ binary_logical_operator lor 0
      ∷ lo
      ∷ attribute (codes "denis") 0
      ∷ operator lt 0
      ∷ value_int (pos 5) 0
      ∷ binary_logical_operator land 0
      ∷ attribute (codes "age") 0
      ∷ operator gt 0
      ∷ value_int (pos 21) 0
      ∷ lc
      ∷ binary_logical_operator land 0
      ∷ lo
      ∷ attribute (codes "detail") 0
      ∷ operator eq 0
      ∷ value_int (pos 6) 0
      ∷ lc
      ∷ [])
    ≡ ok (
        lo
        ∷ attribute (codes "age") 0
        ∷ operator lt 0
        ∷ value_int (pos 40) 0
        ∷ lc
        ∷ binary_logical_operator lor 0
        ∷ lo
        ∷ attribute (codes "denis") 0
        ∷ operator lt 0
        ∷ value_int (pos 5) 0
        ∷ binary_logical_operator land 0
        ∷ attribute (codes "age") 0
        ∷ operator gt 0
        ∷ value_int (pos 21) 0
        ∷ lc
        ∷ binary_logical_operator land 0
        ∷ lo
        ∷ attribute (codes "detail") 0
        ∷ operator eq 0
        ∷ value_int (pos 6) 0
        ∷ lc
        ∷ [])
unfolding n1_remove_successive_logical_open_close
normalize_n1_test_3 = refl
