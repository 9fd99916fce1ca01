-- ===== src/Filter/Normalizer/N2.antt =====
-- filter_normalizer.rs: `n2_mark_condition_open_close`.
use doka_one.Prelude.{
  ℕ, ◌+◌, ◌-◌, Bool, false, ◌&&◌, none, some, List, [], ◌∷◌, ◌++◌, get_elem?, remove_at, drop_last,
  if◌then◌else◌, ok, ◌>>=◌, vec_insert, vec_set, sort_desc,
}
use doka_one.Filter.Token.{
  Token, Tokens, attribute, condition_open, condition_close, logical_open, logical_close,
  is_logical_open, is_logical_close,
}
use doka_one.Filter.Lexer.Pieces.{Lexed}

unfoldable pub check_logical_open_delimiter : Tokens → ℕ → Bool
unfolding is_logical_open
check_logical_open_delimiter tokens position = elim (get_elem? tokens position) [
  | none ↦ false
  | some t ↦ is_logical_open t
]

unfoldable pub check_logical_close_delimiter : Tokens → ℕ → Bool
unfolding is_logical_close
check_logical_close_delimiter tokens position = elim (get_elem? tokens position) [
  | none ↦ false
  | some t ↦ is_logical_close t
]

-- The two lists of position pairs that the first loop builds. (Both parts are always `Some`.)
pub record Marks : Type 0 where
  pub list_of_replacement : List (ℕ × ℕ)
  pub list_of_inserting : List (ℕ × ℕ)

-- An attribute at a position: its condition is it and the next two tokens. The first token is a
-- delimiter that the function has put there, so that the position is never 0.
unfoldable pub mark_attribute : Tokens → ℕ → Marks → Marks
unfolding check_logical_open_delimiter check_logical_close_delimiter
mark_attribute tokens position_counter m =
    let pre_position = position_counter - 1 in
    let post_position = position_counter + 3 in
    if check_logical_open_delimiter tokens pre_position
      && check_logical_close_delimiter tokens post_position
    then record m {
      list_of_replacement = m.list_of_replacement ++ (pre_position, post_position) ∷ [];
    }
    else record m {
      list_of_inserting = m.list_of_inserting ++ (pre_position + 1, post_position) ∷ [];
    }

unfoldable pub mark : Tokens → Tokens → ℕ → Marks → Marks
unfolding mark_attribute
mark tokens [] position_counter m = m
mark tokens (attribute a p ∷ ts) position_counter m =
    mark tokens ts (position_counter + 1) (mark_attribute tokens position_counter m)
mark tokens (_ ∷ ts) position_counter m = mark tokens ts (position_counter + 1) m

unfoldable pub replace_all : Tokens → List (ℕ × ℕ) → Lexed Tokens
unfolding vec_set
replace_all tokens [] = ok tokens
replace_all tokens ((lo, lc) ∷ rs) = do
  us ← vec_set tokens lo (condition_open 0)
  vs ← vec_set us lc (condition_close 0)
  replace_all vs rs

unfoldable pub pair_marks : List (ℕ × ℕ) → Token → Token → List (ℕ × Token)
pair_marks [] token_left token_right = []
pair_marks ((x, y) ∷ rest) token_left token_right =
    (x, token_left) ∷ (y, token_right) ∷ pair_marks rest token_left token_right

unfoldable pub transform_and_sort : List (ℕ × ℕ) → Token → Token → List (ℕ × Token)
unfolding pair_marks sort_desc
transform_and_sort list_of_inserting token_left token_right =
    sort_desc (λ (p, t). p) (pair_marks list_of_inserting token_left token_right)

unfoldable pub insert_all : Tokens → List (ℕ × Token) → Lexed Tokens
unfolding vec_insert
insert_all tokens [] = ok tokens
insert_all tokens ((p, t) ∷ rest) = do us ← vec_insert tokens p t; insert_all us rest

unfoldable pub n2_mark_condition_open_close : Tokens → Lexed Tokens
unfolding mark replace_all transform_and_sort insert_all
n2_mark_condition_open_close input = do
  let tokens : Tokens = logical_open 0 ∷ (input ++ logical_close 0 ∷ [])
  let m = mark tokens tokens 0 (record { list_of_replacement = []; list_of_inserting = [] })
  us ← replace_all tokens m.list_of_replacement
  vs ← insert_all us (transform_and_sort m.list_of_inserting (condition_open 0) (condition_close 0))
  ok (drop_last (remove_at vs 0))
