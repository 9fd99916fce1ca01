-- ===== src/Filter/Normalizer/N3.antt =====
-- filter_normalizer.rs: `n3_binary_logical_operator` and `normalize_lexeme`.
use doka_one.Prelude.{
  ℕ, zero, suc, ◌+◌, ◌-◌, Bool, false, Option, none, some, [], ◌∷◌, length, get_elem?,
  if◌then◌else◌, ok, out_of_fuel, ◌>>=◌, vec_insert,
}
use doka_one.Filter.Token.{
  LogicalOperator, land, lor, same_operator, Tokens, binary_logical_operator, condition_open,
  condition_close, logical_open, logical_close,
}
use doka_one.Filter.Lexer.Pieces.{Lexed}
use doka_one.Filter.Normalizer.N1.{n1_remove_successive_logical_open_close}
use doka_one.Filter.Normalizer.N2.{
  check_logical_open_delimiter, check_logical_close_delimiter, n2_mark_condition_open_close,
}

pub data BoundaryType : Type 0 where
  with_logical without_logical : BoundaryType

pub record CheckLogicalBoundary : Type 0 where
  pub position : ℕ
  pub boundary_type : BoundaryType

abbrev pub boundary : ℕ → BoundaryType → CheckLogicalBoundary
boundary p b = record { position = p; boundary_type = b }

-- `tokens.get(index - 1)`, where index 0 wraps round to an index that is out of range.
unfoldable pub opens_before : Tokens → ℕ → Bool
unfolding check_logical_open_delimiter
opens_before tokens zero = false
opens_before tokens (suc i) = check_logical_open_delimiter tokens i

-- What both directions do at a delimiter that lowers the depth (an opening one going backward, a
-- closing one going forward), from the place and whether a like delimiter is next: stop at the
-- operator with `with_logical` where the depth falls below 0, stop at the place where it reaches 0
-- and no like delimiter is next, or go on.
unfoldable pub at_lowering : ℕ → ℕ → ℕ → Bool → CheckLogicalBoundary → CheckLogicalBoundary
at_lowering start place zero next goes_on = boundary start with_logical
at_lowering start place (suc zero) next goes_on =
    if next then goes_on else boundary place without_logical
at_lowering start place (suc (suc d)) next goes_on = goes_on

-- At the outer delimiter of a condition: stop at depth 0, or go on.
unfoldable pub at_condition : ℕ → ℕ → Bool → CheckLogicalBoundary → CheckLogicalBoundary
at_condition place zero next goes_on =
    boundary place (if next then with_logical else without_logical)
at_condition place (suc d) next goes_on = goes_on

abbrev pub lower : ℕ → ℕ
lower zero = zero
lower (suc d) = d

-- `check_logical_one_direction` with `Direction::Backward`: `suc i` is about to read token `i`, and
-- `zero` has run off the front.
unfoldable pub check_backward : Tokens → ℕ → ℕ → ℕ → CheckLogicalBoundary
unfolding opens_before at_lowering at_condition
check_backward tokens start zero depth = boundary 0 without_logical
check_backward tokens start (suc i) depth =
    let deeper = check_backward tokens start i (suc depth) in
    let same = check_backward tokens start i depth in
    let shallower = check_backward tokens start i (lower depth) in
    elim (get_elem? tokens i) [
      | none ↦ boundary i without_logical
      | some (logical_open p) ↦ at_lowering start i depth (opens_before tokens i) shallower
      | some (logical_close p) ↦ deeper
      | some (condition_open p) ↦ at_condition i depth (opens_before tokens i) same
      | some _ ↦ same
    ]

-- The same with `Direction::Forward`, from an index on; `rounds` counts the tokens that are left.
unfoldable pub check_forward : Tokens → ℕ → ℕ → ℕ → ℕ → CheckLogicalBoundary
unfolding check_logical_close_delimiter at_lowering at_condition
check_forward tokens start zero i depth = boundary i without_logical
check_forward tokens start (suc rounds) i depth =
    let next = check_logical_close_delimiter tokens (i + 1) in
    let deeper = check_forward tokens start rounds (i + 1) (suc depth) in
    let same = check_forward tokens start rounds (i + 1) depth in
    let shallower = check_forward tokens start rounds (i + 1) (lower depth) in
    elim (get_elem? tokens i) [
      | none ↦ boundary i without_logical
      | some (logical_open p) ↦ deeper
      | some (logical_close p) ↦ at_lowering start (i + 1) depth next shallower
      | some (condition_close p) ↦ at_condition (i + 1) depth next same
      | some _ ↦ same
    ]

unfoldable pub inserting_of : BoundaryType → BoundaryType → ℕ → ℕ → Option (ℕ × ℕ)
inserting_of with_logical with_logical l r = none
inserting_of _ _ l r = some (l, r)

-- The operator at a position: where to put parentheses around its operands, if any are missing.
unfoldable pub check_binary_logical_operator : Tokens → ℕ → Option (ℕ × ℕ)
unfolding check_backward check_forward inserting_of
check_binary_logical_operator tokens at =
    let left = check_backward tokens at at 0 in
    let right = check_forward tokens at (length tokens - (at + 1)) (at + 1) 0 in
    inserting_of left.boundary_type right.boundary_type left.position right.position

-- The first operator of this kind that wants parentheses, from a position on.
unfoldable pub find_next_from : Tokens → LogicalOperator → Tokens → ℕ → Option (ℕ × ℕ)
unfolding check_binary_logical_operator
find_next_from tokens for_lop [] at = none
find_next_from tokens for_lop (binary_logical_operator o p ∷ ts) at =
    let rest = find_next_from tokens for_lop ts (at + 1) in
    if same_operator o for_lop
    then elim (check_binary_logical_operator tokens at) [ none ↦ rest | some xy ↦ some xy ]
    else rest
find_next_from tokens for_lop (_ ∷ ts) at = find_next_from tokens for_lop ts (at + 1)

unfoldable pub find_next_ajustable : Tokens → LogicalOperator → Option (ℕ × ℕ)
unfolding find_next_from
find_next_ajustable tokens for_lop = find_next_from tokens for_lop tokens 0

-- `loop { … }`, with fuel.
unfoldable pub n3_for_op : ℕ → Tokens → LogicalOperator → Lexed Tokens
unfolding find_next_ajustable vec_insert
n3_for_op zero tokens for_lop = out_of_fuel
n3_for_op (suc f) tokens for_lop = elim (find_next_ajustable tokens for_lop) [
  | none ↦ ok tokens
  | some (x, y) ↦ do
    us ← vec_insert tokens y (logical_close 0)
    vs ← vec_insert us x (logical_open 0)
    n3_for_op f vs for_lop
]

unfoldable pub n3_binary_logical_operator : Tokens → Lexed Tokens
unfolding n3_for_op
n3_binary_logical_operator tokens = do
  us ← n3_for_op (length tokens + 1) tokens land
  n3_for_op (length us + 1) us lor

unfoldable pub normalize_lexeme : Tokens → Lexed Tokens
unfolding n1_remove_successive_logical_open_close n2_mark_condition_open_close
    n3_binary_logical_operator
normalize_lexeme tokens = do
  us ← n1_remove_successive_logical_open_close tokens
  vs ← n2_mark_condition_open_close us
  n3_binary_logical_operator vs
