-- ===== src/Pg/DataSet.antt =====
-- `SQLDataSet` (sql_transaction.rs): a cursor over the rows of a result.
pub mod Cursor
use doka_one.Prelude.{
  ℕ, ◌+◌, ◌-◌, Bool, true, false, ◌||◌, Option, none, some, List, [], ◌∷◌, Text, text_eq, length,
  get_elem?, ltb, if◌then◌else◌, Outcome, ok, panic, out_of_fuel, zero, suc,
}
use doka_one.Prelude.Effects.{Run, pure, lift, ◌>>=◌}
use doka_one.Prelude.Int.{ℤ}
use doka_one.Pg.Cell.{
  CellValue, inner_value_int, inner_value_int_32, inner_value_int_16, inner_value_double,
  inner_value_bool, inner_value_string, inner_value_systemtime, inner_value_naivedate,
}

-- A `HashMap<String, CellValue>`.
abbrev pub Row : Type 0
Row = List (Text × CellValue)

unfoldable pub cell_of : Text → Row → Option CellValue
cell_of name [] = none
cell_of name ((n, v) ∷ row) = if text_eq n name then some v else cell_of name row

-- `position` is 0 before the first row, 1 at it, and so on.
pub record SqlDataSet : Type 0 where
  pub position : ℕ
  pub rows : List Row

unfoldable pub next : SqlDataSet → Bool × SqlDataSet
next d =
    if ltb d.position (length d.rows)
    then (true, record d { position = d.position + 1 })
    else (false, d)

unfoldable pub restart : SqlDataSet → SqlDataSet
restart d = record d { position = 0 }

unfoldable pub len : SqlDataSet → ℕ
len d = length d.rows

-- The test at the head of each getter, and the row at the position.
unfoldable pub current_row : SqlDataSet → Option Row
current_row d =
    if ltb d.position 1 || ltb (length d.rows) d.position
    then none
    else get_elem? d.rows (d.position - 1)

-- The getters that `unwrap` the column.
module _ {E A : Type 0} (inner : CellValue → Option A) (col_name : Text) where
  abbrev read_cell : Option CellValue → Outcome E (Option A)
  read_cell none = panic
  read_cell (some cell) = ok (inner cell)

  abbrev read_row : Option Row → Outcome E (Option A)
  read_row none = ok none
  read_row (some row) = read_cell (cell_of col_name row)

  unfoldable pub get_unwrapped : SqlDataSet → Outcome E (Option A)
  get_unwrapped d = read_row (current_row d)

-- The getters that give `None` for a column that is not there.
module _ {A : Type 0} (inner : CellValue → Option A) (col_name : Text) where
  abbrev find_cell : Option CellValue → Option A
  find_cell none = none
  find_cell (some cell) = inner cell

  abbrev find_in_row : Option Row → Option A
  find_in_row none = none
  find_in_row (some row) = find_cell (cell_of col_name row)

  unfoldable pub get_optional : SqlDataSet → Option A
  get_optional d = find_in_row (current_row d)

abbrev pub get_int : {E : Type 0} → Text → SqlDataSet → Outcome E (Option ℤ)
get_int = get_unwrapped inner_value_int

abbrev pub get_int_32 : {E : Type 0} → Text → SqlDataSet → Outcome E (Option ℤ)
get_int_32 = get_unwrapped inner_value_int_32

abbrev pub get_int_16 : {E : Type 0} → Text → SqlDataSet → Outcome E (Option ℤ)
get_int_16 = get_unwrapped inner_value_int_16

abbrev pub get_double : {E : Type 0} → Text → SqlDataSet → Outcome E (Option ℕ)
get_double = get_unwrapped inner_value_double

abbrev pub get_naivedate : {E : Type 0} → Text → SqlDataSet → Outcome E (Option ℤ)
get_naivedate = get_unwrapped inner_value_naivedate

abbrev pub get_bool : Text → SqlDataSet → Option Bool
get_bool = get_optional inner_value_bool

abbrev pub get_string : Text → SqlDataSet → Option Text
get_string = get_optional inner_value_string

abbrev pub get_timestamp : Text → SqlDataSet → Option ℤ
get_timestamp = get_optional inner_value_systemtime

-- `while data_set.next() { body }`, for a body that reads the row at the position and keeps `A`.
module _ {W E A : Type 0} (body : SqlDataSet → A → Run W E A) where
  abbrev pub advance : (SqlDataSet → A → Run W E A) → A → Bool × SqlDataSet → Run W E A
  advance rest a (true, d) = body d a >>= rest d
  advance rest a (false, d) = pure a

  unfoldable pub while_next : ℕ → SqlDataSet → A → Run W E A
  unfolding next
  while_next zero d a = lift out_of_fuel
  while_next (suc f) d a = advance (while_next f) a (next d)

  -- A data set that was just read has its position in front of the first row.
  unfoldable pub for_data_set : List Row → A → Run W E A
  unfolding while_next
  for_data_set rows a = while_next (suc (length rows)) (record { position = 0; rows = rows }) a
