-- ===== src/Pg/Cell.antt =====
-- `CellValue` (sql_transaction.rs). A `SystemTime` is its nanoseconds since the epoch, a
-- `NaiveDate` its day number, and an `f64` its 64 bits.
use doka_one.Prelude.{ℕ, Bool, Option, none, some, Text}
use doka_one.Prelude.Int.{ℤ}

pub data CellValue : Type 0 where
  string : Option Text → CellValue
  bool : Option Bool → CellValue
  int int_32 int_16 : Option ℤ → CellValue
  double : Option ℕ → CellValue
  date : Option ℤ → CellValue
  system_time : Option ℤ → CellValue

unfoldable pub inner_value_int : CellValue → Option ℤ
inner_value_int (int v) = v
inner_value_int _ = none

unfoldable pub inner_value_int_32 : CellValue → Option ℤ
inner_value_int_32 (int_32 v) = v
inner_value_int_32 _ = none

unfoldable pub inner_value_int_16 : CellValue → Option ℤ
inner_value_int_16 (int_16 v) = v
inner_value_int_16 _ = none

unfoldable pub inner_value_double : CellValue → Option ℕ
inner_value_double (double v) = v
inner_value_double _ = none

unfoldable pub inner_value_bool : CellValue → Option Bool
inner_value_bool (bool v) = v
inner_value_bool _ = none

unfoldable pub inner_value_string : CellValue → Option Text
inner_value_string (string v) = v
inner_value_string _ = none

unfoldable pub inner_value_systemtime : CellValue → Option ℤ
inner_value_systemtime (system_time v) = v
inner_value_systemtime _ = none

unfoldable pub inner_value_naivedate : CellValue → Option ℤ
inner_value_naivedate (date v) = v
inner_value_naivedate _ = none

abbrev pub from_raw_int : ℤ → CellValue
from_raw_int i = int (some i)

abbrev pub from_raw_int_32 : ℤ → CellValue
from_raw_int_32 i = int_32 (some i)

abbrev pub from_raw_int_16 : ℤ → CellValue
from_raw_int_16 i = int_16 (some i)

abbrev pub from_raw_double : ℕ → CellValue
from_raw_double f = double (some f)

abbrev pub from_raw_bool : Bool → CellValue
from_raw_bool b = bool (some b)

abbrev pub from_raw_systemtime : ℤ → CellValue
from_raw_systemtime t = system_time (some t)

abbrev pub from_raw_naivedate : ℤ → CellValue
from_raw_naivedate d = date (some d)

abbrev pub from_raw_string : Text → CellValue
from_raw_string t = string (some t)

abbrev pub from_opt_str : Option Text → CellValue
from_opt_str none = string none
from_opt_str (some t) = from_raw_string t

abbrev pub from_opt_systemtime : Option ℤ → CellValue
from_opt_systemtime none = system_time none
from_opt_systemtime (some t) = from_raw_systemtime t

abbrev pub from_opt_naivedate : Option ℤ → CellValue
from_opt_naivedate none = date none
from_opt_naivedate (some d) = from_raw_naivedate d
