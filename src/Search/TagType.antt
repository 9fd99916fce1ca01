-- ===== src/Search/TagType.antt =====
-- dkdto/src/web_types.rs: `TagType`; generator.rs: the operators that are legal for each type.
pub mod Names
use doka_one.Prelude.{
  Bool, true, false, Option, none, some, List, [], ◌∷◌, Text, codes, text_eq, if◌then◌else◌, ◌≡◌,
  refl,
}
use doka_one.Filter.Token.{ComparisonOperator, eq, neq, gt, gte, lt, lte, like}

pub data TagType : Type 0 where
  text bool int double date date_time link : TagType

unfoldable pub as_str : TagType → Text
as_str text = codes "text"
as_str bool = codes "bool"
as_str int = codes "int"
as_str double = codes "decimal"
as_str date = codes "date"
as_str date_time = codes "datetime"
as_str link = codes "link"

unfoldable pub value_column_name : TagType → Text
value_column_name text = codes "value_string"
value_column_name bool = codes "value_boolean"
value_column_name int = codes "value_integer"
value_column_name double = codes "value_double"
value_column_name date = codes "value_date"
value_column_name date_time = codes "value_datetime"
value_column_name link = codes "value_link"

-- `none` is the error `()`.
unfoldable pub from_str : Text → Option TagType
unfolding text_eq
from_str s =
    if text_eq s (codes "text")
    then some text
    else if text_eq s (codes "bool")
    then some bool
    else if text_eq s (codes "int")
    then some int
    else if text_eq s (codes "decimal")
    then some double
    else if text_eq s (codes "date")
    then some date
    else if text_eq s (codes "datetime")
    then some date_time
    else if text_eq s (codes "link")
    then some link
    else none

-- What `{:?}` prints.
abbrev pub debug_tag_type : TagType → Text
debug_tag_type text = codes "Text"
debug_tag_type bool = codes "Bool"
debug_tag_type int = codes "Int"
debug_tag_type double = codes "Double"
debug_tag_type date = codes "Date"
debug_tag_type date_time = codes "DateTime"
debug_tag_type link = codes "Link"

-- `LEGAL_OPERATORS_BY_TAG_TYPE.get(tag_type)`
unfoldable pub legal_operators : TagType → Option (List ComparisonOperator)
legal_operators bool = some (eq ∷ neq ∷ [])
legal_operators int = some (eq ∷ neq ∷ gt ∷ gte ∷ lt ∷ lte ∷ [])
legal_operators double = some (eq ∷ neq ∷ gt ∷ gte ∷ lt ∷ lte ∷ [])
legal_operators text = some (eq ∷ neq ∷ like ∷ [])
legal_operators _ = none

abbrev pub same_comparison : ComparisonOperator → ComparisonOperator → Bool
same_comparison eq eq = true
same_comparison neq neq = true
same_comparison gt gt = true
same_comparison gte gte = true
same_comparison lt lt = true
same_comparison lte lte = true
same_comparison like like = true
same_comparison _ _ = false
