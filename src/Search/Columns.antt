-- ===== src/Search/Columns.antt =====
-- generator.rs: the condition on a tag's value, the join of one condition, and the order columns.
use doka_one.Prelude.{
  ℕ, zero, suc, ◌-◌, true, false, ◌&&◌, Option, none, some, List, [], ◌∷◌, ◌++◌, map, Text, codes,
  text_eq, starts_with, length, ascii_lower, if◌then◌else◌, ok, panic, ◌>>=◌,
}
use doka_one.Filter.Token.{eq}
use doka_one.Filter.Ast.Tree.{FilterCondition, show_value, sql_operator}
use doka_one.Filter.Number.{show_ℕ}
use doka_one.Search.TagType.{
  TagType, text, bool, int, double, date, date_time, link, value_column_name, same_comparison,
}
use doka_one.Search.Conditions.{Generated}

-- `todo!()` panics for the types that have no legal operator. `to_lowercase` matters only where the
-- value is some spelling of `true`, whose letters are ASCII.
unfoldable pub build_tag_value_filter : FilterCondition → TagType → Generated Text
unfolding show_value text_eq
build_tag_value_filter c text = ok (
    codes "unaccent_lower((tv.value_string)::text) "
    ++ (sql_operator c.operator
        ++ (codes " unaccent_lower('" ++ (show_value c.value ++ codes "')"))))
build_tag_value_filter c bool =
    if same_comparison c.operator eq
      && text_eq (map ascii_lower (show_value c.value)) (codes "true")
    then ok (codes "tv.value_boolean")
    else ok (codes "NOT tv.value_boolean")
build_tag_value_filter c int =
    ok (codes "tv.value_integer " ++ (sql_operator c.operator ++ (codes " " ++ show_value c.value)))
build_tag_value_filter c double =
    ok (codes "tv.value_double " ++ (sql_operator c.operator ++ (codes " " ++ show_value c.value)))
build_tag_value_filter c date = panic
build_tag_value_filter c date_time = panic
build_tag_value_filter c link = panic

-- `s.replace(pattern, with)`: every occurrence, from left to right; `skip` characters belong to the
-- occurrence that was replaced last.
unfoldable pub replace_from : ℕ → Text → Text → Text → Text
unfolding starts_with
replace_from skip pattern' with' [] = []
replace_from (suc skip) pattern' with' (c ∷ s) = replace_from skip pattern' with' s
replace_from zero pattern' with' (c ∷ s) = elim (starts_with (c ∷ s) pattern') [
  | true ↦ with' ++ replace_from (length pattern' - 1) pattern' with' s
  | false ↦ c ∷ replace_from zero pattern' with' s
]

unfoldable pub replace : Text → Text → Text → Text
unfolding replace_from
replace pattern' with' s = replace_from zero pattern' with' s

abbrev pub query_filter_template : Text
query_filter_template =
    codes "LEFT OUTER JOIN (\n    SELECT tv.item_id, tv.{{value_column_name}} as value\n"
    ++ (codes "    FROM {customer_schema}.tag_definition td\n"
        ++ (codes "    JOIN {customer_schema}.tag_value tv ON\n        tv.tag_id = td.id\n"
            ++ (codes "        AND td.\"name\" = '{{tag_name}}'\n"
                ++ (codes "        {{tag_value_filter}}{{tag_super_filter}}\n"
                    ++ codes
                        ") ot_{{tag_name}}_{{occurence}} ON ot_{{tag_name}}_{{occurence}}.item_id = i.id"))))

unfoldable pub build_query_tag : FilterCondition → TagType → ℕ → Text → Text
unfolding replace value_column_name show_ℕ
build_query_tag c t occurence tag_value_filter =
    let a = replace (codes "{{value_column_name}}") (value_column_name t) query_filter_template in
    let b = replace (codes "{{tag_name}}") c.attribute a in
    let d = replace (codes "{{tag_value_filter}}") (codes "AND " ++ tag_value_filter) b in
    let e = replace (codes "{{tag_super_filter}}") [] d in
    replace (codes "{{occurence}}") (show_ℕ occurence) e

-- The aliases of each tag, in the order in which its conditions were met.
abbrev pub Occurrences : Type 0
Occurrences = List (Text × List Text)

unfoldable pub get_occurrences : Text → Occurrences → Option (List Text)
unfolding text_eq
get_occurrences k [] = none
get_occurrences k ((j, os) ∷ m) = if text_eq j k then some os else get_occurrences k m

-- `map.entry(tag).or_insert_with(Vec::new).push(occurrence)`
unfoldable pub push_occurrence : Text → Text → Occurrences → Occurrences
unfolding text_eq
push_occurrence k o [] = (k, o ∷ []) ∷ []
push_occurrence k o ((j, os) ∷ m) =
    if text_eq j k then (j, os ++ o ∷ []) ∷ m else (j, os) ∷ push_occurrence k o m

abbrev pub value_of : Text → Text
value_of o = o ++ codes ".value"

-- The last occurrence innermost. The lists are never empty, where the source would panic.
unfoldable pub coalesce : Text → List Text → Text
coalesce o [] = value_of o
coalesce o (p ∷ ps) =
    codes "COALESCE(" ++ (value_of o ++ (codes ", " ++ (coalesce p ps ++ codes ")")))

unfoldable pub order_column : List Text → Generated Text
unfolding coalesce
order_column [] = panic
order_column (o ∷ os) = ok (coalesce o os)

-- A tag with no condition has no column.
unfoldable pub add_column : Option (List Text) → List Text → Generated (List Text)
unfolding order_column
add_column none rest = ok rest
add_column (some os) rest = do c ← order_column os; ok (c ∷ rest)

unfoldable pub build_order_column : List Text → Occurrences → Generated (List Text)
unfolding add_column get_occurrences
build_order_column [] m = ok []
build_order_column (tag ∷ tags) m = do
  rest ← build_order_column tags m
  add_column (get_occurrences tag m) rest
