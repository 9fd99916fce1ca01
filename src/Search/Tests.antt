-- ===== src/Search/Tests.antt =====
-- The query generator on small trees.
use doka_one.Prelude.{
  List, ◌++◌, none, Text, codes, text_eq, [], ◌∷◌, ◌≡◌, refl, some, ok, panic, ◌≢◌,
}
use doka_one.Prelude.Int.{pos}
use doka_one.Filter.Token.{land, lor, eq, lt, like}
use doka_one.Filter.Ast.Tree.{
  value_int, value_string, FilterCondition, FilterExpressionAst, condition, logical, nil, cons,
}
use doka_one.Search.Conditions.{
  TagDefinition, verify_filter_conditions, get, tag_alias, condition_filter, extract_all_conditions,
  build_query_filter,
}
use doka_one.Search.Conditions.Lookup.{
  occurrences_before, get-extract_all_conditions, build_query_filter-extract_all_conditions,
}
use doka_one.Search.TagType.{TagType, date_time, as_str, from_str}
use doka_one.Search.Query.{Environment, first_unknown, attributes, generate_search_sql}
use doka_one.Search.Query.Success.{generate_search_sql-ok}
use doka_one.Search.Query.Total.{KeepsEntries, generate_search_sql-ne-panic}
use doka_one.Search.TagType.Names.{from_str-as_str}

abbrev country_is : FilterCondition
country_is = record {
  key = codes "k1";
  attribute = codes "country";
  operator = eq;
  value = value_string (codes "FR");
}

abbrev science_below : FilterCondition
science_below = record {
  key = codes "k2";
  attribute = codes "science";
  operator = lt;
  value = value_int (pos 40);
}

abbrev country_like : FilterCondition
country_like = record {
  key = codes "k3";
  attribute = codes "country";
  operator = like;
  value = value_string (codes "F%");
}

abbrev three_conditions : FilterExpressionAst
three_conditions = logical lor (
    cons (logical land (cons (condition country_is) (cons (condition science_below) nil)))
      (cons (condition country_like) nil))

get-extract_all_conditions_example :
    get (codes "k3") (extract_all_conditions three_conditions) ≡ some (1, country_like)
unfolding occurrences_before text_eq
get-extract_all_conditions_example =
    get-extract_all_conditions three_conditions (country_is ∷ science_below ∷ []) country_like []
      (unfold extract_all_conditions in refl) ((refl, (refl, tt)), ((refl, tt), (tt, tt)))

build_query_filter-extract_all_conditions_example :
    (t : Text) × (build_query_filter three_conditions (extract_all_conditions three_conditions)
      ≡ ok t)
build_query_filter-extract_all_conditions_example =
    build_query_filter-extract_all_conditions three_conditions

from_str-as_str_example : from_str (as_str date_time) ≡ some date_time
from_str-as_str_example = from_str-as_str date_time

three_conditions_filter :
    build_query_filter three_conditions (extract_all_conditions three_conditions)
    ≡ ok (
        codes
          "(( ot_country_0.value is not null  AND  ot_science_0.value is not null ) OR  ot_country_1.value is not null )")
unfolding build_query_filter extract_all_conditions condition_filter get text_eq tag_alias
three_conditions_filter = refl

-- Two tags in the database, and maps that iterate in the order of insertion.
abbrev two_tags : Environment
two_tags = record {
  iterate = λ m. m;
  iterate_set = λ tags. tags;
  get_tag_definition = λ tags code. some (
      record { tag_names = codes "country"; tag_type = TagType.text }
      ∷ record { tag_names = codes "science"; tag_type = TagType.int }
      ∷ []);
}

two_tags-KeepsEntries : KeepsEntries two_tags.iterate
two_tags-KeepsEntries m h k = refl

generate_search_sql-ne-panic_example :
    generate_search_sql two_tags three_conditions (codes "science" ∷ []) (codes "abc") ≢ panic
generate_search_sql-ne-panic_example =
    generate_search_sql-ne-panic two_tags two_tags-KeepsEntries three_conditions
      (codes "science" ∷ []) (codes "abc")

abbrev two_definitions : List TagDefinition
two_definitions =
    record { tag_names = codes "country"; tag_type = TagType.text }
    ∷ record { tag_names = codes "science"; tag_type = TagType.int }
    ∷ []

three_conditions_known :
    first_unknown
      (two_tags.iterate_set (
        attributes (two_tags.iterate (extract_all_conditions three_conditions))
        ++ codes "science" ∷ []))
      two_definitions
    ≡ none
unfolding first_unknown attributes extract_all_conditions
three_conditions_known = refl

three_conditions_valid :
    verify_filter_conditions
      (two_tags.iterate (extract_all_conditions three_conditions))
      two_definitions
    ≡ ok tt
unfolding verify_filter_conditions extract_all_conditions text_eq
three_conditions_valid = refl

generate_search_sql-ok_example :
    (sql : Text) × (generate_search_sql two_tags three_conditions
        (codes "science" ∷ [])
        (codes "abc")
      ≡ ok sql)
generate_search_sql-ok_example =
    generate_search_sql-ok two_tags three_conditions (codes "science" ∷ []) (codes "abc")
      two_definitions two_tags-KeepsEntries refl three_conditions_known three_conditions_valid
