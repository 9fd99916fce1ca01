-- ===== src/Search/Query.antt =====
-- generator.rs: `generate_search_sql`.
pub mod Total
pub mod Success
use doka_one.Prelude.{
  ℕ, not, Option, none, some, List, [], ◌∷◌, ◌++◌, Text, codes, text_eq, join, any, find, ok, err,
  panic, ◌>>=◌,
}
use doka_one.Filter.Ast.Tree.{FilterCondition, FilterExpressionAst}
use doka_one.Search.Conditions.{
  Generated, tag_unknown, tag_search_error, TagDefinition, Conditions, extract_all_conditions,
  tag_alias, build_query_filter, find_definition, verify_filter_conditions,
}
use doka_one.Search.Columns.{
  build_tag_value_filter, replace, build_query_tag, Occurrences, push_occurrence,
  build_order_column,
}

-- What the query generator takes from elsewhere: the order in which a `HashMap` and a `HashSet`
-- iterate, and the tag definitions in the database (`none` is any error of it).
pub record Environment : Type 0 where
  pub iterate : Conditions → Conditions
  pub iterate_set : List Text → List Text
  pub get_tag_definition : List Text → Text → Option (List TagDefinition)

unfoldable pub first_unknown : List Text → List TagDefinition → Option Text
unfolding text_eq
first_unknown tags definitions = find (λ t. not (any (λ d. text_eq d.tag_names t) definitions)) tags

unfoldable pub attributes : Conditions → List Text
attributes [] = []
attributes ((k, (n, c)) ∷ m) = c.attribute ∷ attributes m

-- The join of a condition. One with no definition would panic (`unwrap`).
unfoldable pub query_tag : FilterCondition → ℕ → Option TagDefinition → Generated Text
unfolding build_tag_value_filter build_query_tag
query_tag fc occurrence none = panic
query_tag fc occurrence (some d) = do
  tag_value_filter ← build_tag_value_filter fc d.tag_type
  ok (build_query_tag fc d.tag_type occurrence tag_value_filter)

-- The joins, and the aliases of each tag.
unfoldable pub query_tags :
    List TagDefinition → Conditions → Occurrences → Generated (List Text × Occurrences)
unfolding find_definition query_tag push_occurrence tag_alias
query_tags definitions [] m = ok ([], m)
query_tags definitions ((k, (occurrence, fc)) ∷ rest) m = do
  tag ← query_tag fc occurrence (find_definition fc.attribute definitions)
  (tags, os) ←
      query_tags definitions rest
        (push_occurrence fc.attribute (tag_alias fc.attribute occurrence) m)
  ok (tag ∷ tags, os)

unfoldable pub assemble : Text → List Text → Text → List Text → Text
unfolding join replace
assemble customer_code list_of_query_tags query_filter order_columns =
    replace (codes "{customer_schema}") (codes "cs_" ++ customer_code) (
      codes "SELECT i.id,\n    name,\n    file_ref,\n    created_gmt,\n    last_modified_gmt\n    "
      ++ (codes " FROM {customer_schema}.item i \n"
          ++ (join (codes "\n") list_of_query_tags
              ++ (codes "\n WHERE \n    "
                  ++ (query_filter
                      ++ (codes "\n ORDER BY \n    "
                          ++ (join (codes ",\n    ") order_columns ++ codes "\n")))))))

-- The query, once the tags are known.
unfoldable pub build_query :
    FilterExpressionAst → Conditions → List TagDefinition → List Text → Text → Generated Text
unfolding verify_filter_conditions query_tags build_query_filter build_order_column assemble
build_query ast filter_conditions definitions order_tags customer_code = do
  _ ← verify_filter_conditions filter_conditions definitions
  (list_of_query_tags, occurrences) ← query_tags definitions filter_conditions []
  query_filter ← build_query_filter ast filter_conditions
  order_columns ← build_order_column order_tags occurrences
  ok (assemble customer_code list_of_query_tags query_filter order_columns)

-- The check that every tag is known, in front of the rest.
unfoldable pub with_known_tags : Option Text → Generated Text → Generated Text
with_known_tags (some tag) query = err (tag_unknown tag)
with_known_tags none query = query

unfoldable pub with_definitions :
    Option (List TagDefinition) → (List TagDefinition → Generated Text) → Generated Text
with_definitions none query = err (tag_search_error (codes "Error in tag search"))
with_definitions (some definitions) query = query definitions

unfoldable pub generate_search_sql :
    Environment → FilterExpressionAst → List Text → Text → Generated Text
unfolding extract_all_conditions attributes first_unknown build_query with_known_tags
    with_definitions
generate_search_sql env ast order_tags customer_code =
    let filter_conditions = env.iterate (extract_all_conditions ast) in
    let tags = env.iterate_set (attributes filter_conditions ++ order_tags) in
    with_definitions (env.get_tag_definition tags customer_code) λ definitions.
      with_known_tags (first_unknown tags definitions)
        (build_query ast filter_conditions definitions order_tags customer_code)
