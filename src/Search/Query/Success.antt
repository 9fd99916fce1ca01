-- ===== src/Search/Query/Success.antt =====
-- generator.rs: about when `generate_search_sql` returns a query.
use doka_one.Prelude.{
  ◌≡◌, refl, Bool, true, false, Option, none, some, List, [], ◌∷◌, ◌++◌, Text, text_eq,
  if◌then◌else◌, ok, Ensures-ok,
}
use doka_one.Filter.Ast.Tree.{FilterExpressionAst}
use doka_one.Search.Conditions.{
  TagDefinition, Conditions, extract_all_conditions, vectorize_conditions, tag_alias,
  verify_filter_conditions,
}
use doka_one.Search.Conditions.Lookup.{
  HasKeys, insert_conditions-IsMap, insert_conditions-HasKeys, build_query_filter-HasKeys,
}
use doka_one.Search.Columns.{
  build_query_tag, Occurrences, get_occurrences, push_occurrence, order_column, add_column,
  build_order_column,
}
use doka_one.Search.Query.{
  Environment, first_unknown, attributes, query_tag, query_tags, build_query, assemble,
  with_known_tags, with_definitions, generate_search_sql,
}
use doka_one.Search.Query.Total.{
  AreLegal, verify_filter_conditions-AreLegal, HasAliases, push_occurrence-HasAliases, KeepsEntries,
  HasKeys-iterate,
}

query_tags-ok :
    (definitions : List TagDefinition) (cs : Conditions) (m : Occurrences)
    → AreLegal cs definitions
    → HasAliases m
    → (tags : List Text) × (os : Occurrences) × (query_tags definitions cs m ≡ ok (tags, os))
      × HasAliases os
unfolding query_tags query_tag
query_tags-ok definitions [] m ls h = ([], m, refl, h)
query_tags-ok definitions ((k, (n, c)) ∷ cs) m (l, ls) h =
    let (tags, os, e, has) =
      query_tags-ok definitions cs (push_occurrence c.attribute (tag_alias c.attribute n) m) ls
        (push_occurrence-HasAliases c.attribute (tag_alias c.attribute n) m h) in
    (
      build_query_tag c l.definition.tag_type n l.filter ∷ tags,
      os,
      rw (l.found, l.built, e) refl,
      has,
    )

add_column-ok :
    (tag : Text) (m : Occurrences) (rest : List Text)
    → HasAliases m
    → (ts : List Text) × (add_column (get_occurrences tag m) rest ≡ ok ts)
unfolding add_column order_column get_occurrences
add_column-ok tag [] rest h = (rest, refl)
add_column-ok tag ((j, []) ∷ m) rest h = absurd h
add_column-ok tag ((j, o ∷ os) ∷ m) rest h =
    column (get_occurrences tag m) (text_eq j tag) (add_column-ok tag m rest h)
  where
    column :
        (q : Option (List Text)) (b : Bool)
        → ((ts : List Text) × (add_column q rest ≡ ok ts))
        → (ts : List Text) × (add_column (if b then some (o ∷ os) else q) rest ≡ ok ts)
    column q true r = (_, refl)
    column q false r = r

build_order_column-ok :
    (tags : List Text) (m : Occurrences)
    → HasAliases m
    → (ts : List Text) × (build_order_column tags m ≡ ok ts)
unfolding build_order_column
build_order_column-ok [] m h = ([], refl)
build_order_column-ok (tag ∷ tags) m h =
    let (rest, e) = build_order_column-ok tags m h in
    let (ts, e') = add_column-ok tag m rest h in (ts, rw e e')

build_query-ok :
    (ast : FilterExpressionAst) (m : Conditions) (definitions : List TagDefinition)
    (order_tags : List Text) (customer_code : Text)
    → HasKeys (vectorize_conditions ast) m
    → verify_filter_conditions m definitions ≡ ok tt
    → (sql : Text) × (build_query ast m definitions order_tags customer_code ≡ ok sql)
unfolding build_query
build_query-ok ast m definitions order_tags customer_code keys valid =
    let ls =
      Ensures-ok {P = λ _. AreLegal m definitions} (verify_filter_conditions-AreLegal m definitions)
        valid in
    let (tags, os, e, has) = query_tags-ok definitions m [] ls tt in
    let (filter, e') = build_query_filter-HasKeys ast m keys in
    let (columns, e'') = build_order_column-ok order_tags os has in
    (assemble customer_code tags filter columns, rw (valid, e, e', e'') refl)

-- A query is generated wherever the database gives definitions, every tag has one, and every
-- condition passes the check of its operator: nothing else makes it fail, provided that iterating
-- over a map changes nothing that is in it.
pub generate_search_sql-ok :
    (env : Environment) (ast : FilterExpressionAst) (order_tags : List Text) (customer_code : Text)
    (definitions : List TagDefinition)
    → KeepsEntries env.iterate
    → let conditions = env.iterate (extract_all_conditions ast) in
      let tags = env.iterate_set (attributes conditions ++ order_tags) in
      env.get_tag_definition tags customer_code ≡ some definitions
      → first_unknown tags definitions ≡ none
      → verify_filter_conditions conditions definitions ≡ ok tt
      → (sql : Text) × (generate_search_sql env ast order_tags customer_code ≡ ok sql)
unfolding generate_search_sql with_known_tags with_definitions extract_all_conditions
generate_search_sql-ok env ast order_tags customer_code definitions keeps given known valid =
    let (sql, e) =
      build_query-ok ast (env.iterate (extract_all_conditions ast)) definitions order_tags
        customer_code
        (HasKeys-iterate env.iterate keeps (vectorize_conditions ast) (extract_all_conditions ast)
          (insert_conditions-IsMap (vectorize_conditions ast) [] tt)
          (insert_conditions-HasKeys (vectorize_conditions ast) []))
        valid in
    (sql, rw (given, known) e)
