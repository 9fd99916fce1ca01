-- ===== src/Search/Query/Total.antt =====
-- generator.rs: about the failures of `generate_search_sql`.
use doka_one.Prelude.{
  ◌≡◌, ◌≢◌, refl, ◌∙◌, Bool, true, false, ◌&&◌, Option, none, some, List, [], ◌∷◌, ◌++◌, map, Text,
  codes, text_eq, any, if◌then◌else◌, ok, panic, Ensures, holds, rejected, Ensures-if, Ensures-bind,
  Ensures-mono, Ensures-ne-panic, ascii_lower,
}
use doka_one.Filter.Token.{ComparisonOperator, eq}
use doka_one.Filter.Ast.Tree.{FilterCondition, FilterExpressionAst, show_value}
use doka_one.Search.TagType.{TagType, text, bool, int, double, legal_operators, same_comparison}
use doka_one.Search.Conditions.{
  Generated, TagDefinition, Conditions, get, extract_all_conditions, vectorize_conditions,
  tag_alias, find_definition, verify_filter_condition, verify_filter_conditions, verify_definition,
  verify_operator,
}
use doka_one.Search.Conditions.Lookup.{
  HasKeys, IsMap, insert_conditions-IsMap, insert_conditions-HasKeys, build_query_filter-HasKeys,
}
use doka_one.Search.Columns.{
  build_tag_value_filter, Occurrences, get_occurrences, push_occurrence, order_column, add_column,
  build_order_column,
}
use doka_one.Search.Query.{
  Environment, first_unknown, attributes, query_tag, query_tags, build_query, with_known_tags,
  with_definitions, generate_search_sql,
}

-- A condition whose tag is defined, with a type that has a SQL condition.
pub record IsLegal (c : FilterCondition) (definitions : List TagDefinition) : Type 0 where
  pub definition : TagDefinition
  pub found : find_definition c.attribute definitions ≡ some definition
  pub filter : Text
  pub built : build_tag_value_filter c definition.tag_type ≡ ok filter

abbrev pub AreLegal : Conditions → List TagDefinition → Type 0
AreLegal [] definitions = Unit
AreLegal ((k, (n, c)) ∷ m) definitions = IsLegal c definitions × AreLegal m definitions

-- Only the types with legal operators have a SQL condition.
build_tag_value_filter-legal_operators :
    (c : FilterCondition) (t : TagType) {os : List ComparisonOperator}
    → legal_operators t ≡ some os
    → (f : Text) × (build_tag_value_filter c t ≡ ok f)
unfolding build_tag_value_filter legal_operators
build_tag_value_filter-legal_operators c text e = (_, refl)
build_tag_value_filter-legal_operators c int e = (_, refl)
build_tag_value_filter-legal_operators c double e = (_, refl)
build_tag_value_filter-legal_operators c bool e =
    either (
      same_comparison c.operator eq
      && text_eq (map ascii_lower (show_value c.value)) (codes "true"))
  where
    either :
        (b : Bool)
        → (f : Text) × (◌≡◌ {A = Generated Text}
            (if b then ok (codes "tv.value_boolean") else ok (codes "NOT tv.value_boolean"))
            (ok f))
    either true = (_, refl)
    either false = (_, refl)
build_tag_value_filter-legal_operators c _ e = cc

verify_filter_condition-IsLegal :
    (c : FilterCondition) (definitions : List TagDefinition)
    → Ensures ⊥ (λ _. IsLegal c definitions) (verify_filter_condition c definitions)
unfolding verify_filter_condition verify_definition verify_operator
verify_filter_condition-IsLegal c definitions =
    defined (find_definition c.attribute definitions) refl
  where
    legal :
        (d : TagDefinition)
        → find_definition c.attribute definitions ≡ some d
        → (o : Option (List ComparisonOperator)) → legal_operators d.tag_type ≡ o
        → Ensures ⊥ (λ _. IsLegal c definitions) (verify_operator c d.tag_type o)
    legal d e none e' = rejected
    legal d e (some valid) e' =
        Ensures-if (any (λ o. same_comparison o c.operator) valid)
          (λ _.
            let (f, b) = build_tag_value_filter-legal_operators c d.tag_type e' in
            holds (record { definition = d; found = e; filter = f; built = b }))
          (λ _. rejected)

    defined :
        (o : Option TagDefinition)
        → find_definition c.attribute definitions ≡ o
        → Ensures ⊥ (λ _. IsLegal c definitions) (verify_definition c o)
    defined none e = rejected
    defined (some d) e = legal d e (legal_operators d.tag_type) refl

pub verify_filter_conditions-AreLegal :
    (m : Conditions) (definitions : List TagDefinition)
    → Ensures ⊥ (λ _. AreLegal m definitions) (verify_filter_conditions m definitions)
unfolding verify_filter_conditions
verify_filter_conditions-AreLegal [] definitions = holds tt
verify_filter_conditions-AreLegal ((k, (n, c)) ∷ m) definitions =
    Ensures-bind (verify_filter_condition-IsLegal c definitions)
      λ _ l. Ensures-mono (λ _ ls. (l, ls)) (verify_filter_conditions-AreLegal m definitions)

-- Every tag that is there has an alias.
abbrev pub HasAliases : Occurrences → Type 0
HasAliases [] = Unit
HasAliases ((k, []) ∷ m) = ⊥
HasAliases ((k, o ∷ os) ∷ m) = HasAliases m

pub push_occurrence-HasAliases :
    (k o : Text) (m : Occurrences) → HasAliases m → HasAliases (push_occurrence k o m)
unfolding push_occurrence
push_occurrence-HasAliases k o [] h = tt
push_occurrence-HasAliases k o ((j, []) ∷ m) h = absurd h
push_occurrence-HasAliases k o ((j, p ∷ ps) ∷ m) h =
    pushed (text_eq j k) (push_occurrence-HasAliases k o m h)
  where
    pushed :
        (b : Bool)
        → HasAliases (push_occurrence k o m)
        → HasAliases
            (if b then (j, (p ∷ ps) ++ o ∷ []) ∷ m else (j, p ∷ ps) ∷ push_occurrence k o m)
    pushed true r = h
    pushed false r = r

query_tags-HasAliases :
    (definitions : List TagDefinition) (cs : Conditions) (m : Occurrences)
    → AreLegal cs definitions
    → HasAliases m
    → Ensures ⊥ (λ (tags, os). HasAliases os) (query_tags definitions cs m)
unfolding query_tags query_tag
query_tags-HasAliases definitions [] m ls h = holds h
query_tags-HasAliases definitions ((k, (n, c)) ∷ cs) m (l, ls) h =
    rw (l.found, l.built)
      (Ensures-bind
        (query_tags-HasAliases definitions cs
          (push_occurrence c.attribute (tag_alias c.attribute n) m) ls
          (push_occurrence-HasAliases c.attribute (tag_alias c.attribute n) m h))
        λ (tags, os) k. holds k)

add_column-total :
    (tag : Text) (m : Occurrences) (rest : List Text)
    → HasAliases m
    → Ensures ⊥ (λ _. Unit) (add_column (get_occurrences tag m) rest)
unfolding add_column order_column get_occurrences
add_column-total tag [] rest h = holds tt
add_column-total tag ((j, []) ∷ m) rest h = absurd h
add_column-total tag ((j, o ∷ os) ∷ m) rest h =
    column (get_occurrences tag m) (text_eq j tag) (add_column-total tag m rest h)
  where
    column :
        (q : Option (List Text)) (b : Bool)
        → Ensures ⊥ (λ _. Unit {0}) (add_column q rest)
        → Ensures ⊥ (λ _. Unit {0}) (add_column (if b then some (o ∷ os) else q) rest)
    column q true r = holds tt
    column q false r = r

build_order_column-total :
    (tags : List Text) (m : Occurrences)
    → HasAliases m
    → Ensures ⊥ (λ _. Unit) (build_order_column tags m)
unfolding build_order_column
build_order_column-total [] m h = holds tt
build_order_column-total (tag ∷ tags) m h =
    Ensures-bind (build_order_column-total tags m h) λ rest _. add_column-total tag m rest h

-- Iterating over a map, in whatever order, changes nothing that is in it.
abbrev pub KeepsEntries : (Conditions → Conditions) → Type 0
KeepsEntries iterate = (m : Conditions) → IsMap m → (k : Text) → get k (iterate m) ≡ get k m

pub HasKeys-iterate :
    (iterate : Conditions → Conditions)
    → KeepsEntries iterate
    → (cs : List FilterCondition) (m : Conditions) → IsMap m
    → HasKeys cs m
    → HasKeys cs (iterate m)
HasKeys-iterate iterate keeps [] m u h = tt
HasKeys-iterate iterate keeps (c ∷ cs) m u ((e, h), hs) =
    ((e, keeps m u c.key ∙ h), HasKeys-iterate iterate keeps cs m u hs)

build_query-total :
    (ast : FilterExpressionAst) (m : Conditions) (definitions : List TagDefinition)
    (order_tags : List Text) (customer_code : Text)
    → HasKeys (vectorize_conditions ast) m
    → Ensures ⊥ (λ _. Unit) (build_query ast m definitions order_tags customer_code)
unfolding build_query
build_query-total ast m definitions order_tags customer_code keys =
    Ensures-bind (verify_filter_conditions-AreLegal m definitions) λ _ ls.
      Ensures-bind (query_tags-HasAliases definitions m [] ls tt) λ (tags, os) has.
        let (filter, e) = build_query_filter-HasKeys ast m keys in
        rw e (Ensures-bind (build_order_column-total order_tags os has) λ columns _. holds tt)

-- The generation of a query never panics, whatever the tree, the definitions in the database and
-- the tags to order by are, provided that iterating over a map changes nothing that is in it.
pub generate_search_sql-ne-panic :
    (env : Environment)
    → KeepsEntries env.iterate
    → (ast : FilterExpressionAst) (order_tags : List Text) (customer_code : Text)
    → generate_search_sql env ast order_tags customer_code ≢ panic
unfolding generate_search_sql with_known_tags with_definitions extract_all_conditions
generate_search_sql-ne-panic env keeps ast order_tags customer_code =
    Ensures-ne-panic (λ q. q) (known (env.get_tag_definition tags customer_code))
  where
    conditions : Conditions
    conditions = env.iterate (extract_all_conditions ast)

    tags : List Text
    tags = env.iterate_set (attributes conditions ++ order_tags)

    checked :
        (o : Option Text) (definitions : List TagDefinition)
        → Ensures ⊥
            (λ _. Unit {0})
            (with_known_tags o (build_query ast conditions definitions order_tags customer_code))
    checked none definitions =
        build_query-total ast conditions definitions order_tags customer_code (
          HasKeys-iterate env.iterate keeps (vectorize_conditions ast) (extract_all_conditions ast)
            (insert_conditions-IsMap (vectorize_conditions ast) [] tt)
            (insert_conditions-HasKeys (vectorize_conditions ast) []))
    checked (some tag) definitions = rejected

    known :
        (o : Option (List TagDefinition))
        → Ensures ⊥
            (λ _. Unit {0})
            (with_definitions o λ definitions.
              with_known_tags
                (first_unknown tags definitions)
                (build_query ast conditions definitions order_tags customer_code))
    known none = rejected
    known (some definitions) = checked (first_unknown tags definitions) definitions
