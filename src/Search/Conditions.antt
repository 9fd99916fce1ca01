-- ===== src/Search/Conditions.antt =====
-- generator.rs: the conditions of a tree by their keys, their occurrence numbers, and the checks
-- against the tag definitions. A `HashMap` is an association list.
pub mod Lookup
use doka_one.Prelude.{
  ℕ, zero, suc, ◌+◌, Bool, true, false, ◌&&◌, not, Option, none, some, List, [], ◌∷◌, ◌++◌, Text,
  codes, text_eq, any, find, if◌then◌else◌, Outcome, ok, err, panic, ◌>>=◌,
}
use doka_one.Filter.Token.{ComparisonOperator}
use doka_one.Filter.Ast.Tree.{
  FilterCondition, FilterExpressionAst, condition, logical, Leaves, nil, cons, debug_operator,
  debug_comparison, separator,
}
use doka_one.Filter.Number.{show_ℕ}
use doka_one.Search.TagType.{TagType, legal_operators, debug_tag_type, same_comparison}

-- The payload is the message or the name.
pub data GenerationError : Type 0 where
  tag_unknown tag_type_unknown tag_search_error tag_incompatible_type : Text → GenerationError

abbrev pub Generated : Type 0 → Type 0
Generated = Outcome GenerationError

pub record TagDefinition : Type 0 where
  pub tag_names : Text
  pub tag_type : TagType

-- The value of a key: the condition and its occurrence number among those of its attribute.
abbrev pub Entry : Type 0
Entry = ℕ × FilterCondition

abbrev pub Conditions : Type 0
Conditions = List (Text × Entry)

unfoldable pub get : Text → Conditions → Option Entry
get k [] = none
get k ((j, e) ∷ m) = if text_eq j k then some e else get k m

unfoldable pub put : Text → Entry → Conditions → Conditions
put k e [] = (k, e) ∷ []
put k e ((j, d) ∷ m) = if text_eq j k then (k, e) ∷ m else (j, d) ∷ put k e m

-- `vectorize_conditions` never fails, so that no leaf is left out.
unfoldable mutual
  pub vectorize_conditions : FilterExpressionAst → List FilterCondition
  vectorize_conditions (condition c) = c ∷ []
  vectorize_conditions (logical o leaves) = vectorize_leaves leaves

  pub vectorize_leaves : Leaves → List FilterCondition
  vectorize_leaves nil = []
  vectorize_leaves (cons l ls) = vectorize_conditions l ++ vectorize_leaves ls

unfoldable pub count_attribute : Text → Conditions → ℕ
count_attribute a [] = 0
count_attribute a ((k, (n, c)) ∷ m) =
    if text_eq c.attribute a then suc (count_attribute a m) else count_attribute a m

unfoldable pub insert_conditions : List FilterCondition → Conditions → Conditions
unfolding put count_attribute
insert_conditions [] m = m
insert_conditions (c ∷ cs) m = insert_conditions cs (put c.key (count_attribute c.attribute m, c) m)

unfoldable pub extract_all_conditions : FilterExpressionAst → Conditions
unfolding insert_conditions vectorize_conditions
extract_all_conditions ast = insert_conditions (vectorize_conditions ast) []

-- `ot_{attribute}_{occurrence}`, the table alias of a condition.
unfoldable pub tag_alias : Text → ℕ → Text
unfolding show_ℕ
tag_alias attribute occurrence = codes "ot_" ++ (attribute ++ (codes "_" ++ show_ℕ occurrence))

-- The leaf of a condition, from its entry; a key that is missing panics.
unfoldable pub condition_filter : Option Entry → Generated Text
condition_filter none = panic
condition_filter (some (index, fc)) =
    ok (codes " " ++ (tag_alias fc.attribute index ++ codes ".value is not null "))

-- The Boolean structure of the filter over its table aliases. (The leaves of a logical
-- expression never return an error.)
unfoldable mutual
  pub build_query_filter : FilterExpressionAst → Conditions → Generated Text
  build_query_filter (condition c) m = condition_filter (get c.key m)
  build_query_filter (logical o leaves) m = do
    content ← build_leaves (codes " " ++ (debug_operator o ++ codes " ")) leaves m
    ok (codes "(" ++ (content ++ codes ")"))

  pub build_leaves : Text → Leaves → Conditions → Generated Text
  build_leaves sep nil m = ok []
  build_leaves sep (cons l ls) m = do
    leaf ← build_query_filter l m
    rest ← build_leaves sep ls m
    ok (leaf ++ (separator sep ls ++ rest))

unfoldable pub find_definition : Text → List TagDefinition → Option TagDefinition
find_definition name definitions = find (λ d. text_eq d.tag_names name) definitions

unfoldable pub verify_operator :
    FilterCondition → TagType → Option (List ComparisonOperator) → Generated (Unit {0})
verify_operator c t none = err (
    tag_incompatible_type (
      codes "Tag : "
      ++ (c.attribute ++ (codes ", No valid operators defined for tag type " ++ debug_tag_type t))))
verify_operator c t (some valid) =
    if any (λ o. same_comparison o c.operator) valid
    then ok tt
    else err (
        tag_incompatible_type (
          codes "Tag : "
          ++ (c.attribute
              ++ (codes ", Invalid operator "
                  ++ (debug_comparison c.operator
                      ++ (codes " for tag type " ++ debug_tag_type t))))))

unfoldable pub verify_definition : FilterCondition → Option TagDefinition → Generated (Unit {0})
unfolding verify_operator legal_operators
verify_definition c none = err (
    tag_incompatible_type
      (codes "Tag attribute '" ++ (c.attribute ++ codes "' not found in definitions")))
verify_definition c (some d) = verify_operator c d.tag_type (legal_operators d.tag_type)

unfoldable pub verify_filter_condition : FilterCondition → List TagDefinition → Generated (Unit {0})
unfolding find_definition verify_definition
verify_filter_condition c definitions =
    verify_definition c (find_definition c.attribute definitions)

-- In the order in which the map iterates.
unfoldable pub verify_filter_conditions : Conditions → List TagDefinition → Generated (Unit {0})
unfolding verify_filter_condition
verify_filter_conditions [] definitions = ok tt
verify_filter_conditions ((k, (n, c)) ∷ m) definitions = do
  _ ← verify_filter_condition c definitions
  verify_filter_conditions m definitions
