-- ===== src/Search/Conditions/Lookup.antt =====
-- generator.rs: about the map of all conditions and the Boolean filter over it.
use doka_one.Prelude.{
  Bool, true, false, subst, if◌then◌else◌, ℕ, suc, ◌+◌, ◌≡◌, refl, ap, ◌∙◌, ◌⊎◌, inl, inr, true,
  false, none, some, List, [], ◌∷◌, ◌++◌, Text, codes, text_eq, text_eq_iff, text_eq_self,
  if◌then◌else◌, ok, arith, Bool-cases,
}
use doka_one.Filter.Ast.Tree.{
  FilterCondition, FilterExpressionAst, condition, logical, Leaves, nil, cons, debug_operator,
  separator,
}
use doka_one.Search.Conditions.{
  Entry, Conditions, get, put, vectorize_conditions, vectorize_leaves, count_attribute,
  insert_conditions, extract_all_conditions, tag_alias, condition_filter, build_query_filter,
  build_leaves,
}

get-put :
    (k j : Text) (e : Entry) (m : Conditions)
    → get j (put k e m) ≡ (if text_eq k j then some e else get j m)
unfolding get put
get-put k j e [] = refl
get-put k j e ((i, d) ∷ m) =
    ground (arith, text_eq_iff k j, text_eq_iff i k, text_eq_iff i j, get-put k j e m)

-- The occurrence number of a condition: how many conditions in front of it are on its attribute.
unfoldable pub occurrences_before : Text → List FilterCondition → ℕ
occurrences_before a [] = 0
occurrences_before a (c ∷ cs) =
    if text_eq c.attribute a then suc (occurrences_before a cs) else occurrences_before a cs

-- No key twice.
abbrev pub IsFresh : Text → List FilterCondition → Type 0
IsFresh k [] = Unit
IsFresh k (c ∷ cs) = (text_eq c.key k ≡ false) × IsFresh k cs

abbrev pub HasDistinctKeys : List FilterCondition → Type 0
HasDistinctKeys [] = Unit
HasDistinctKeys (c ∷ cs) = IsFresh c.key cs × HasDistinctKeys cs

-- An entry that is there stays as it is, if no later condition has its key.
get-insert_conditions :
    (cs : List FilterCondition) (k : Text) (m : Conditions)
    → IsFresh k cs
    → get k (insert_conditions cs m) ≡ get k m
unfolding insert_conditions
get-insert_conditions [] k m h = refl
get-insert_conditions (c ∷ cs) k m (h, hs) =
    get-insert_conditions cs k _ hs ∙ get-put c.key k _ m ∙ rw h refl

-- A key that is not in the map is put at its end.
count-put :
    (a k : Text) (n : ℕ) (c : FilterCondition) (m : Conditions)
    → get k m ≡ none
    → count_attribute a (put k (n, c) m)
      ≡ count_attribute a m + (if text_eq c.attribute a then 1 else 0)
unfolding get put count_attribute
count-put a k n c [] h = ground arith
count-put a k n c ((j, (i, d)) ∷ m) h = elim (Bool-cases (text_eq j k)) [
  | inl same ↦ cc (rw same at h)
  | inr other ↦ rw other (ground (arith, count-put a k n c m (rw other at h)))
]

text_eq_sym : (s t : Text) → text_eq s t ≡ false → text_eq t s ≡ false
text_eq_sym s t h = ground (arith, text_eq_iff s t, text_eq_iff t s)

abbrev Absent : List FilterCondition → Conditions → Type 0
Absent [] m = Unit
Absent (c ∷ cs) m = (get c.key m ≡ none) × Absent cs m

Absent-put :
    (k : Text) (e : Entry) (cs : List FilterCondition) (m : Conditions)
    → IsFresh k cs
    → Absent cs m
    → Absent cs (put k e m)
Absent-put k e [] m f h = tt
Absent-put k e (c ∷ cs) m (f, fs) (h, hs) =
    (get-put k c.key e m ∙ rw (text_eq_sym c.key k f) h, Absent-put k e cs m fs hs)

get-insert_conditions_at :
    (pre : List FilterCondition) (c : FilterCondition) (post : List FilterCondition)
    (m : Conditions)
    → HasDistinctKeys (pre ++ c ∷ post)
    → Absent (pre ++ c ∷ post) m
    → get c.key (insert_conditions (pre ++ c ∷ post) m)
      ≡ some (count_attribute c.attribute m + occurrences_before c.attribute pre, c)
unfolding insert_conditions occurrences_before
get-insert_conditions_at [] c post m (d, ds) (a, as') =
    get-insert_conditions post c.key _ d
    ∙ get-put c.key c.key _ m
    ∙ rw (text_eq_self c.key) (ap (λ n. some (n, c)) (omega arith))
get-insert_conditions_at (p ∷ ps) c post m (d, ds) (a, as') =
    get-insert_conditions_at ps c post _ ds (Absent-put p.key _ (ps ++ c ∷ post) m d as')
    ∙ ap (λ n. some (n, c)) (rw (count-put c.attribute p.key _ p m a) (ground arith))

Absent-nil : (cs : List FilterCondition) → Absent cs []
unfolding get
Absent-nil [] = tt
Absent-nil (c ∷ cs) = (refl, Absent-nil cs)

-- Where all keys differ, the map of all conditions holds every condition of the tree under its key,
-- numbered by the conditions on the same attribute that stand before it in the tree.
pub get-extract_all_conditions :
    (ast : FilterExpressionAst) (pre : List FilterCondition) (c : FilterCondition)
    (post : List FilterCondition)
    → vectorize_conditions ast ≡ pre ++ c ∷ post
    → HasDistinctKeys (pre ++ c ∷ post)
    → get c.key (extract_all_conditions ast) ≡ some (occurrences_before c.attribute pre, c)
unfolding extract_all_conditions
get-extract_all_conditions ast pre c post e d = rw e (
    get-insert_conditions_at pre c post [] d (Absent-nil (pre ++ c ∷ post))
    ∙ ap (λ n. some (n, c)) (unfold count_attribute in omega arith))

-- The keys of a map.
abbrev pub HasKey : Text → Conditions → Type 0
HasKey k m = (e : Entry) × (get k m ≡ some e)

HasKey-put :
    (k j : Text) (e : Entry) (m : Conditions)
    → (text_eq k j ≡ true) ⊎ HasKey j m
    → HasKey j (put k e m)
HasKey-put k j e m (inl same) = (e, get-put k j e m ∙ rw same refl)
HasKey-put k j e m (inr (d, h)) = elim (Bool-cases (text_eq k j)) [
  | inl same ↦ (e, get-put k j e m ∙ rw same refl)
  | inr other ↦ (d, get-put k j e m ∙ rw other h)
]

HasKey-insert_conditions :
    (cs : List FilterCondition) (j : Text) (m : Conditions)
    → HasKey j m
    → HasKey j (insert_conditions cs m)
unfolding insert_conditions
HasKey-insert_conditions [] j m h = h
HasKey-insert_conditions (c ∷ cs) j m h =
    HasKey-insert_conditions cs j _ (HasKey-put c.key j _ m (inr h))

abbrev pub HasKeys : List FilterCondition → Conditions → Type 0
HasKeys [] m = Unit
HasKeys (c ∷ cs) m = HasKey c.key m × HasKeys cs m

pub insert_conditions-HasKeys :
    (cs : List FilterCondition) (m : Conditions) → HasKeys cs (insert_conditions cs m)
unfolding insert_conditions
insert_conditions-HasKeys [] m = tt
insert_conditions-HasKeys (c ∷ cs) m = (
  HasKey-insert_conditions cs c.key _ (HasKey-put c.key c.key _ m (inl (text_eq_self c.key))),
  insert_conditions-HasKeys cs _,
)

HasKeys-append :
    (cs ds : List FilterCondition) (m : Conditions)
    → HasKeys (cs ++ ds) m
    → HasKeys cs m × HasKeys ds m
HasKeys-append [] ds m h = (tt, h)
HasKeys-append (c ∷ cs) ds m (k, h) = let (a, b) = HasKeys-append cs ds m h in ((k, a), b)

mutual
  unfolding build_query_filter condition_filter vectorize_conditions

  pub build_query_filter-HasKeys :
      (ast : FilterExpressionAst) (m : Conditions)
      → HasKeys (vectorize_conditions ast) m
      → (t : Text) × (build_query_filter ast m ≡ ok t)
  build_query_filter-HasKeys (condition c) m ((e, h), _) = (
    codes " " ++ (tag_alias e.1.attribute e.0 ++ codes ".value is not null "),
    ap condition_filter h,
  )
  build_query_filter-HasKeys (logical o leaves) m h =
      let (t, e) = build_leaves-HasKeys leaves (codes " " ++ (debug_operator o ++ codes " ")) m h in
      (codes "(" ++ (t ++ codes ")"), rw e refl)

  build_leaves-HasKeys :
      (leaves : Leaves) (sep : Text) (m : Conditions)
      → HasKeys (vectorize_leaves leaves) m
      → (t : Text) × (build_leaves sep leaves m ≡ ok t)
  build_leaves-HasKeys nil sep m h = ([], refl)
  build_leaves-HasKeys (cons l ls) sep m h =
      let (a, b) = HasKeys-append (vectorize_conditions l) (vectorize_leaves ls) m h in
      let (t, e) = build_query_filter-HasKeys l m a in
      let (u, k) = build_leaves-HasKeys ls sep m b in (t ++ (separator sep ls ++ u), rw (e, k) refl)

-- Over the map of all conditions of the same tree, the Boolean filter is always built: no key is
-- missing, whatever the keys are.
pub build_query_filter-extract_all_conditions :
    (ast : FilterExpressionAst)
    → (t : Text) × (build_query_filter ast (extract_all_conditions ast) ≡ ok t)
unfolding extract_all_conditions
build_query_filter-extract_all_conditions ast =
    build_query_filter-HasKeys ast _ (insert_conditions-HasKeys (vectorize_conditions ast) [])

-- No key twice, as in a `HashMap`.
abbrev pub IsMap : Conditions → Type 0
IsMap [] = Unit
IsMap ((k, e) ∷ m) = (get k m ≡ none) × IsMap m

put-IsMap : (k : Text) (e : Entry) (m : Conditions) → IsMap m → IsMap (put k e m)
unfolding put get
put-IsMap k e [] h = (refl, tt)
put-IsMap k e ((j, d) ∷ m) (absent, h) = put_in (text_eq j k) refl (put-IsMap k e m h)
  where
    put_in :
        (b : Bool)
        → text_eq j k ≡ b
        → IsMap (put k e m)
        → IsMap (if b then (k, e) ∷ m else (j, d) ∷ put k e m)
    put_in true same r = (subst (λ i. get i m ≡ none) ((text_eq_iff j k).0 same) absent, h)
    put_in false other r = (get-put k j e m ∙ rw (text_eq_sym j k other) absent, r)

pub insert_conditions-IsMap :
    (cs : List FilterCondition) (m : Conditions) → IsMap m → IsMap (insert_conditions cs m)
unfolding insert_conditions
insert_conditions-IsMap [] m h = h
insert_conditions-IsMap (c ∷ cs) m h = insert_conditions-IsMap cs _ (put-IsMap c.key _ m h)
