-- ===== src/Pg/ParseQuery/Template.antt =====
-- sql_transaction.rs: about the named parameters of a query.
use doka_one.Prelude.{
  ℕ, zero, suc, ◌+◌, ◌-◌, ◌≡◌, ◌≢◌, refl, sym, ap, ◌∙◌, Bool, true, false, ◌&&◌, List, [], ◌∷◌,
  ◌++◌, append_assoc, append-nil, Text, text_eq, text_eq_iff, starts_with, length, ◌==◌,
  if◌then◌else◌, All, arith, is_digit, leb, ltb, ◌||◌, ◌/◌, ◌%◌,
}
use doka_one.Filter.Number.{show_digits, show_ℕ}
use doka_one.Pg.Cell.{CellValue}
use doka_one.Pg.ParseQuery.{
  Params, replace_from, replace, param_mark, position_mark, parse_params, parse_query,
}

-- A query, cut at its parameters.
pub data Piece : Type 0 where
  sql : Text → Piece
  param : Text → Piece

abbrev pub print : List Piece → Text
print [] = []
print (sql t ∷ ps) = t ++ print ps
print (param name ∷ ps) = (b':' ∷ name) ++ print ps

-- The characters of which names are made.
abbrev pub is_name_char : ℕ → Bool
is_name_char c = is_digit c || leb b'a' c && leb c b'z' || leb b'A' c && leb c b'Z' || c == b'_'

abbrev pub IsName : Text → Type 0
IsName = All (λ c. is_name_char c ≡ true)

-- The text does not go on with a character of a name.
abbrev pub EndsName : Text → Type 0
EndsName [] = Unit
EndsName (c ∷ s) = is_name_char c ≡ false

abbrev pub HasNoMark : Text → Type 0
HasNoMark = All (λ c. c ≢ b':')

-- No colon but those of the parameters, and every parameter ends where its name does.
abbrev pub IsTemplate : List Piece → Type 0
IsTemplate [] = Unit
IsTemplate (sql t ∷ ps) = HasNoMark t × IsTemplate ps
IsTemplate (param n ∷ ps) = IsName n × (EndsName (print ps) × IsTemplate ps)

-- No name in the query is the given one with more behind it.
abbrev pub Distinguishes : Text → List Piece → Type 0
Distinguishes name [] = Unit
Distinguishes name (sql t ∷ ps) = Distinguishes name ps
Distinguishes name (param n ∷ ps) = (starts_with n name ≡ true → n ≡ name) × Distinguishes name ps

starts_with-append : (n r : Text) → starts_with (n ++ r) n ≡ true
unfolding starts_with
starts_with-append [] [] = refl
starts_with-append [] (c ∷ r) = refl
starts_with-append (c ∷ n) r = ground (arith, starts_with-append n r)

-- A name that starts a name and what stands behind it, starts the name alone.
starts_with-EndsName :
    (m r n : Text) → IsName n → EndsName r → starts_with (m ++ r) n ≡ true → starts_with m n ≡ true
unfolding starts_with
starts_with-EndsName [] [] n h e s = s
starts_with-EndsName [] (c ∷ r) [] h e s = refl
starts_with-EndsName [] (c ∷ r) (d ∷ n) (g, h) e s = ground arith
starts_with-EndsName (b ∷ m) r [] h e s = refl
starts_with-EndsName (b ∷ m) r (d ∷ n) (g, h) e s = ground (arith, starts_with-EndsName m r n h e)

IsName-HasNoMark : (n : Text) → IsName n → HasNoMark n
IsName-HasNoMark [] h = tt
IsName-HasNoMark (c ∷ n) (g, h) = (λ e. ground arith, IsName-HasNoMark n h)

replace_from-skip :
    (from to n rest : Text)
    → replace_from (length n) from to (n ++ rest) ≡ replace_from 0 from to rest
unfolding replace_from
replace_from-skip from to [] [] = refl
replace_from-skip from to [] (c ∷ rest) = refl
replace_from-skip from to (c ∷ n) rest = replace_from-skip from to n rest

module _ (name : Text) (to : Text) where
  -- Every mark of one parameter becomes a position.
  abbrev number_param : List Piece → List Piece
  number_param [] = []
  number_param (sql t ∷ ps) = sql t ∷ number_param ps
  number_param (param n ∷ ps) = (if text_eq n name then sql to else param n) ∷ number_param ps

  -- Nothing starts with a colon in text that has none.
  pub replace-sql :
      (t rest : Text)
      → HasNoMark t
      → replace (b':' ∷ name) to (t ++ rest) ≡ t ++ replace (b':' ∷ name) to rest
  unfolding replace replace_from starts_with
  replace-sql [] rest h = refl
  replace-sql (c ∷ t) rest (ne, h) = ground (arith, replace-sql t rest h)

  pub replace-HasNoMark : (t : Text) → HasNoMark t → replace (b':' ∷ name) to t ≡ t
  replace-HasNoMark t h =
      ap (replace (b':' ∷ name) to) (sym (append-nil t))
      ∙ replace-sql t [] h
      ∙ unfold replace replace_from in append-nil t

  -- At its own mark, a parameter is replaced.
  pub replace-mark :
      (rest : Text)
      → replace (b':' ∷ name) to ((b':' ∷ name) ++ rest) ≡ to ++ replace (b':' ∷ name) to rest
  unfolding replace replace_from starts_with
  replace-mark rest =
      let skip : replace_from (length name) (b':' ∷ name) to (name ++ rest)
          ≡ replace_from 0 (b':' ∷ name) to rest =
        replace_from-skip (b':' ∷ name) to name rest in
      let same : suc (length name) - 1 ≡ length name = omega arith in
      rw (starts_with-append name rest, same, skip) refl

  -- A mark that does not start with it is left.
  replace-other :
      (n rest : Text)
      → HasNoMark n
      → starts_with (n ++ rest) name ≡ false
      → replace (b':' ∷ name) to ((b':' ∷ n) ++ rest) ≡ (b':' ∷ n) ++ replace (b':' ∷ name) to rest
  unfolding replace replace_from starts_with
  replace-other n rest h e = rw e (ap (λ s. b':' ∷ s) (replace-sql n rest h))

  module _ (is_name : IsName name) where
    replace-print :
        (ps : List Piece)
        → IsTemplate ps
        → Distinguishes name ps
        → replace (b':' ∷ name) to (print ps) ≡ print (number_param ps)
    replace-print [] h d = unfold replace replace_from in refl
    replace-print (sql t ∷ ps) (free, h) d =
        replace-sql t (print ps) free ∙ ap (λ s. t ++ s) (replace-print ps h d)
    replace-print (param n ∷ ps) (f, (ends, h)) (other, d) =
        at_param (text_eq n name) refl (replace-print ps h d)
      where
        at_param :
            (b : Bool)
            → text_eq n name ≡ b
            → replace (b':' ∷ name) to (print ps) ≡ print (number_param ps)
            → replace (b':' ∷ name) to ((b':' ∷ n) ++ print ps)
              ≡ print ((if b then sql to else param n) ∷ number_param ps)
        at_param true e ih =
            ap (λ k. replace (b':' ∷ name) to ((b':' ∷ k) ++ print ps)) ((text_eq_iff n name).0 e)
            ∙ replace-mark (print ps)
            ∙ ap (λ s. to ++ s) ih
        at_param false e ih =
            replace-other n (print ps) (IsName-HasNoMark n f)
              (differs (starts_with (n ++ print ps) name) refl)
            ∙ ap (λ s. (b':' ∷ n) ++ s) ih
          where
            differs : (b : Bool) → starts_with (n ++ print ps) name ≡ b → b ≡ false
            differs true s =
                let same : n ≡ name =
                  other (starts_with-EndsName n (print ps) name is_name ends s) in
                cc ((text_eq_iff n name).1 same)
            differs false s = refl

  -- What `to` must be like, to leave a template behind.
  module _ (free : HasNoMark to) (ends_to : (s : Text) → EndsName (to ++ s)) where
    EndsName-number_param :
        (ps : List Piece) → EndsName (print ps) → EndsName (print (number_param ps))
    EndsName-number_param [] h = tt
    EndsName-number_param (sql [] ∷ ps) h = EndsName-number_param ps h
    EndsName-number_param (sql (c ∷ t) ∷ ps) h = h
    EndsName-number_param (param n ∷ ps) h = at_param (text_eq n name)
      where
        at_param : (b : Bool) → EndsName (print ((if b then sql to else param n) ∷ number_param ps))
        at_param true = ends_to (print (number_param ps))
        at_param false = refl

    number_param-IsTemplate : (ps : List Piece) → IsTemplate ps → IsTemplate (number_param ps)
    number_param-IsTemplate [] h = tt
    number_param-IsTemplate (sql t ∷ ps) (f, h) = (f, number_param-IsTemplate ps h)
    number_param-IsTemplate (param n ∷ ps) (f, (e, h)) =
        at_param (text_eq n name) (number_param-IsTemplate ps h)
      where
        at_param :
            (b : Bool)
            → IsTemplate (number_param ps)
            → IsTemplate ((if b then sql to else param n) ∷ number_param ps)
        at_param true r = (free, r)
        at_param false r = (f, (EndsName-number_param ps e, r))

  number_param-Distinguishes :
      (m : Text) (ps : List Piece) → Distinguishes m ps → Distinguishes m (number_param ps)
  number_param-Distinguishes m [] h = tt
  number_param-Distinguishes m (sql t ∷ ps) h = number_param-Distinguishes m ps h
  number_param-Distinguishes m (param n ∷ ps) (k, h) =
      at_param (text_eq n name) (number_param-Distinguishes m ps h)
    where
      at_param :
          (b : Bool)
          → Distinguishes m (number_param ps)
          → Distinguishes m ((if b then sql to else param n) ∷ number_param ps)
      at_param true r = r
      at_param false r = (k, r)

-- The parameters are named as names are, and the query holds no longer name.
abbrev pub AreParams : Params → List Piece → Type 0
AreParams [] ps = Unit
AreParams ((n, v) ∷ params) ps = IsName n × (Distinguishes n ps × AreParams params ps)

AreParams-number_param :
    (name to : Text) (params : Params) (ps : List Piece)
    → AreParams params ps
    → AreParams params (number_param name to ps)
AreParams-number_param name to [] ps h = tt
AreParams-number_param name to ((n, v) ∷ params) ps (i, (d, h)) =
    (i, (number_param-Distinguishes name to n ps d, AreParams-number_param name to params ps h))

pub HasNoMark-append : (s t : Text) → HasNoMark s → HasNoMark t → HasNoMark (s ++ t)
HasNoMark-append [] t h k = k
HasNoMark-append (c ∷ s) t (g, h) k = (g, HasNoMark-append s t h k)

HasNoMark-show_digits : (f n : ℕ) → HasNoMark (show_digits f n)
unfolding show_digits
HasNoMark-show_digits zero n = tt
HasNoMark-show_digits (suc f) n = at_digit (ltb n 10) refl (HasNoMark-show_digits f (n / 10))
  where
    at_digit :
        (b : Bool)
        → ltb n 10 ≡ b
        → HasNoMark (show_digits f (n / 10))
        → HasNoMark (if b then (48 + n) ∷ [] else show_digits f (n / 10) ++ (48 + n % 10) ∷ [])
    at_digit true e h = ((λ k. ground arith), tt)
    at_digit false e h = HasNoMark-append _ _ h ((λ k. omega arith), tt)

pub HasNoMark-position_mark : (k : ℕ) → HasNoMark (position_mark k)
unfolding show_ℕ
HasNoMark-position_mark k = ((λ e. omega arith), HasNoMark-show_digits (suc k) k)

-- The mark that a parameter gets: its position, counted from `k`.
abbrev pub mark_of : Params → ℕ → Text → Text
mark_of [] k n = param_mark n
mark_of ((m, v) ∷ params) k n = if text_eq n m then position_mark k else mark_of params (k + 1) n

abbrev pub print_numbered : Params → ℕ → List Piece → Text
print_numbered params k [] = []
print_numbered params k (sql t ∷ ps) = t ++ print_numbered params k ps
print_numbered params k (param n ∷ ps) = mark_of params k n ++ print_numbered params k ps

abbrev pub values : Params → List CellValue
values [] = []
values ((n, v) ∷ params) = v ∷ values params

-- Numbering the first parameter and then the others numbers all.
print_numbered-cons :
    (n : Text) (v : CellValue) (params : Params) (k : ℕ) (ps : List Piece)
    → print_numbered params (k + 1) (number_param n (position_mark k) ps)
      ≡ print_numbered ((n, v) ∷ params) k ps
print_numbered-cons n v params k [] = refl
print_numbered-cons n v params k (sql t ∷ ps) =
    ap (λ s. t ++ s) (print_numbered-cons n v params k ps)
print_numbered-cons n v params k (param m ∷ ps) =
    at_param (text_eq m n) (print_numbered-cons n v params k ps)
  where
    at_param :
        (b : Bool)
        → print_numbered params (k + 1) (number_param n (position_mark k) ps)
          ≡ print_numbered ((n, v) ∷ params) k ps
        → print_numbered params
            (k + 1)
            ((if b then sql (position_mark k) else param m) ∷ number_param n (position_mark k) ps)
          ≡ (if b then position_mark k else mark_of params (k + 1) m)
            ++ print_numbered ((n, v) ∷ params) k ps
    at_param true ih = ap (λ s. position_mark k ++ s) ih
    at_param false ih = ap (λ s. mark_of params (k + 1) m ++ s) ih

print_numbered-nil : (k : ℕ) (ps : List Piece) → print_numbered [] k ps ≡ print ps
print_numbered-nil k [] = refl
print_numbered-nil k (sql t ∷ ps) = ap (λ s. t ++ s) (print_numbered-nil k ps)
print_numbered-nil k (param n ∷ ps) = ap (λ s. (b':' ∷ n) ++ s) (print_numbered-nil k ps)

parse_params-print :
    (params : Params) (k : ℕ) (ps : List Piece) (vs : List CellValue)
    → IsTemplate ps
    → AreParams params ps
    → parse_params params k (print ps) vs ≡ (print_numbered params k ps, vs ++ values params)
unfolding parse_params
parse_params-print [] k ps vs h a =
    ap (λ s. (s, vs)) (sym (print_numbered-nil k ps))
    ∙ ap (λ us. (print_numbered [] k ps, us)) (sym (append-nil vs))
parse_params-print ((n, v) ∷ params) k ps vs h (i, (d, a)) =
    let to = position_mark k in
    ap (λ s. parse_params params (k + 1) s (vs ++ v ∷ [])) (replace-print n to i ps h d)
    ∙ parse_params-print params (k + 1) (number_param n to ps) (vs ++ v ∷ [])
        (number_param-IsTemplate n to (HasNoMark-position_mark k) (λ s. refl) ps h)
        (AreParams-number_param n to params ps a)
    ∙ ap (λ s. (s, (vs ++ v ∷ []) ++ values params)) (print_numbered-cons n v params k ps)
    ∙ ap (λ us. (print_numbered ((n, v) ∷ params) k ps, us))
        (append_assoc vs (v ∷ []) (values params))

-- In a query whose only colons are those of its parameters, and in which no name has a parameter's
-- name as its beginning without being that name, every parameter's mark becomes the position of
-- its value, and the values are passed in these positions, in whatever order the parameters come.
pub parse_query-print :
    (params : Params) (ps : List Piece)
    → IsTemplate ps
    → AreParams params ps
    → parse_query (print ps) params ≡ (print_numbered params 1 ps, values params)
unfolding parse_query
parse_query-print params ps h a = parse_params-print params 1 ps [] h a
