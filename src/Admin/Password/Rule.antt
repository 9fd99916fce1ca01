-- ===== src/Admin/Password/Rule.antt =====
-- The rule that `valid_password` decides.
use doka_one.Prelude.{
  ℕ, ◌+◌, ◌<◌, ◌≡◌, refl, Bool, true, false, not, ◌&&◌, ◌||◌, [], ◌∷◌, Text, any, length, leb, ltb,
  ◌==◌, ◌%◌, if◌then◌else◌, arith, Bool-cases, inl, inr, suc, subst, sym, ◌∙◌,
}
use doka_one.Admin.Password.{
  CharType, digit, upper, lower, wrong, is_latin_base_char, is_special, Counts, count_as,
  count_chars, no_counts, valid_password,
}

abbrev within : ℕ → ℕ → ℕ → Bool
within lo hi c = leb lo c && leb c hi

is_upper : ℕ → Bool
is_upper c = within 65 90 c

is_lower : ℕ → Bool
is_lower c = within 97 122 c

is_decimal : ℕ → Bool
is_decimal c = within 48 57 c

abbrev all_of : (ℕ → Bool) → Text → Bool
all_of p [] = true
all_of p (c ∷ cs) = p c && all_of p cs

abbrev is_allowed : ℕ → Bool
is_allowed c = is_upper c || is_lower c || is_decimal c || is_special c

-- The rule in words: eight characters, all of them letters, digits or special, and one upper case
-- letter, one digit and one special character among them.
pub rule : Text → Bool
rule pass =
    leb 8 (length pass)
    && all_of is_allowed pass
    && any is_upper pass
    && any is_decimal pass
    && any is_special pass

-- What a class says of a character.
data Class (c : ℕ) : CharType → Type 0 where
  is_d : is_decimal c ≡ true → is_upper c ≡ false → is_special c ≡ false → Class c digit
  is_u : is_upper c ≡ true → is_decimal c ≡ false → is_special c ≡ false → Class c upper
  is_l :
      is_lower c ≡ true
      → is_upper c ≡ false
      → is_decimal c ≡ false
      → is_special c ≡ false
      → Class c lower
  is_w : is_lower c ≡ false → is_upper c ≡ false → is_decimal c ≡ false → Class c wrong

letters_are_not_special :
    (c : ℕ) → (is_upper c || is_lower c || is_decimal c) ≡ true → is_special c ≡ false
unfolding is_upper is_lower is_decimal is_special
letters_are_not_special c h = ground arith

class_of :
    (c : ℕ) (d u l : Bool)
    → is_decimal c ≡ d
    → is_upper c ≡ u
    → is_lower c ≡ l
    → Class c (if d then digit else if u then upper else if l then lower else wrong)
unfolding is_upper is_lower is_decimal
class_of c true u l hd hu hl =
    is_d hd (ground arith) (letters_are_not_special c (rw hd (ground arith)))
class_of c false true l hd hu hl = is_u hu hd (letters_are_not_special c (rw hd (ground arith)))
class_of c false false true hd hu hl =
    is_l hl hu hd (letters_are_not_special c (rw hd (ground arith)))
class_of c false false false hd hu hl = is_w hl hu hd

is_latin_base_char-Class : (c : ℕ) → Class c (is_latin_base_char c)
unfolding is_latin_base_char is_upper is_lower is_decimal
is_latin_base_char-Class c = class_of c _ _ _ refl refl refl

-- What one round does, by what the rule says of the character.
record Round (c : ℕ) (k l : Counts) : Type 0 where
  valid : l.valid ≡ (if k.valid then is_allowed c else false)
  uppers :
      is_allowed c ≡ true
      → l.nb_upper ≡ (if is_upper c then (k.nb_upper + 1) % 65536 else k.nb_upper)
  digits :
      is_allowed c ≡ true
      → l.nb_digit ≡ (if is_decimal c then (k.nb_digit + 1) % 65536 else k.nb_digit)
  symbols :
      is_allowed c ≡ true
      → l.nb_symbol ≡ (if is_special c then (k.nb_symbol + 1) % 65536 else k.nb_symbol)

count_as-Round :
    (t : CharType) (c : ℕ) (k : Counts) → k.valid ≡ true → Class c t → Round c k (count_as t c k)
unfolding count_as
count_as-Round digit c k v (is_d a b d) = record {
  valid = ground arith;
  uppers = ground arith;
  digits = ground arith;
  symbols = ground arith;
}
count_as-Round upper c k v (is_u a b d) = record {
  valid = ground arith;
  uppers = ground arith;
  digits = ground arith;
  symbols = ground arith;
}
count_as-Round lower c k v (is_l a b d e) = record {
  valid = ground arith;
  uppers = ground arith;
  digits = ground arith;
  symbols = ground arith;
}
count_as-Round wrong c k v (is_w a b d) = record {
  valid = ground arith;
  uppers = ground arith;
  digits = ground arith;
  symbols = ground arith;
}

round : (c : ℕ) (k : Counts) → k.valid ≡ true → Round c k (count_as (is_latin_base_char c) c k)
round c k v = count_as-Round (is_latin_base_char c) c k v (is_latin_base_char-Class c)

-- The counters when the loop ends, from any counters.
record Ends (cs : Text) (k l : Counts) : Type 0 where
  valid : l.valid ≡ all_of is_allowed cs
  uppers :
      all_of is_allowed cs ≡ true → (l.nb_upper == 0) ≡ (k.nb_upper == 0 && not (any is_upper cs))
  digits :
      all_of is_allowed cs ≡ true → (l.nb_digit == 0) ≡ (k.nb_digit == 0 && not (any is_decimal cs))
  symbols :
      all_of is_allowed cs ≡ true
      → (l.nb_symbol == 0) ≡ (k.nb_symbol == 0 && not (any is_special cs))

-- No counter wraps round while it stands below this room.
record Room (k : Counts) (n : ℕ) : Type 0 where
  upper_room : k.nb_upper + n < 65536
  digit_room : k.nb_digit + n < 65536
  symbol_room : k.nb_symbol + n < 65536

-- One counter, over a character and the rest.
counter_step :
    (n m : ℕ) (u rest x : Bool) (len : ℕ)
    → n + suc len < 65536
    → m ≡ (if u then (n + 1) % 65536 else n)
    → x ≡ (m == 0 && not rest)
    → (x ≡ (n == 0 && not (u || rest))) × (m + len < 65536)
counter_step n m true rest x len room e h = ground arith
counter_step n m false rest x len room e h = ground arith

room_step :
    (n m : ℕ) (u : Bool) (len : ℕ)
    → n + suc len < 65536
    → m ≡ (if u then (n + 1) % 65536 else n)
    → m + len < 65536
room_step n m true len room e = omega arith
room_step n m false len room e = omega arith

module _ (c : ℕ) (cs : Text) (k l : Counts) (v : k.valid ≡ true) (h : Room k (suc (length cs)))
    (r : Round c k l) where
  stops : is_allowed c ≡ false → Ends (c ∷ cs) k (if l.valid then count_chars cs l else l)
  stops bad =
      let lv : l.valid ≡ false = r.valid ∙ rw (v, bad) refl in
      let never : all_of is_allowed (c ∷ cs) ≡ true → false ≡ true = λ a. rw bad at a in
      subst (λ b. Ends (c ∷ cs) k (if b then count_chars cs l else l)) (sym lv)
        (record {
          valid = rw (lv, bad) refl;
          uppers = λ a. cc (never a);
          digits = λ a. cc (never a);
          symbols = λ a. cc (never a);
        })

  goes_on :
      is_allowed c ≡ true
      → ((l : Counts) → l.valid ≡ true → Room l (length cs) → Ends cs l (count_chars cs l))
      → Ends (c ∷ cs) k (if l.valid then count_chars cs l else l)
  goes_on fine more =
      let lv : l.valid ≡ true = r.valid ∙ rw (v, fine) refl in
      let ih = more l lv (record {
        upper_room =
            room_step k.nb_upper l.nb_upper (is_upper c) (length cs) h.upper_room (r.uppers fine);
        digit_room =
            room_step k.nb_digit l.nb_digit (is_decimal c) (length cs) h.digit_room (r.digits fine);
        symbol_room =
            room_step k.nb_symbol l.nb_symbol (is_special c) (length cs) h.symbol_room
              (r.symbols fine);
      }) in
      let all_rest : all_of is_allowed (c ∷ cs) ≡ true → all_of is_allowed cs ≡ true =
        λ a. rw fine at a in
      subst (λ b. Ends (c ∷ cs) k (if b then count_chars cs l else l)) (sym lv)
        (record {
          valid = ih.valid ∙ rw fine refl;
          uppers = λ a.
              (counter_step k.nb_upper l.nb_upper (is_upper c) (any is_upper cs) _ (length cs)
                h.upper_room (r.uppers fine) (ih.uppers (all_rest a))).0;
          digits = λ a.
              (counter_step k.nb_digit l.nb_digit (is_decimal c) (any is_decimal cs) _ (length cs)
                h.digit_room (r.digits fine) (ih.digits (all_rest a))).0;
          symbols = λ a.
              (counter_step k.nb_symbol l.nb_symbol (is_special c) (any is_special cs) _ (length cs)
                h.symbol_room (r.symbols fine) (ih.symbols (all_rest a))).0;
        })

count_chars-Ends :
    (cs : Text) (k : Counts) → k.valid ≡ true → Room k (length cs) → Ends cs k (count_chars cs k)
unfolding count_chars
count_chars-Ends [] k v h = record {
  valid = v;
  uppers = λ _. ground arith;
  digits = λ _. ground arith;
  symbols = λ _. ground arith;
}
count_chars-Ends (c ∷ cs) k v h = elim (Bool-cases (is_allowed c)) [
  | inl fine ↦ goes_on c cs k _ v h (round c k v) fine (λ l. count_chars-Ends cs l)
  | inr bad ↦ stops c cs k _ v h (round c k v) bad
]

-- A password of fewer than 65536 characters is accepted exactly when it meets the rule: at least
-- eight characters, all of them letters, digits or special characters, with an upper case letter, a
-- digit and a special character among them.
pub valid_password-rule : (pass : Text) → length pass < 65536 → valid_password pass ≡ rule pass
unfolding valid_password rule
valid_password-rule pass short =
    let e =
      count_chars-Ends pass no_counts refl (record {
        upper_room = omega arith;
        digit_room = omega arith;
        symbol_room = omega arith;
      }) in
    decide_rule (length pass) (count_chars pass no_counts) (all_of is_allowed pass)
      (any is_upper pass) (any is_decimal pass) (any is_special pass) e.valid e.uppers e.digits
      e.symbols
  where
    decide_rule :
        (n : ℕ) (k : Counts) (allowed u d s : Bool)
        → k.valid ≡ allowed
        → (allowed ≡ true → (k.nb_upper == 0) ≡ (0 == 0 && not u))
        → (allowed ≡ true → (k.nb_digit == 0) ≡ (0 == 0 && not d))
        → (allowed ≡ true → (k.nb_symbol == 0) ≡ (0 == 0 && not s))
        → (if ltb n 8
            then false
            else (if k.nb_upper == 0 || k.nb_digit == 0 || k.nb_symbol == 0
                then false
                else k.valid))
          ≡ (leb 8 n && allowed && u && d && s)
    decide_rule n k true u d s v hu hd hs = ground (arith, hu refl, hd refl, hs refl)
    decide_rule n k false u d s v hu hd hs = ground arith
