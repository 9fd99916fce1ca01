-- ===== src/Fulltext/TsVector/OnePass.antt =====
-- `encrypt_tsvector` against a single pass that writes the hash of a lexeme where it ends.
use doka_one.Prelude.{
  ℕ, suc, ◌+◌, ◌≤◌, ◌≡◌, refl, ap, sym, ◌∙◌, subst, Bool, true, false, some, List, [], ◌∷◌, ◌++◌,
  Text, codes, concat, text_eq, ==_self, if◌then◌else◌, ok, arith, append_assoc, append-nil,
}
use doka_one.Fulltext.TsVector.{
  WordType, word_to_encrypt, pure_text, Mode, word, pending_end, clear, Vector, colon, quote, other,
  vector_step, vector_loop, empty_vector, parse_vector, lookup_word, hash_words,
  replace_words_in_phrase, concat_phrase, encrypt_tsvector,
}

-- What a grapheme writes, and the mode and the lexeme behind it.
record Emitted : Type 0 where
  output : Text
  mode : Mode
  lexeme : List Text

abbrev emitted : Text → Mode → List Text → Emitted
emitted t m l = record { output = t; mode = m; lexeme = l }

-- The text of a phrase under a map of words.
data Replaced (m : List (ℕ × Text)) : List WordType → Text → Type 0 where
  done : Replaced m [] []
  plain :
      {s t u : Text} {ws : List WordType}
      → Replaced m ws t
      → u ≡ s ++ t
      → Replaced m (pure_text s ∷ ws) u
  known :
      {k : ℕ} {r t u : Text} {ws : List WordType}
      → lookup_word k m ≡ some r
      → Replaced m ws t
      → u ≡ r ++ t
      → Replaced m (word_to_encrypt k ∷ ws) u

Replaced-append :
    {m : List (ℕ × Text)} {ws vs : List WordType} {t u : Text}
    → Replaced m ws t
    → Replaced m vs u
    → Replaced m (ws ++ vs) (t ++ u)
Replaced-append done k = k
Replaced-append {u = u} (plain {s} {t} h e) k =
    plain (Replaced-append h k) (rw e (append_assoc s t u))
Replaced-append {u = u} (known {r = r} {t = t} f h e) k =
    known f (Replaced-append h k) (rw e (append_assoc r t u))

replace_words_in_phrase-Replaced :
    {m : List (ℕ × Text)} {ws : List WordType} {t : Text}
    → Replaced m ws t
    → (ps : List WordType) × (replace_words_in_phrase ws m ≡ ok ps) × (concat_phrase ps ≡ t)
unfolding replace_words_in_phrase concat_phrase
replace_words_in_phrase-Replaced done = ([], refl, refl)
replace_words_in_phrase-Replaced (plain {s} h e) =
    let (ps, p, q) = replace_words_in_phrase-Replaced h in
    (pure_text s ∷ ps, rw p refl, rw (q, e) refl)
replace_words_in_phrase-Replaced (known {r = r} f h e) =
    let (ps, p, q) = replace_words_in_phrase-Replaced h in
    (pure_text r ∷ ps, rw (f, p) refl, rw (q, e) refl)

module _ (hmac : Text → Text) where
  emit_colon : Mode → List Text → Emitted
  emit_colon pending_end l = emitted (hmac (concat l) ++ codes "':") clear l
  emit_colon word l = emitted [] word (l ++ codes ":" ∷ [])
  emit_colon clear l = emitted [] clear l

  emit_quote : Mode → List Text → Emitted
  emit_quote word l = emitted [] pending_end l
  emit_quote pending_end l = emitted [] pending_end l
  emit_quote clear l = emitted (codes "'") word []

  -- A quote inside a lexeme is part of it if something other than a blank follows.
  emit_other : Text → Mode → List Text → Emitted
  emit_other g word l = emitted [] word (l ++ g ∷ [])
  emit_other g pending_end l =
      if text_eq g (codes " ")
      then emitted [] pending_end l
      else emitted [] word (l ++ codes "'" ∷ g ∷ [])
  emit_other g clear l = emitted g clear l

  emit : Text → Mode → List Text → Emitted
  emit g m l =
      if text_eq g (codes ":")
      then emit_colon m l
      else if text_eq g (codes "'")
      then emit_quote m l
      else emit_other g m l

  pub encrypted : Mode → List Text → List Text → Text
  encrypted m l [] = []
  encrypted m l (g ∷ gs) = let e = emit g m l in e.output ++ encrypted e.mode e.lexeme gs

  -- The keys of the words are those below the next order.
  Keys : List (ℕ × Text) → ℕ → ℕ → Type 0
  Keys [] i n = i ≡ n
  Keys ((k, w) ∷ m) i n = (k ≡ i) × Keys m (suc i) n

  Keys-append :
      (m : List (ℕ × Text)) (i n : ℕ) (w : Text) → Keys m i n → Keys (m ++ (n, w) ∷ []) i (n + 1)
  unfolding Keys
  Keys-append [] i n w h = (sym h, omega arith)
  Keys-append ((k, v) ∷ m) i n w (e, h) = (e, Keys-append m (suc i) n w h)

  Keys-le : (m : List (ℕ × Text)) (i n : ℕ) → Keys m i n → i ≤ n
  unfolding Keys
  Keys-le [] i n h = omega arith
  Keys-le ((k, v) ∷ m) i n (e, h) = omega (arith, Keys-le m (suc i) n h)

  -- A new word is found at its key, and hides no other.
  lookup_word-new :
      (m : List (ℕ × Text)) (i n : ℕ) (w : Text)
      → Keys m i n
      → lookup_word n (hash_words hmac (m ++ (n, w) ∷ [])) ≡ some (hmac w)
  unfolding Keys lookup_word hash_words
  lookup_word-new [] i n w h = rw (==_self n) refl
  lookup_word-new ((k, v) ∷ m) i n w (e, h) =
      ground (arith, lookup_word-new m (suc i) n w h, Keys-le m (suc i) n h)

  lookup_word-old :
      (m : List (ℕ × Text)) (n k : ℕ) (w r : Text)
      → lookup_word k (hash_words hmac m) ≡ some r
      → lookup_word k (hash_words hmac (m ++ (n, w) ∷ [])) ≡ some r
  unfolding lookup_word hash_words
  lookup_word-old [] n k w r h = cc
  lookup_word-old ((j, v) ∷ m) n k w r h = ground (arith, lookup_word-old m n k w r)

  Replaced-old :
      (m : List (ℕ × Text)) {ws : List WordType} {t : Text} (n : ℕ) (w : Text)
      → Replaced (hash_words hmac m) ws t
      → Replaced (hash_words hmac (m ++ (n, w) ∷ [])) ws t
  Replaced-old m n w done = done
  Replaced-old m n w (plain h e) = plain (Replaced-old m n w h) e
  Replaced-old m n w (known {k} {r} f h e) =
      known (lookup_word-old m n k w r f) (Replaced-old m n w h) e

  -- `t` is the text that the phrase stands for so far.
  record Inv (v : Vector) (t : Text) : Type 0 where
    keys : Keys v.words_to_encrypt 0 v.word_order
    replaced : Replaced (hash_words hmac v.words_to_encrypt) v.phrase t

  record Follows (v : Vector) (e : Emitted) (t : Text) : Type 0 where
    inv : Inv v (t ++ e.output)
    same_mode : v.mode ≡ e.mode
    same_lexeme : v.lexeme ≡ e.lexeme

  unchanged : {v : Vector} {t : Text} → Inv v t → Inv v (t ++ [])
  unchanged {v} {t} h = subst (Inv v) (sym (append-nil t)) h

  one_text : (m : List (ℕ × Text)) (s : Text) → Replaced m (pure_text s ∷ []) s
  one_text m s = plain done (sym (append-nil s))

  colon-Follows :
      (m : Mode) (v : Vector) {t : Text}
      → v.mode ≡ m
      → Inv v t
      → Follows (colon m v) (emit_colon m v.lexeme) t
  unfolding colon emit_colon
  colon-Follows pending_end v e h =
      let w = concat v.lexeme in
      let more = hash_words hmac (v.words_to_encrypt ++ (v.word_order, w) ∷ []) in
      record {
        inv = record {
          keys = Keys-append v.words_to_encrypt 0 v.word_order w h.keys;
          replaced = Replaced-append (Replaced-old v.words_to_encrypt v.word_order w h.replaced) (
              known (lookup_word-new v.words_to_encrypt 0 v.word_order w h.keys)
                (plain (one_text more (codes ":")) refl) refl);
        };
        same_mode = refl;
        same_lexeme = refl;
      }
  colon-Follows word v e h = record {
    inv = unchanged (record { keys = h.keys; replaced = h.replaced });
    same_mode = e;
    same_lexeme = refl;
  }
  colon-Follows clear v e h = record { inv = unchanged h; same_mode = e; same_lexeme = refl }

  quote-Follows :
      (m : Mode) (v : Vector) {t : Text}
      → v.mode ≡ m
      → Inv v t
      → Follows (quote m v) (emit_quote m v.lexeme) t
  unfolding quote emit_quote
  quote-Follows word v e h = record {
    inv = unchanged (record { keys = h.keys; replaced = h.replaced });
    same_mode = refl;
    same_lexeme = refl;
  }
  quote-Follows pending_end v e h = record { inv = unchanged h; same_mode = e; same_lexeme = refl }
  quote-Follows clear v e h = record {
    inv = record { keys = h.keys; replaced = Replaced-append h.replaced (one_text _ (codes "'")) };
    same_mode = refl;
    same_lexeme = refl;
  }

  other-Follows :
      (g : Text) (m : Mode) (v : Vector) {t : Text}
      → v.mode ≡ m
      → Inv v t
      → Follows (other g m v) (emit_other g m v.lexeme) t
  unfolding other emit_other
  other-Follows g word v e h = record {
    inv = unchanged (record { keys = h.keys; replaced = h.replaced });
    same_mode = e;
    same_lexeme = refl;
  }
  other-Follows g pending_end v {t} e h = go (text_eq g (codes " "))
    where
      go :
          (b : Bool)
          → Follows
              (if b then v else record v { mode = word; lexeme = v.lexeme ++ codes "'" ∷ g ∷ [] })
              (if b
                then emitted [] pending_end v.lexeme
                else emitted [] word (v.lexeme ++ codes "'" ∷ g ∷ []))
              t
      go true = record { inv = unchanged h; same_mode = e; same_lexeme = refl }
      go false = record {
        inv = unchanged (record { keys = h.keys; replaced = h.replaced });
        same_mode = refl;
        same_lexeme = refl;
      }
  other-Follows g clear v e h = record {
    inv = record { keys = h.keys; replaced = Replaced-append h.replaced (one_text _ g) };
    same_mode = e;
    same_lexeme = refl;
  }

  vector_step-Follows :
      (g : Text) (v : Vector) {t : Text}
      → Inv v t
      → Follows (vector_step g v) (emit g v.mode v.lexeme) t
  unfolding vector_step emit
  vector_step-Follows g v {t} h = go (text_eq g (codes ":")) (text_eq g (codes "'"))
    where
      go :
          (b c : Bool)
          → Follows
              (if b then colon v.mode v else if c then quote v.mode v else other g v.mode v)
              (if b
                then emit_colon v.mode v.lexeme
                else if c
                then emit_quote v.mode v.lexeme
                else emit_other g v.mode v.lexeme)
              t
      go true c = colon-Follows v.mode v refl h
      go false true = quote-Follows v.mode v refl h
      go false false = other-Follows g v.mode v refl h

  vector_loop-Replaced :
      (gs : List Text) (v : Vector) (t : Text)
      → Inv v t
      → let u = vector_loop gs v in
        Replaced (hash_words hmac u.words_to_encrypt) u.phrase (t ++ encrypted v.mode v.lexeme gs)
  unfolding vector_loop encrypted
  vector_loop-Replaced [] v t h = subst (Replaced _ _) (sym (append-nil t)) h.replaced
  vector_loop-Replaced (g ∷ gs) v t h =
      let e = emit g v.mode v.lexeme in
      let f = vector_step-Follows g v h in
      let rest = vector_loop-Replaced gs (vector_step g v) (t ++ e.output) f.inv in
      subst (Replaced _ _)
        (append_assoc t e.output _
          ∙ ap (λ s. t ++ (e.output ++ s)) (rw (f.same_mode, f.same_lexeme) refl))
        rest

-- A `tsvector` is always encrypted, with no wrong index, and the result is that of one pass. Outside
-- the lexemes, everything but colons is copied, and colons are dropped. A quote starts a lexeme. It
-- ends with a quote that a colon follows, where blanks and quotes in between are dropped, and the
-- keyed hash of its text is written with the quote and the colon; where something else follows the
-- quote, the lexeme goes on with one quote in its text. A lexeme that never ends is not written.
pub encrypt_tsvector-encrypted :
    (hmac_word : Text → Text → Text) (gs : List Text) (customer_key : Text)
    → encrypt_tsvector hmac_word gs customer_key
      ≡ ok (encrypted (λ w. hmac_word w customer_key) clear [] gs)
unfolding encrypt_tsvector parse_vector
encrypt_tsvector-encrypted hmac_word gs customer_key =
    let hmac = λ (w : Text). hmac_word w customer_key in
    let r =
      vector_loop-Replaced hmac gs empty_vector []
        (record { keys = unfold Keys in refl; replaced = unfold hash_words in done }) in
    let (ps, p, q) = replace_words_in_phrase-Replaced r in rw (p, q) refl
