-- ===== src/Fulltext/Tokenizer/Chunks.antt =====
-- ft_tokenizer.rs: about reading a text in chunks of words.
use doka_one.Prelude.{
  ℕ, ◌+◌, ◌<◌, ◌≡◌, refl, ap, sym, ◌∙◌, Bool, true, false, ◌&&◌, List, [], ◌∷◌, ◌++◌, Text, length,
  leb, if◌then◌else◌, arith, append-nil,
}
use doka_one.Fulltext.Tokenizer.{
  Tokenizer, Run, char_type, kept_words, terminate_word, grapheme_step, words_loop, next_n_words,
}
use doka_one.Fulltext.Tokenizer.Steps.{
  Ahead, IsBetween, terminate_word-Ahead, grapheme_step-Ahead, grapheme_step-IsBetween,
  grapheme_step-counter,
}

module _ (unicode_words : Text → List Text) where
  -- The words of the graphemes that are left, read without a stop.
  read_words : List Text → Run → List Text
  read_words [] r = (terminate_word unicode_words r).self.words
  read_words (g ∷ gs) r =
      read_words gs (grapheme_step unicode_words (char_type unicode_words g) g r).1

  read_words-Ahead :
      (ws gs : List Text) (q r : Run) → Ahead ws q r → read_words gs r ≡ ws ++ read_words gs q
  unfolding read_words
  read_words-Ahead ws [] q r h = (terminate_word-Ahead unicode_words ws q r h).words_ahead
  read_words-Ahead ws (g ∷ gs) q r h =
      read_words-Ahead ws gs _ _
        (grapheme_step-Ahead unicode_words ws (char_type unicode_words g) g q r h).1

  abbrev next_counter : Run → Run
  next_counter r = record r { counter = r.counter + 1 }

  same-Ahead : (r : Run) → Ahead [] r (next_counter r)
  same-Ahead r = record { same_status = refl; same_word = refl; words_ahead = refl }

  -- Between two words, nothing more comes of ending the word.
  terminate_word-IsBetween :
      (r : Run) → IsBetween r → (terminate_word unicode_words r).self.words ≡ r.self.words
  unfolding terminate_word kept_words
  terminate_word-IsBetween r h =
      ap (λ w. kept_words unicode_words r.self.pattern_status w r.self.words) h.word

  -- `s` ends the reading of the graphemes behind `p`, with what is read from `clean`.
  abbrev Splits : List Text → Run → Run → Run → Type 0
  Splits gs p clean s =
      read_words gs p
      ≡ (terminate_word unicode_words s).self.words ++ read_words s.self.graphemes clean

  between-Splits :
      (gs : List Text) (p clean : Run)
      → IsBetween p
      → IsBetween clean
      → clean.self.words ≡ []
      → Splits gs p clean (record p { self = record (p.self) { graphemes = gs } })
  unfolding terminate_word kept_words
  between-Splits gs p clean b c w =
      read_words-Ahead p.self.words gs clean p (record {
        same_status = b.status ∙ sym c.status;
        same_word = b.word ∙ sym c.word;
        words_ahead = sym (append-nil p.self.words) ∙ ap (λ ws. p.self.words ++ ws) (sym w);
      })
      ∙ ap (λ ws. ws ++ read_words gs clean) (sym (terminate_word-IsBetween p b))

  stop-Splits :
      (stops flag : Bool) (gs : List Text) (p clean rest : Run)
      → (flag ≡ true → IsBetween p)
      → IsBetween clean
      → clean.self.words ≡ []
      → Splits gs p clean rest
      → Splits gs p clean
          (if flag && stops then record p { self = record (p.self) { graphemes = gs } } else rest)
  stop-Splits stops true gs p clean rest b c w h = go stops
    where
      go :
          (stops : Bool)
          → Splits gs p clean
              (if stops then record p { self = record (p.self) { graphemes = gs } } else rest)
      go true = between-Splits gs p clean (b refl) c w
      go false = h
  stop-Splits stops false gs p clean rest b c w h = h

  words_loop-Splits :
      (n : ℕ) (gs : List Text) (r clean : Run)
      → IsBetween clean
      → clean.self.words ≡ []
      → Splits gs r clean (words_loop unicode_words n gs r)
  unfolding read_words words_loop
  words_loop-Splits n [] r clean c w =
      sym (append-nil (terminate_word unicode_words r).self.words)
      ∙ ap (λ ws. (terminate_word unicode_words r).self.words ++ ws)
          (sym (terminate_word-IsBetween clean c ∙ w))
  words_loop-Splits n (g ∷ gs) r clean c w =
      let kind = char_type unicode_words g in
      let s = next_counter r in
      let p = (grapheme_step unicode_words kind g s).1 in
      sym (
        read_words-Ahead [] gs _ _
          (grapheme_step-Ahead unicode_words [] kind g r s (same-Ahead r)).1)
      ∙ stop-Splits (leb n s.counter) (grapheme_step unicode_words kind g s).0 gs p clean
          (words_loop unicode_words n gs p) (grapheme_step-IsBetween unicode_words kind g s) c w
          (words_loop-Splits n gs p clean c w)

  -- Where `n` exceeds what can be counted, every grapheme is read.
  go_on :
      (flag stops : Bool) (p rest : Run)
      → stops ≡ false
      → rest.self.graphemes ≡ []
      → (if flag && stops then p else rest).self.graphemes ≡ []
  go_on true true p rest e h = cc
  go_on true false p rest e h = h
  go_on false stops p rest e h = h

  words_loop-exhausts :
      (n : ℕ) (gs : List Text) (r : Run)
      → r.counter + length gs < n
      → (words_loop unicode_words n gs r).self.graphemes ≡ []
  unfolding words_loop
  words_loop-exhausts n [] r lt = refl
  words_loop-exhausts n (g ∷ gs) r lt =
      let kind = char_type unicode_words g in
      let s = next_counter r in
      let p = (grapheme_step unicode_words kind g s).1 in
      go_on (grapheme_step unicode_words kind g s).0 (leb n s.counter)
        (record p { self = record (p.self) { graphemes = gs } }) (words_loop unicode_words n gs p)
        (ground arith)
        (words_loop-exhausts n gs p (omega (arith, grapheme_step-counter unicode_words kind g s)))

  abbrev first_run : Tokenizer → Run
  first_run t = record { self = t; word = []; counter = 0 }

  next_n_words-Splits :
      (n : ℕ) (t : Tokenizer)
      → read_words t.graphemes (first_run t)
        ≡ (next_n_words unicode_words n t).0
          ++ read_words
              (next_n_words unicode_words n t).1.graphemes
              (first_run (next_n_words unicode_words n t).1)
  unfolding next_n_words terminate_word
  next_n_words-Splits n t =
      words_loop-Splits n t.graphemes (first_run t) (first_run (next_n_words unicode_words n t).1)
        (record { status = refl; word = refl }) refl

  next_n_words-read_words :
      (n : ℕ) (t : Tokenizer)
      → length t.graphemes < n
      → (next_n_words unicode_words n t).0 ≡ read_words t.graphemes (first_run t)
  unfolding next_n_words terminate_word read_words kept_words
  next_n_words-read_words n t lt =
      let u = (next_n_words unicode_words n t).1 in
      let none_left : u.graphemes ≡ [] =
        words_loop-exhausts n t.graphemes (first_run t) (omega (arith, lt)) in
      sym (
        next_n_words-Splits n t
        ∙ ap (λ gs. (next_n_words unicode_words n t).0 ++ read_words gs (first_run u)) none_left
        ∙ append-nil (next_n_words unicode_words n t).0)

-- Reading some graphemes with `next_n_words`, at any number, and then all that are left gives the
-- words that one reading of all gives: no word is cut, lost or read twice where a chunk ends.
pub next_n_words-append :
    (unicode_words : Text → List Text) (n m whole : ℕ) (t : Tokenizer)
    → length t.graphemes < whole
    → length (next_n_words unicode_words n t).1.graphemes < m
    → (next_n_words unicode_words n t).0
        ++ (next_n_words unicode_words m (next_n_words unicode_words n t).1).0
      ≡ (next_n_words unicode_words whole t).0
next_n_words-append unicode_words n m whole t lt lt' =
    let u = (next_n_words unicode_words n t).1 in
    ap (λ ws. (next_n_words unicode_words n t).0 ++ ws)
      (next_n_words-read_words unicode_words m u lt')
    ∙ sym (next_n_words-Splits unicode_words n t)
    ∙ sym (next_n_words-read_words unicode_words whole t lt)
