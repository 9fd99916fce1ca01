-- ===== src/Fulltext/Tokenizer/Steps.antt =====
-- ft_tokenizer.rs: about one step of `next_n_words`.
use doka_one.Prelude.{
  ◌≡◌, refl, ap, sym, ◌∙◌, subst, Bool, true, false, List, [], ◌∷◌, ◌++◌, Text, codes, concat,
  length, leb, if◌then◌else◌, append_assoc,
}
use doka_one.Fulltext.Tokenizer.{
  CharType, separator, lexeme, PatternStatus, normal, started, date, number, email, min_word_len,
  Run, is_one_of, terminators, finished_word, kept_words, terminate_word, push, with_status,
  normal_status, started_status, lexeme_step, grapheme_step,
}

-- `r` is `q` with the words `ws` in front.
pub record Ahead (ws : List Text) (q r : Run) : Type 0 where
  pub same_status : r.self.pattern_status ≡ q.self.pattern_status
  pub same_word : r.word ≡ q.word
  pub words_ahead : r.self.words ≡ ws ++ q.self.words

abbrev pub StepAhead : List Text → Bool × Run → Bool × Run → Type 0
StepAhead ws (b, q) (c, r) = (c ≡ b) × Ahead ws q r

-- A run that is between two words.
pub record IsBetween (r : Run) : Type 0 where
  pub status : r.self.pattern_status ≡ normal
  pub word : r.word ≡ []

module _ (unicode_words : Text → List Text) where
  kept_words-append :
      (p : PatternStatus) (word ws words : List Text)
      → kept_words unicode_words p word (ws ++ words) ≡ ws ++ kept_words unicode_words p word words
  unfolding kept_words
  kept_words-append p word ws words =
      kept (leb min_word_len (length word)) (finished_word unicode_words p (concat word))
    where
      kept :
          (b : Bool) (w : Text)
          → (if b then (ws ++ words) ++ w ∷ [] else ws ++ words)
            ≡ ws ++ (if b then words ++ w ∷ [] else words)
      kept true w = append_assoc ws words (w ∷ [])
      kept false w = refl

  module _ (ws : List Text) where
    pub terminate_word-Ahead :
        (q r : Run)
        → Ahead ws q r
        → Ahead ws (terminate_word unicode_words q) (terminate_word unicode_words r)
    unfolding terminate_word
    terminate_word-Ahead q r h = record {
      same_status = refl;
      same_word = refl;
      words_ahead =
          ap (λ p. kept_words unicode_words p r.word r.self.words) h.same_status
          ∙ ap (λ w. kept_words unicode_words q.self.pattern_status w r.self.words) h.same_word
          ∙ ap (λ x. kept_words unicode_words q.self.pattern_status q.word x) h.words_ahead
          ∙ kept_words-append q.self.pattern_status q.word ws q.self.words;
    }

    push-Ahead : (g : Text) (q r : Run) → Ahead ws q r → Ahead ws (push g q) (push g r)
    push-Ahead g q r h = record {
      same_status = h.same_status;
      same_word = ap (λ w. w ++ g ∷ []) h.same_word;
      words_ahead = h.words_ahead;
    }

    with_status-Ahead :
        (p p' : PatternStatus) (q r : Run)
        → p' ≡ p
        → Ahead ws q r
        → Ahead ws (with_status p q) (with_status p' r)
    with_status-Ahead p p' q r e h = record {
      same_status = e;
      same_word = h.same_word;
      words_ahead = h.words_ahead;
    }

    ends-Ahead :
        (b : Bool) (g : Text) (q r : Run)
        → Ahead ws q r
        → StepAhead ws
            (if b then (true, terminate_word unicode_words q) else (false, push g q))
            (if b then (true, terminate_word unicode_words r) else (false, push g r))
    ends-Ahead true g q r h = (refl, terminate_word-Ahead q r h)
    ends-Ahead false g q r h = (refl, push-Ahead g q r h)

    lexeme_step-Ahead :
        (p : PatternStatus) (g : Text) (q r : Run)
        → Ahead ws q r
        → StepAhead ws (lexeme_step unicode_words p g q) (lexeme_step unicode_words p g r)
    unfolding lexeme_step
    lexeme_step-Ahead normal g q r h = ends-Ahead (is_one_of g terminators) g _ _ (
        with_status-Ahead (normal_status g q.word) (normal_status g r.word) q r
          (ap (normal_status g) h.same_word) h)
    lexeme_step-Ahead started g q r h = (
      refl,
      push-Ahead g _ _ (with_status-Ahead (started_status g) (started_status g) q r refl h),
    )
    lexeme_step-Ahead date g q r h = ends-Ahead (is_one_of g (codes "," ∷ codes "." ∷ [])) g q r h
    lexeme_step-Ahead number g q r h = (refl, push-Ahead g q r h)
    lexeme_step-Ahead email g q r h = (refl, push-Ahead g q r h)

    pub grapheme_step-Ahead :
        (c : CharType) (g : Text) (q r : Run)
        → Ahead ws q r
        → StepAhead ws (grapheme_step unicode_words c g q) (grapheme_step unicode_words c g r)
    unfolding grapheme_step
    grapheme_step-Ahead separator g q r h = (refl, terminate_word-Ahead q r h)
    grapheme_step-Ahead lexeme g q r h =
        subst
          (λ p.
            StepAhead ws (lexeme_step unicode_words q.self.pattern_status g q)
              (lexeme_step unicode_words p g r))
          (sym h.same_status) (lexeme_step-Ahead q.self.pattern_status g q r h)

  -- A step that terminates a word leaves the run between two words.
  ends-IsBetween :
      (b : Bool) (g : Text) (s : Run)
      → let step : Bool × Run =
          if b then (true, terminate_word unicode_words s) else (false, push g s) in
        step.0 ≡ true → IsBetween step.1
  unfolding terminate_word
  ends-IsBetween true g s e = record { status = refl; word = refl }
  ends-IsBetween false g s e = cc

  pub grapheme_step-IsBetween :
      (c : CharType) (g : Text) (r : Run)
      → (grapheme_step unicode_words c g r).0 ≡ true
      → IsBetween (grapheme_step unicode_words c g r).1
  unfolding grapheme_step terminate_word
  grapheme_step-IsBetween separator g r e = record { status = refl; word = refl }
  grapheme_step-IsBetween lexeme g r e = at_status r.self.pattern_status e
    where
      at_status :
          (p : PatternStatus)
          → (lexeme_step unicode_words p g r).0 ≡ true
          → IsBetween (lexeme_step unicode_words p g r).1
      at_status normal e =
          ends-IsBetween (is_one_of g terminators) g (with_status (normal_status g r.word) r) e
      at_status started e = cc
      at_status date e = ends-IsBetween (is_one_of g (codes "," ∷ codes "." ∷ [])) g r e
      at_status number e = cc
      at_status email e = cc

  ends-counter :
      (b : Bool) (g : Text) (s : Run)
      → let step : Bool × Run =
          if b then (true, terminate_word unicode_words s) else (false, push g s) in
        step.1.counter ≡ s.counter
  unfolding terminate_word
  ends-counter true g s = refl
  ends-counter false g s = refl

  lexeme_step-counter :
      (p : PatternStatus) (g : Text) (r : Run)
      → (lexeme_step unicode_words p g r).1.counter ≡ r.counter
  unfolding lexeme_step
  lexeme_step-counter normal g r =
      ends-counter (is_one_of g terminators) g (with_status (normal_status g r.word) r)
  lexeme_step-counter started g r = refl
  lexeme_step-counter date g r = ends-counter (is_one_of g (codes "," ∷ codes "." ∷ [])) g r
  lexeme_step-counter number g r = refl
  lexeme_step-counter email g r = refl

  pub grapheme_step-counter :
      (c : CharType) (g : Text) (r : Run)
      → (grapheme_step unicode_words c g r).1.counter ≡ r.counter
  unfolding grapheme_step terminate_word lexeme_step
  grapheme_step-counter separator g r = refl
  grapheme_step-counter lexeme g r = lexeme_step-counter r.self.pattern_status g r
