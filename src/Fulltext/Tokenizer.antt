-- ===== src/Fulltext/Tokenizer.antt =====
-- document-server/src/ft_tokenizer.rs: `FTTokenizer`. A grapheme is a text; its iterator is the list
-- of the graphemes that are left.
pub mod Steps
pub mod Chunks
use doka_one.Prelude.{
  ℕ, ◌+◌, Bool, true, false, ◌&&◌, ◌||◌, List, [], ◌∷◌, ◌++◌, Text, codes, concat, text_eq,
  is_empty, is_digit, length, leb, if◌then◌else◌,
}

pub data CharType : Type 0 where
  separator lexeme : CharType

pub data PatternStatus : Type 0 where
  normal started date number email : PatternStatus

abbrev pub min_word_len : ℕ
min_word_len = 4

pub record Tokenizer : Type 0 where
  pub graphemes : List Text
  pub pattern_status : PatternStatus
  pub words : List Text

-- The local variables `word` and `counter` of `next_n_words`, beside the tokenizer itself.
pub record Run : Type 0 where
  pub self : Tokenizer
  pub word : List Text
  pub counter : ℕ

-- `g.as_bytes()[0].is_ascii_digit() || g == "-"`, for a `g` that is not empty. (The first byte is
-- an ASCII digit exactly where the first character is.)
unfoldable pub is_digit_grapheme : Text → Bool
unfolding text_eq
is_digit_grapheme [] = false
is_digit_grapheme (c ∷ g) = is_digit c || text_eq (c ∷ g) (codes "-")

unfoldable pub is_one_of : Text → List Text → Bool
unfolding text_eq
is_one_of g [] = false
is_one_of g (h ∷ hs) = text_eq g h || is_one_of g hs

abbrev pub terminators : List Text
terminators = codes "/" ∷ codes "," ∷ codes "." ∷ []

abbrev pub push : Text → Run → Run
push g r = record r { word = r.word ++ g ∷ [] }

abbrev pub with_status : PatternStatus → Run → Run
with_status p r = record r { self = record (r.self) { pattern_status = p } }

-- The status that the first grapheme of a word, or a `@`, makes of the normal one.
unfoldable pub normal_status : Text → List Text → PatternStatus
unfolding is_digit_grapheme text_eq
normal_status g word =
    if is_empty word && is_digit_grapheme g
    then started
    else if text_eq g (codes "@")
    then email
    else normal

unfoldable pub started_status : Text → PatternStatus
unfolding text_eq
started_status g =
    if text_eq g (codes "/") || text_eq g (codes "-")
    then date
    else if text_eq g (codes ",") || text_eq g (codes ".")
    then number
    else started

-- `unicode_words` is that of the crate `unicode-segmentation`.
module _ (unicode_words : Text → List Text) where
  unfoldable pub char_type : Text → CharType
  unfolding is_one_of
  char_type g =
      if is_one_of g (codes "/" ∷ codes "," ∷ codes "." ∷ codes "-" ∷ codes "@" ∷ [])
      then lexeme
      else if is_empty (unicode_words g)
      then separator
      else lexeme

  unfoldable pub clear_word : Text → Text
  clear_word word = concat (unicode_words word)

  unfoldable pub finished_word : PatternStatus → Text → Text
  unfolding clear_word
  finished_word normal s = clear_word s
  finished_word _ s = s

  -- The words, with the finished one if it is long enough.
  unfoldable pub kept_words : PatternStatus → List Text → List Text → List Text
  unfolding finished_word
  kept_words status word words =
      if leb min_word_len (length word)
      then words ++ finished_word status (concat word) ∷ []
      else words

  unfoldable pub terminate_word : Run → Run
  unfolding kept_words
  terminate_word r = record r {
    self = record (r.self) {
      pattern_status = normal;
      words = kept_words r.self.pattern_status r.word r.self.words;
    };
    word = [];
  }

  -- What the loop does with a grapheme: whether a word was terminated, and the variables.
  unfoldable pub lexeme_step : PatternStatus → Text → Run → Bool × Run
  unfolding normal_status started_status terminate_word is_one_of
  lexeme_step normal g r =
      let s = with_status (normal_status g r.word) r in
      if is_one_of g terminators then (true, terminate_word s) else (false, push g s)
  lexeme_step started g r = (false, push g (with_status (started_status g) r))
  lexeme_step date g r =
      if is_one_of g (codes "," ∷ codes "." ∷ [])
      then (true, terminate_word r)
      else (false, push g r)
  lexeme_step number g r = (false, push g r)
  lexeme_step email g r = (false, push g r)

  unfoldable pub grapheme_step : CharType → Text → Run → Bool × Run
  unfolding lexeme_step
  grapheme_step separator g r = (true, terminate_word r)
  grapheme_step lexeme g r = lexeme_step r.self.pattern_status g r

  -- The loop: it stops at the first terminated word once `n` graphemes have been read. The fields
  -- `graphemes` of the runs within are not read; the list of those left is passed along.
  unfoldable pub words_loop : ℕ → List Text → Run → Run
  unfolding grapheme_step char_type
  words_loop n [] r = record r { self = record (r.self) { graphemes = [] } }
  words_loop n (g ∷ gs) r =
      let s = record r { counter = r.counter + 1 } in
      let step = grapheme_step (char_type g) g s in
      let rest = words_loop n gs step.1 in
      if step.0 && leb n s.counter
      then record (step.1) { self = record (step.1.self) { graphemes = gs } }
      else rest

  -- The words, and the tokenizer that is left.
  unfoldable pub next_n_words : ℕ → Tokenizer → List Text × Tokenizer
  unfolding words_loop terminate_word
  next_n_words n t =
      let r =
        terminate_word (words_loop n t.graphemes (record { self = t; word = []; counter = 0 })) in
      (r.self.words, record (r.self) { words = [] })

-- `FTTokenizer::new`, on the graphemes of the text.
abbrev pub new : List Text → Tokenizer
new gs = record { graphemes = gs; pattern_status = normal; words = [] }
