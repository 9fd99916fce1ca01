-- ===== src/Fulltext/TsVector.antt =====
-- document-server/src/ft_tokenizer.rs: `parse_vector`, `replace_words_in_phrase` and
-- `encrypt_tsvector`.
pub mod OnePass
use doka_one.Prelude.{
  ℕ, zero, suc, ◌+◌, Bool, true, false, Option, none, some, List, [], ◌∷◌, ◌++◌, map, Text, codes,
  concat, text_eq, ◌==◌, if◌then◌else◌, Outcome, ok, err, ◌>>=◌,
}

pub data WordType : Type 0 where
  word_to_encrypt : ℕ → WordType
  pure_text : Text → WordType

pub data Mode : Type 0 where
  word pending_end clear : Mode

-- The local variables of `parse_vector`. The map of words is the list of its insertions, whose keys
-- count up from 0.
pub record Vector : Type 0 where
  pub phrase : List WordType
  pub lexeme : List Text
  pub mode : Mode
  pub words_to_encrypt : List (ℕ × Text)
  pub word_order : ℕ

unfoldable pub colon : Mode → Vector → Vector
colon pending_end v = record v {
  words_to_encrypt = v.words_to_encrypt ++ (v.word_order, concat v.lexeme) ∷ [];
  phrase =
      v.phrase ++ word_to_encrypt v.word_order ∷ pure_text (codes "'") ∷ pure_text (codes ":") ∷ [];
  word_order = v.word_order + 1;
  mode = clear;
}
colon word v = record v { lexeme = v.lexeme ++ codes ":" ∷ [] }
colon clear v = v

unfoldable pub quote : Mode → Vector → Vector
quote word v = record v { mode = pending_end }
quote pending_end v = v
quote clear v = record v {
  mode = word;
  lexeme = [];
  phrase = v.phrase ++ pure_text (codes "'") ∷ [];
}

unfoldable pub other : Text → Mode → Vector → Vector
unfolding text_eq
other c word v = record v { lexeme = v.lexeme ++ c ∷ [] }
other c pending_end v =
    if text_eq c (codes " ")
    then v
    else record v { mode = word; lexeme = v.lexeme ++ codes "'" ∷ c ∷ [] }
other c clear v = record v { phrase = v.phrase ++ pure_text c ∷ [] }

unfoldable pub vector_step : Text → Vector → Vector
unfolding colon quote other
vector_step g v =
    if text_eq g (codes ":")
    then colon v.mode v
    else if text_eq g (codes "'")
    then quote v.mode v
    else other g v.mode v

unfoldable pub vector_loop : List Text → Vector → Vector
unfolding vector_step
vector_loop [] v = v
vector_loop (g ∷ gs) v = vector_loop gs (vector_step g v)

abbrev pub empty_vector : Vector
empty_vector = record {
  phrase = [];
  lexeme = [];
  mode = clear;
  words_to_encrypt = [];
  word_order = 0;
}

-- On the graphemes of the vector.
unfoldable pub parse_vector : List Text → List WordType × List (ℕ × Text)
unfolding vector_loop
parse_vector gs = let v = vector_loop gs empty_vector in (v.phrase, v.words_to_encrypt)

unfoldable pub lookup_word : ℕ → List (ℕ × Text) → Option Text
lookup_word k [] = none
lookup_word k ((j, w) ∷ m) = if j == k then some w else lookup_word k m

-- `hash_words_rayon`, with the keyed hash as a parameter. It never fails.
unfoldable pub hash_words : (Text → Text) → List (ℕ × Text) → List (ℕ × Text)
hash_words hmac [] = []
hash_words hmac ((k, w) ∷ m) = (k, hmac w) ∷ hash_words hmac m

-- A word to encrypt, from what the map has for it and from the rest; the error is "Wrong index",
-- with the index.
unfoldable pub replace_word :
    ℕ → Option Text → Outcome ℕ (List WordType) → Outcome ℕ (List WordType)
replace_word order none rest = err order
replace_word order (some r) rest = do ws ← rest; ok (pure_text r ∷ ws)

unfoldable pub replace_words_in_phrase : List WordType → List (ℕ × Text) → Outcome ℕ (List WordType)
unfolding replace_word
replace_words_in_phrase [] m = ok []
replace_words_in_phrase (pure_text t ∷ ws) m = do
  rest ← replace_words_in_phrase ws m
  ok (pure_text t ∷ rest)
replace_words_in_phrase (word_to_encrypt order ∷ ws) m =
    replace_word order (lookup_word order m) (replace_words_in_phrase ws m)

-- `concat`, which passes over the words that are still to be encrypted.
unfoldable pub concat_phrase : List WordType → Text
concat_phrase [] = []
concat_phrase (word_to_encrypt order ∷ ws) = concat_phrase ws
concat_phrase (pure_text t ∷ ws) = t ++ concat_phrase ws

-- The hash takes the word and the customer's key.
unfoldable pub encrypt_tsvector : (Text → Text → Text) → List Text → Text → Outcome ℕ Text
unfolding parse_vector hash_words lookup_word replace_words_in_phrase concat_phrase
encrypt_tsvector hmac_word gs customer_key = do
  let parsed = parse_vector gs
  phrase ← replace_words_in_phrase parsed.0 (hash_words (λ w. hmac_word w customer_key) parsed.1)
  ok (concat_phrase phrase)
