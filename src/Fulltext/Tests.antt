-- ===== src/Fulltext/Tests.antt =====
-- The encryption of a `tsvector` of three lexemes, with a hash that puts the key in front.
use doka_one.Prelude.{
  Text, codes, [], ◌∷◌, ◌++◌, map, ◌≡◌, refl, ok, List, leb, ◌&&◌, if◌then◌else◌, arith,
}
use doka_one.Fulltext.Tokenizer.{new, next_n_words}
use doka_one.Fulltext.Tokenizer.Chunks.{next_n_words-append}
use doka_one.Fulltext.TsVector.{clear, encrypt_tsvector}
use doka_one.Fulltext.TsVector.OnePass.{encrypted, encrypt_tsvector-encrypted}

abbrev key_in_front : Text → Text → Text
key_in_front word key = key ++ word

abbrev three_lexemes : Text
three_lexemes = codes "'on':2,5  'it's':1 'a:b':3"

encrypt_tsvector-encrypted_example :
    encrypt_tsvector key_in_front (map (λ c. c ∷ []) three_lexemes) (codes "#")
    ≡ ok (encrypted (λ w. key_in_front w (codes "#")) clear [] (map (λ c. c ∷ []) three_lexemes))
encrypt_tsvector-encrypted_example =
    encrypt_tsvector-encrypted key_in_front (map (λ c. c ∷ []) three_lexemes) (codes "#")

three_lexemes_encrypted :
    encrypt_tsvector key_in_front (map (λ c. c ∷ []) three_lexemes) (codes "#")
    ≡ ok (codes "'#on':2,5  '#it's':1 '#a:b':3")
unfolding encrypt_tsvector
three_lexemes_encrypted = refl

-- The words of a text are its runs of letters.
abbrev letters : Text → List Text
letters [] = []
letters (c ∷ cs) = if leb b'a' c && leb c b'z' then (c ∷ []) ∷ letters cs else letters cs

abbrev two_words : List Text
two_words = map (λ c. c ∷ []) (codes "hello, wide world")

next_n_words-append_example :
    (next_n_words letters 3 (new two_words)).0
      ++ (next_n_words letters 30 (next_n_words letters 3 (new two_words)).1).0
    ≡ (next_n_words letters 30 (new two_words)).0
next_n_words-append_example =
    next_n_words-append letters 3 30 30 (new two_words) (omega arith)
      (unfold next_n_words in omega arith)

two_words_read : (next_n_words letters 3 (new two_words)).0 ≡ codes "hello" ∷ []
unfolding next_n_words
two_words_read = refl
