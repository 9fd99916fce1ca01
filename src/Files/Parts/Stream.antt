-- ===== src/Files/Parts/Stream.antt =====
-- file_delegate.rs: about the bytes that a parts stream gives.
use doka_one.Prelude.{
  ℕ, zero, suc, ◌+◌, ◌<◌, ◌≡◌, refl, sym, ap, ◌∙◌, Option, none, some, List, [], ◌∷◌, ◌++◌, Bytes,
  length, length-append, get_elem?, Outcome, ok, out_of_fuel, Failure, ◌>>=◌, arith, concat,
  append_assoc,
}
use doka_one.Files.Parts.{PartsStream, read_chunk, poll_next}

-- What a body that polls the stream until its end sends, with fuel.
abbrev sent_after :
    (PartsStream → Outcome Failure Bytes) → Option Bytes × PartsStream → Outcome Failure Bytes
sent_after go (none, s) = ok []
sent_after go (some chunk, s) = go s >>= λ rest. ok (chunk ++ rest)

unfoldable pub sent : ℕ → PartsStream → Outcome Failure Bytes
unfolding poll_next
sent zero s = out_of_fuel
sent (suc f) s = poll_next s >>= sent_after (sent f)

get_elem?-length_append :
    {A : Type 0} (pre post : List A) → get_elem? (pre ++ post) (length pre) ≡ get_elem? post 0
get_elem?-length_append [] post = refl
get_elem?-length_append (p ∷ ps) post = get_elem?-length_append ps post

module _ (pre post parts : List Bytes) (i : ℕ) (e : parts ≡ pre ++ post) (at : i ≡ length pre) where
  found : get_elem? parts i ≡ get_elem? post 0
  found =
      ap (λ k. get_elem? parts k) at
      ∙ ap (λ l. get_elem? l (length pre)) e
      ∙ get_elem?-length_append pre post

abbrev pub at_part : List Bytes → ℕ → PartsStream
at_part parts i = record { parts = parts; current_index = i; current_offset = 0 }

-- Between two parts, one poll sends the next part, and behind the last there is nothing to send.
poll_next-part :
    (p : Bytes) (parts : List Bytes) (i : ℕ)
    → get_elem? parts i ≡ some p
    → poll_next (at_part parts i) ≡ ok (some p, at_part parts (i + 1))
unfolding poll_next read_chunk
poll_next-part p parts i e = rw e (ground arith)

poll_next-end :
    (parts : List Bytes) (i : ℕ)
    → get_elem? parts i ≡ none
    → poll_next (at_part parts i) ≡ ok (none, at_part parts i)
unfolding poll_next
poll_next-end parts i e = rw e refl

get_elem?-nil : get_elem? {A = Bytes} [] 0 ≡ none
get_elem?-nil = refl

sent-parts :
    (post pre parts : List Bytes) (i f : ℕ)
    → parts ≡ pre ++ post
    → i ≡ length pre
    → length post < f
    → sent f (at_part parts i) ≡ ok (concat post)
unfolding sent
sent-parts [] pre parts i zero e at lt = absurd (omega arith)
sent-parts (p ∷ post) pre parts i zero e at lt = absurd (omega arith)
sent-parts [] pre parts i (suc f) e at lt =
    ap (λ r. r >>= sent_after (sent f)) (poll_next-end parts i (found pre [] parts i e at))
sent-parts (p ∷ post) pre parts i (suc f) e at lt =
    ap (λ r. r >>= sent_after (sent f))
      (poll_next-part p parts i (found pre (p ∷ post) parts i e at))
    ∙ ap (λ r. r >>= λ rest. ok (p ++ rest))
        (sent-parts post (pre ++ p ∷ []) parts (i + 1) f (e ∙ sym (append_assoc pre (p ∷ []) post))
          (omega (arith, length-append pre (p ∷ []))) (omega arith))

-- A new stream sends all parts, whole and in order, and ends: no slice of it panics.
pub sent-all :
    (parts : List Bytes) → sent (suc (length parts)) (at_part parts 0) ≡ ok (concat parts)
sent-all parts = sent-parts parts [] parts 0 (suc (length parts)) refl refl (omega arith)
