-- ===== src/Files/Slides.antt =====
-- `parallel_decrypt` and `decrypt_slide_of_parts`. The tasks share nothing, and their results are
-- taken in the order in which they were started.
pub mod Decrypts
use doka_one.Prelude.{
  ℕ, zero, suc, ◌+◌, ◌-◌, ◌%◌, Bool, true, false, Option, none, some, List, [], ◌∷◌, ◌++◌, Text,
  Bytes, length, ltb, ◌==◌, if◌then◌else◌, Failure, failure, Outcome, ok, err, panic, out_of_fuel,
  ◌>>=◌,
}
use doka_one.Prelude.Int.{u32_mod}
use doka_one.Crypto.{cc20, or_fail, decrypt_vec}
use doka_one.Files.Parts.{Indexed, IndexedParts, part_get, part_insert}
use doka_one.Files.Pool.{compute_pool_size}
use doka_one.Files.Environment.{Environment}

-- `for (key, value) in parts { map.insert(key, value) }`
unfoldable pub insert_all : IndexedParts → IndexedParts → IndexedParts
insert_all [] map = map
insert_all ((key, value) ∷ parts) map = insert_all parts (part_insert key value map)

-- `max(1, num_cpus - 1)`
abbrev pub n_threads : ℕ → ℕ
n_threads cpus = if ltb 1 (cpus - 1) then cpus - 1 else 1

module _ (env : Environment) where
  -- The parts `index`, `index + 1`, … of a slide, decoded.
  unfoldable pub build_slide : ℕ → ℕ → Indexed Text → IndexedParts → Outcome Failure IndexedParts
  build_slide zero index enc_parts enc_slides = ok enc_slides
  build_slide (suc n) index enc_parts enc_slides = do
    enc ← or_fail (part_get index enc_parts)
    v ← or_fail (env.ciphers.base64_decode enc)
    build_slide n (index + 1) enc_parts (part_insert index v enc_slides)

  -- The slides of all pools that are not empty.
  unfoldable pub build_slides : List ℕ → ℕ → Indexed Text → Outcome Failure (List IndexedParts)
  unfolding build_slide
  build_slides [] offset enc_parts = ok []
  build_slides (size ∷ sizes) offset enc_parts =
      let slides = build_slides sizes (offset + size) enc_parts in
      if size == 0
      then slides
      else build_slide size offset enc_parts [] >>= λ enc_slides.
          slides >>= λ rest. ok (enc_slides ∷ rest)

  unfoldable pub decrypt_parts : Text → IndexedParts → IndexedParts → Outcome Failure IndexedParts
  decrypt_parts customer_key [] clear_slides = ok clear_slides
  decrypt_parts customer_key ((index, enc_content) ∷ enc_slides) clear_slides = do
    clear_content ← decrypt_vec env.ciphers cc20 enc_content customer_key
    decrypt_parts customer_key enc_slides (part_insert index clear_content clear_slides)

  unfoldable pub decrypt_slide_of_parts : Text → IndexedParts → Outcome Failure IndexedParts
  unfolding decrypt_parts
  decrypt_slide_of_parts customer_key enc_slides =
      decrypt_parts customer_key (env.map_order enc_slides) []

  -- A task that failed, or that panicked, is only logged.
  unfoldable pub collect : Outcome Failure IndexedParts → IndexedParts → IndexedParts
  unfolding insert_all
  collect (ok clear_parts) map = insert_all (env.map_order clear_parts) map
  collect (err e) map = map
  collect panic map = map
  collect out_of_fuel map = map

  unfoldable pub join_all : Text → List IndexedParts → IndexedParts → IndexedParts
  unfolding decrypt_slide_of_parts collect
  join_all customer_key [] map = map
  join_all customer_key (slide ∷ slides) map =
      join_all customer_key slides (collect (decrypt_slide_of_parts customer_key slide) map)

  unfoldable pub parallel_decrypt : ℕ → Indexed Text → Text → Outcome Failure IndexedParts
  unfolding build_slides join_all
  parallel_decrypt cpus enc_parts customer_key = do
    pool_size ← compute_pool_size (n_threads cpus) (length enc_parts % u32_mod)
    slides ← build_slides pool_size 0 enc_parts
    ok (join_all customer_key slides [])
