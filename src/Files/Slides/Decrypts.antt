-- ===== src/Files/Slides/Decrypts.antt =====
-- file_delegate.rs: about decrypting all parts of a file in slides.
use mathlib.Core.List.{Permᴰ}
use mathlib.Core.List.Permᴰ
use doka_one.Prelude.{
  ℕ, zero, suc, ◌+◌, ◌%◌, ◌≤◌, ◌<◌, ◌≡◌, refl, sym, ap, ◌∙◌, subst, true, some, List, [], ◌∷◌, ◌++◌,
  map, append_assoc, append-nil, Text, Bytes, length, length-append, take, drop, take-append-drop,
  length-take, All, ◌==◌, Failure, Outcome, ok, ◌>>=◌, arith, Bool-cases, inl, inr,
}
use doka_one.Prelude.Int.{u32_mod}
use doka_one.Prelude.Sorting.{HasDistinctKeys, HasDistinctKeys-Permᴰ, All-Permᴰ}
use doka_one.Crypto.{cc20, decrypt_vec}
use doka_one.Files.Parts.{Indexed, IndexedParts, part_get, part_number}
use doka_one.Files.Parts.Numbered.{
  number, number-append, number-HasDistinctKeys, part_insert-HasNotKey, HasDistinctKeys-middle,
  IsBelow, part_insert-IsBelow,
}
use doka_one.Files.Pool.Sizes.{sum, compute_pool_size-sizes}
use doka_one.Files.Environment.{Environment}
use doka_one.Files.Upload.Progress.{IteratesAll}
use doka_one.Files.Slides.{
  insert_all, build_slide, build_slides, decrypt_parts, decrypt_slide_of_parts, collect, join_all,
  n_threads, parallel_decrypt,
}

insert_all-append :
    (l m : IndexedParts) → HasDistinctKeys part_number (m ++ l) → insert_all l m ≡ m ++ l
unfolding insert_all
insert_all-append [] m h = sym (append-nil m)
insert_all-append ((i, b) ∷ l) m h =
    ap (insert_all l) (part_insert-HasNotKey i b m (HasDistinctKeys-middle m (i, b) l h))
    ∙ insert_all-append l (m ++ (i, b) ∷ [])
        (subst (HasDistinctKeys part_number) (sym (append_assoc m ((i, b) ∷ []) l)) h)
    ∙ append_assoc m ((i, b) ∷ []) l

IsBelow-snoc :
    (n : ℕ) (v : Bytes) (m : IndexedParts) → IsBelow n m → IsBelow (n + 1) (m ++ (n, v) ∷ [])
IsBelow-snoc n v [] h = (omega arith, tt)
IsBelow-snoc n v (p ∷ m) (lt, h) = (omega arith, IsBelow-snoc n v m h)

-- What a decryption gave, if it gave something.
abbrev opened_or_nil : Outcome Failure Bytes → Bytes
opened_or_nil (ok b) = b
opened_or_nil _ = []

module _ (env : Environment) (key : Text) where
  -- An encoded part that decrypts to a block.
  abbrev pub Seals : Text → Bytes → Type 0
  Seals enc block =
      (v : Bytes) × ((env.ciphers.base64_decode enc ≡ some v)
        × (decrypt_vec env.ciphers cc20 v key ≡ ok block))

  -- From `index` on, the parts decrypt to these blocks.
  abbrev pub Holds : Indexed Text → ℕ → List Bytes → Type 0
  Holds enc_parts index [] = Unit
  Holds enc_parts index (b ∷ bs) =
      ((enc : Text) × ((part_get index enc_parts ≡ some enc) × Seals enc b))
      × Holds enc_parts (index + 1) bs

  abbrev Decrypts : List Bytes → List Bytes → Type 0
  Decrypts [] [] = Unit
  Decrypts [] (b ∷ bs) = ⊥
  Decrypts (v ∷ vs) [] = ⊥
  Decrypts (v ∷ vs) (b ∷ bs) = (decrypt_vec env.ciphers cc20 v key ≡ ok b) × Decrypts vs bs

  build_slide-number :
      (bs : List Bytes) (index : ℕ) (enc_parts : Indexed Text) (m : IndexedParts)
      → Holds enc_parts index bs
      → IsBelow index m
      → (vs : List Bytes) × ((build_slide env (length bs) index enc_parts m
            ≡ ok (m ++ number index vs))
          × Decrypts vs bs)
  unfolding build_slide
  build_slide-number [] index enc_parts m h below = ([], (ap ok (sym (append-nil m)), tt))
  build_slide-number (b ∷ bs) index enc_parts m ((enc, (found, (v, (decoded, opened)))), h) below =
      let (vs, (e, d)) =
        build_slide-number bs (index + 1) enc_parts (m ++ (index, v) ∷ []) h
          (IsBelow-snoc index v m below) in
      (
        v ∷ vs,
        (
          rw (found, decoded, part_insert-IsBelow index v m below)
              (e ∙ ap ok (append_assoc m ((index, v) ∷ []) (number (index + 1) vs))),
          (opened, d),
        ),
      )

  abbrev open_part : ℕ × Bytes → ℕ × Bytes
  open_part p = (p.0, opened_or_nil (decrypt_vec env.ciphers cc20 p.1 key))

  abbrev Opens : ℕ × Bytes → Type 0
  Opens p = decrypt_vec env.ciphers cc20 p.1 key ≡ ok (open_part p).1

  number-Opens : (index : ℕ) (vs bs : List Bytes) → Decrypts vs bs → All Opens (number index vs)
  number-Opens index [] [] h = tt
  number-Opens index (v ∷ vs) (b ∷ bs) (e, h) =
      (e ∙ ap (λ o. ok (opened_or_nil o)) (sym e), number-Opens (index + 1) vs bs h)
  number-Opens index [] (b ∷ bs) h = absurd h
  number-Opens index (v ∷ vs) [] h = absurd h

  map-open_part :
      (index : ℕ) (vs bs : List Bytes)
      → Decrypts vs bs
      → map open_part (number index vs) ≡ number index bs
  map-open_part index [] [] h = refl
  map-open_part index (v ∷ vs) (b ∷ bs) (e, h) =
      λ i. (index, opened_or_nil (e i)) ∷ map-open_part (index + 1) vs bs h i
  map-open_part index [] (b ∷ bs) h = absurd h
  map-open_part index (v ∷ vs) [] h = absurd h

  decrypt_parts-map :
      (l m : IndexedParts)
      → All Opens l
      → HasDistinctKeys part_number (m ++ map open_part l)
      → decrypt_parts env key l m ≡ ok (m ++ map open_part l)
  unfolding decrypt_parts
  decrypt_parts-map [] m h d = ap ok (sym (append-nil m))
  decrypt_parts-map ((i, v) ∷ l) m (e, h) d =
      let x = open_part (i, v) in
      rw e (
        ap (decrypt_parts env key l)
          (part_insert-HasNotKey i x.1 m (HasDistinctKeys-middle m x (map open_part l) d))
        ∙ decrypt_parts-map l (m ++ x ∷ []) h (
            subst (HasDistinctKeys part_number) (sym (append_assoc m (x ∷ []) (map open_part l))) d)
        ∙ ap ok (append_assoc m (x ∷ []) (map open_part l)))

  module _ (order : IteratesAll env) where
    -- One slide, whatever the order in which it is gone through.
    decrypt_slide_of_parts-number :
        (index : ℕ) (vs bs : List Bytes)
        → Decrypts vs bs
        → (k : IndexedParts) × ((decrypt_slide_of_parts env key (number index vs) ≡ ok k)
            × Permᴰ k (number index bs))
    unfolding decrypt_slide_of_parts
    decrypt_slide_of_parts-number index vs bs h =
        let l = env.map_order (number index vs) in
        let p : Permᴰ l (number index vs) = order (number index vs) in
        let q : Permᴰ (map open_part l) (number index bs) =
          subst (Permᴰ (map open_part l)) (map-open_part index vs bs h) (Permᴰ.map open_part p) in
        (
          map open_part l,
          (
            decrypt_parts-map l []
                (All-Permᴰ part_number Opens (Permᴰ.symm p) (number-Opens index vs bs h))
                (HasDistinctKeys-Permᴰ part_number (Permᴰ.symm q)
                  (number-HasDistinctKeys index bs)),
            q,
          ),
        )

    collect-number :
        (vs done bs : List Bytes) (m : IndexedParts)
        → Decrypts vs bs
        → Permᴰ m (number 0 done)
        → Permᴰ
            (collect env (decrypt_slide_of_parts env key (number (length done) vs)) m)
            (number 0 (done ++ bs))
    unfolding collect
    collect-number vs done bs m h p =
        let (k, (e, q)) = decrypt_slide_of_parts-number (length done) vs bs h in
        let r : Permᴰ (m ++ env.map_order k) (number 0 (done ++ bs)) =
          subst (Permᴰ (m ++ env.map_order k)) (sym (number-append 0 done bs)) (
            Permᴰ.trans (Permᴰ.append_right (env.map_order k) p) (
              Permᴰ.append_left (number 0 done) (
                subst (λ n. Permᴰ (env.map_order k) (number n bs)) (omega arith)
                  (Permᴰ.trans (order k) q)))) in
        let distinct : HasDistinctKeys part_number (m ++ env.map_order k) =
          HasDistinctKeys-Permᴰ part_number (Permᴰ.symm r)
            (number-HasDistinctKeys 0 (done ++ bs)) in
        rw e (
          subst (λ l. Permᴰ l (number 0 (done ++ bs)))
            (sym (insert_all-append (env.map_order k) m distinct)) r)

    -- The slides that decrypt to these blocks, from an offset on.
    abbrev Slices : ℕ → List IndexedParts → List Bytes → Type 0
    Slices offset [] all = all ≡ []
    Slices offset (slide ∷ slides) all =
        (vs : List Bytes) × ((bs : List Bytes) × ((rest : List Bytes) × ((slide ≡ number offset vs)
              × (Decrypts vs bs × ((all ≡ bs ++ rest) × Slices (offset + length bs) slides rest)))))

    join_all-Slices :
        (slides : List IndexedParts) (done all : List Bytes) (m : IndexedParts)
        → Slices (length done) slides all
        → Permᴰ m (number 0 done)
        → Permᴰ (join_all env key slides m) (number 0 (done ++ all))
    unfolding join_all
    join_all-Slices [] done all m e p =
        subst (λ l. Permᴰ m (number 0 l)) (sym (ap (λ l. done ++ l) e ∙ append-nil done)) p
    join_all-Slices (slide ∷ slides) done all m (vs, (bs, (rest, (e, (d, (cut, h)))))) p =
        let q : Permᴰ (collect env (decrypt_slide_of_parts env key slide) m)
            (number 0 (done ++ bs)) =
          subst
            (λ s. Permᴰ (collect env (decrypt_slide_of_parts env key s) m) (number 0 (done ++ bs)))
            (sym e) (collect-number vs done bs m d p) in
        subst
          (λ l.
            Permᴰ (join_all env key slides (collect env (decrypt_slide_of_parts env key slide) m))
              (number 0 l))
          (append_assoc done bs rest ∙ ap (λ l. done ++ l) (sym cut))
          (join_all-Slices slides (done ++ bs) rest _
            (subst (λ n. Slices n slides rest) (sym (length-append done bs)) h) q)

    Holds-split :
        (enc_parts : Indexed Text) (n index : ℕ) (all : List Bytes)
        → n ≤ length all
        → Holds enc_parts index all
        → Holds enc_parts index (take n all) × Holds enc_parts (index + n) (drop n all)
    Holds-split enc_parts zero index all le h =
        (tt, subst (λ k. Holds enc_parts k all) (omega arith) h)
    Holds-split enc_parts (suc n) index [] le h = absurd (omega arith)
    Holds-split enc_parts (suc n) index (b ∷ all) le (x, h) =
        let (p, q) = Holds-split enc_parts n (index + 1) all (omega arith) h in
        ((x, p), subst (λ k. Holds enc_parts k (drop n all)) (omega arith) q)

    build_slides-Slices :
        (sizes : List ℕ) (offset : ℕ) (enc_parts : Indexed Text) (all : List Bytes)
        → sum sizes ≡ length all
        → Holds enc_parts offset all
        → (slides : List IndexedParts) × ((build_slides env sizes offset enc_parts ≡ ok slides)
            × Slices offset slides all)
    unfolding build_slides sum
    build_slides-Slices [] offset enc_parts [] e h = ([], (refl, refl))
    build_slides-Slices [] offset enc_parts (b ∷ all) e h = absurd (omega arith)
    build_slides-Slices (size ∷ sizes) offset enc_parts all e h =
        let le : size ≤ length all = omega arith in
        let (p, q) = Holds-split enc_parts size offset all le h in
        let length_taken : length (take size all) ≡ size = length-take size all le in
        let (slides, (built, sl)) =
          build_slides-Slices sizes (offset + size) enc_parts (drop size all)
            (omega (
              arith,
              length_taken,
              ap length (take-append-drop size all),
              length-append (take size all) (drop size all),
            ))
            q in
        elim (Bool-cases (size == 0)) [
          | inl none_here ↦ (
            slides,
            (
              rw none_here built,
              subst (λ n. Slices n slides all) (omega arith)
                  (subst (λ n. Slices (offset + n) slides (drop n all)) (zero_of size none_here)
                    sl),
            ),
          )
          | inr some_here ↦
              let (vs, (b, d)) = build_slide-number (take size all) offset enc_parts [] p tt in
              (
                number offset vs ∷ slides,
                (
                  rw some_here (
                      ap
                        (λ n. build_slide env n offset enc_parts [] >>= λ s.
                          build_slides env sizes (offset + size) enc_parts >>= λ r. ok (s ∷ r))
                        (sym length_taken)
                      ∙ rw (b, built) refl),
                  (
                    vs,
                    (
                      take size all,
                      (
                        drop size all,
                        (
                          refl,
                          (
                            d,
                            (
                              sym (take-append-drop size all),
                              subst (λ n. Slices (offset + n) slides (drop size all))
                                  (sym length_taken) sl,
                            ),
                          ),
                        ),
                      ),
                    ),
                  ),
                ),
              )
        ]
      where
        zero_of : (n : ℕ) → (n == 0) ≡ true → n ≡ 0
        zero_of n h = ground arith

    -- Where each of the parts `0`, `1`, … decrypts to a block, and there are no others, fewer than 2 ^ 32, the parts
    -- are decrypted to these blocks, under the same numbers, on any number of processors and in
    -- whatever order the maps are gone through.
    pub parallel_decrypt-number :
        (cpus : ℕ) (enc_parts : Indexed Text) (blocks : List Bytes)
        → length enc_parts ≡ length blocks
        → length blocks < u32_mod
        → Holds enc_parts 0 blocks
        → (m : IndexedParts) × ((parallel_decrypt env cpus enc_parts key ≡ ok m)
            × Permᴰ m (number 0 blocks))
    unfolding parallel_decrypt
    parallel_decrypt-number cpus enc_parts blocks e small h =
        let (sizes, pool, _, total, _) =
          compute_pool_size-sizes (n_threads cpus) (length blocks) (ground arith) in
        let (slides, (built, sl)) = build_slides-Slices sizes 0 enc_parts blocks total h in
        let size : length enc_parts % u32_mod ≡ length blocks = omega arith in
        (
          join_all env key slides [],
          (rw (size, pool, built) refl, join_all-Slices slides [] blocks [] sl Permᴰ.nil),
        )
