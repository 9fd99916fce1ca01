-- ===== src/Files/Download/RoundTrip.antt =====
-- file_delegate.rs: about downloading the parts of a file.
use mathlib.Core.List.{Permᴰ}
use mathlib.Core.List.Permᴰ
use doka_one.Prelude.{
  none, Option, ltb, codes, leb, ◌&&◌, failure, ℕ, suc, ◌+◌, ◌<◌, ◌≡◌, refl, sym, ap, ◌∙◌, subst,
  Bool, true, false, some, List, [], ◌∷◌, ◌++◌, append_assoc, append-nil, map, Text, text_eq, Bytes,
  length, length-append, concat, ◌==◌, ok, arith,
}
use doka_one.Prelude.Int.{as_u32-as_i32, u32_mod}
use doka_one.Prelude.Effects.{ok_or, lift, ◌>>=◌, Ends, returned, failed, Ends-bind, resume}
use doka_one.Prelude.Sorting.{sort_asc-Permᴰ, sort_asc-IsAscending, HasDistinctKeys-Permᴰ}
use doka_one.Pg.Cell.{inner_value_int_32, inner_value_string, inner_value_bool}
use doka_one.Pg.DataSet.{Row, cell_of, get_unwrapped, get_optional, for_data_set}
use doka_one.Pg.DataSet.Cursor.{for_rows, Reads, for_data_set-for_rows}
use doka_one.Pg.Transaction.{Database}
use doka_one.Pg.Transaction.Atomic.{from_pool-Ends, begin-Ends, execute-Ends, later}
use doka_one.Files.Parts.{
  Indexed, IndexedParts, part_get, part_insert, part_number, contents, new_stream,
}
use doka_one.Files.Parts.Numbered.{
  number, number-snoc, number-IsAscending, number-HasDistinctKeys, IsBelow-number,
  part_insert-IsBelow,
}
use doka_one.Files.Parts.Stream.{at_part, sent, sent-all}
use doka_one.Files.Environment.{Environment}
use doka_one.Files.Store.{Store, PartRow, ReferenceRow, select_parts, part_cells}
use doka_one.Files.Upload.Progress.{IteratesAll}
use doka_one.Files.Slides.{parallel_decrypt}
use doka_one.Files.Slides.Decrypts.{Holds, parallel_decrypt-number}
use doka_one.Files.Process.Sealed.{
  part_of, number_parts, SealAll, length-SealAll, single, current_row-single,
}
use doka_one.Files.Download.{download_from_parts, collect_part, read_part, search_parts, download}

pub collect_part-Reads : Reads collect_part (λ r. collect_part (single r))
unfolding collect_part read_part get_unwrapped get_optional
collect_part-Reads d r e (media, parts) w = rw (e, current_row-single r) refl

abbrev pub joined : ReferenceRow → ℕ → List Text → List (ReferenceRow × PartRow)
joined f k encs = map (λ p. (f, p)) (number_parts f.id k encs)

module _ (f : ReferenceRow) (encrypted : f.is_encrypted ≡ true) where
  collect_part-row :
      (k : ℕ) (enc media : Text) (parts : Indexed Text) (d : Database Store)
      → k < u32_mod
      → collect_part (single (part_cells (f, part_of f.id k enc))) (media, parts) d
        ≡ (ok (f.mime_type, part_insert k enc parts), d)
  unfolding collect_part read_part get_unwrapped get_optional part_cells cell_of text_eq
      inner_value_int_32 inner_value_string inner_value_bool
  collect_part-row k enc media parts d small =
      rw (current_row-single (part_cells (f, part_of f.id k enc)), encrypted, as_u32-as_i32 k small)
        refl

  for_rows-joined :
      (encs done : List Text) (k : ℕ) (media : Text) (d : Database Store)
      → k ≡ length done
      → k + length encs < u32_mod
      → (m : Text) × (for_rows
            (λ r. collect_part (single r))
            (map part_cells (joined f k encs))
            (media, number 0 done)
            d
          ≡ (ok (m, number 0 (done ++ encs)), d))
  unfolding for_rows
  for_rows-joined [] done k media d at small =
      (media, ap (λ l. (ok (media, number 0 l), d)) (sym (append-nil done)))
  for_rows-joined (enc ∷ encs) done k media d at small =
      let g = λ (r : Row). collect_part (single r) in
      let inserted : part_insert k enc (number 0 done) ≡ number 0 (done ++ enc ∷ []) =
        part_insert-IsBelow k enc (number 0 done) (IsBelow-number 0 done k (omega (arith, at)))
        ∙ ap (λ n. number 0 done ++ (n, enc) ∷ []) at
        ∙ sym (number-snoc done enc) in
      let (m, e) =
        for_rows-joined encs (done ++ enc ∷ []) (k + 1) f.mime_type d
          (omega (arith, length-append done (enc ∷ []))) (omega arith) in
      (
        m,
        ap (resume (for_rows g (map part_cells (joined f (k + 1) encs))))
              (collect_part-row k enc media (number 0 done) d (omega arith))
            ∙ ap (λ p. for_rows g (map part_cells (joined f (k + 1) encs)) (f.mime_type, p) d)
                inserted
            ∙ e
            ∙ ap (λ l. (ok (m, number 0 l), d)) (append_assoc done (enc ∷ []) encs),
      )

  -- The rows of a file's parts are read into the map of the parts, and nothing is committed.
  search_parts-number :
      (env : Environment) (fails : ℕ → Bool) (file_ref : Text) (encs : List Text)
      (d : Database Store)
      → select_parts file_ref d.committed ≡ joined f 0 encs
      → length encs < u32_mod
      → Ends
          (λ r e. (r.1 ≡ number 0 encs) × (e.committed ≡ d.committed))
          (λ e. e.committed ≡ d.committed)
          (search_parts env fails file_ref d)
  unfolding search_parts
  search_parts-number env fails file_ref encs d e small =
      Ends-bind (from_pool-Ends fails d) λ _ d1 h1.
        Ends-bind (later h1 (begin-Ends fails d1)) λ _ d2 h2.
          Ends-bind
            (later (h2.0 ∙ h1)
              (execute-Ends fails (λ s. (map part_cells (select_parts file_ref s), s)) d2))
            λ rows d3 h3.
              let selected : rows ≡ map part_cells (joined f 0 encs) =
                h3.0
                ∙ ap (λ s. map part_cells (select_parts file_ref s)) (h2.1 ∙ h1)
                ∙ ap (map part_cells) e in
              let (m, read) = for_rows-joined encs [] 0 [] d3 refl (omega arith) in
              subst
                (Ends (λ r e. (r.1 ≡ number 0 encs) × (e.committed ≡ d.committed))
                  (λ e. e.committed ≡ d.committed))
                (sym (
                  ap (λ l. for_data_set collect_part l ([], []) d3) selected
                  ∙ for_data_set-for_rows collect_part (λ r. collect_part (single r))
                      collect_part-Reads (map part_cells (joined f 0 encs)) ([], []) d3
                  ∙ read))
                (returned (refl, h3.1 ∙ h2.0 ∙ h1))

part_get-number :
    (k : ℕ) (pre : List Text) (enc : Text) (post : List Text)
    → part_get (k + length pre) (number k (pre ++ enc ∷ post)) ≡ some enc
unfolding part_get
part_get-number k [] enc post = ground arith
part_get-number k (p ∷ pre) enc post =
    let next : k + 1 + length pre ≡ k + suc (length pre) = omega arith in
    let other : (k == k + suc (length pre)) ≡ false = ground arith in
    rw other (
      ap (λ n. part_get n (number (k + 1) (pre ++ enc ∷ post))) (sym next)
      ∙ part_get-number (k + 1) pre enc post)

number-Holds :
    (env : Environment) (key : Text) (done encs : List Text) (bs : List Bytes) (k : ℕ)
    → k ≡ length done
    → SealAll env key encs bs
    → Holds env key (number 0 (done ++ encs)) k bs
number-Holds env key done [] [] k at h = tt
number-Holds env key done [] (b ∷ bs) k at h = absurd h
number-Holds env key done (enc ∷ encs) [] k at h = absurd h
number-Holds env key done (enc ∷ encs) (b ∷ bs) k at (s, h) = (
  (
    enc,
    (
      ap (λ n. part_get n (number 0 (done ++ enc ∷ encs))) (omega (arith, at))
          ∙ part_get-number 0 done enc encs,
      s,
    ),
  ),
  subst (λ l. Holds env key (number 0 l) (k + 1) bs) (append_assoc done (enc ∷ []) encs)
      (number-Holds env key (done ++ enc ∷ []) encs bs (k + 1)
        (omega (arith, at, length-append done (enc ∷ []))) h),
)

length-number : (k : ℕ) (bs : List Bytes) → length (number k bs) ≡ length bs
length-number k [] = refl
length-number k (b ∷ bs) = omega (arith, length-number (k + 1) bs)

contents-number : (k : ℕ) (bs : List Bytes) → contents (number k bs) ≡ bs
contents-number k [] = refl
contents-number k (b ∷ bs) = ap (λ l. b ∷ l) (contents-number (k + 1) bs)

-- The stream of the parts has them in the order of their numbers.
new_stream-number :
    (m : IndexedParts) (bs : List Bytes) → Permᴰ m (number 0 bs) → new_stream m ≡ at_part bs 0
unfolding new_stream
new_stream-number m bs p =
    ap (λ l. at_part l 0)
      (ap contents (
          sort_asc-Permᴰ part_number p
            (HasDistinctKeys-Permᴰ part_number (Permᴰ.symm p) (number-HasDistinctKeys 0 bs))
          ∙ sort_asc-IsAscending part_number (number 0 bs) (number-IsAscending 0 bs))
        ∙ contents-number 0 bs)

-- The characters that a header may have; the rest of ASCII are controls.
abbrev pub is_visible : Text → Bool
is_visible [] = true
is_visible (c ∷ s) = leb 32 c && ltb c 127 && is_visible s

-- What the crates document: a media type is of visible characters, which a header's value accepts.
pub record MediaLaws (env : Environment) : Type 0 where
  pub mime_visible : (s m : Text) → env.parse_mime s ≡ some m → is_visible m ≡ true
  pub header_value_visible :
      (s : Text) → is_visible s ≡ true → (h : Text) × (env.header_value s ≡ some h)

-- The two values of headers are made, and the stream is that of the parts.
download_from_parts-ok :
    (env : Environment) (fails : ℕ → Bool)
    → MediaLaws env
    → (parts : IndexedParts) (s media : Text) → env.parse_mime s ≡ some media
    → (headers : Text × Text) × (download_from_parts env fails parts media
        ≡ ok (headers, new_stream (env.map_order parts)))
unfolding download_from_parts
download_from_parts-ok env fails laws parts s media e =
    let (content_type, e1) = laws.header_value_visible media (laws.mime_visible s media e) in
    let (disposition, e2) =
      laws.header_value_visible (codes "inline; filename=\"file_from_parts\"") refl in
    ((content_type, disposition), rw (e1, e2) refl)

-- Where the parts of a file are those of its blocks, encrypted and numbered from 0, fewer than
-- 2 ^ 32, a download ends and does not panic. Where it succeeds, the body sends the bytes of the
-- blocks, whole and in order, on any number of processors and in whatever order the maps are gone
-- through. The crates of media types and headers are taken to keep their promises.
pub download-sends :
    (env : Environment) (fails : ℕ → Bool) (cpus : ℕ) (file_ref key : Text) (f : ReferenceRow)
    (encs : List Text) (blocks : List Bytes) (d : Database Store)
    → IteratesAll env
    → MediaLaws env
    → f.is_encrypted ≡ true
    → select_parts file_ref d.committed ≡ joined f 0 encs
    → SealAll env key encs blocks
    → length blocks < u32_mod
    → Ends
        (λ r e. (sent (suc (length blocks)) r.1 ≡ ok (concat blocks)) × (e.committed ≡ d.committed))
        (λ e. e.committed ≡ d.committed)
        (download env fails cpus file_ref key d)
unfolding download
download-sends env fails cpus file_ref key f encs blocks d order media_laws encrypted e s small =
    let size : length encs ≡ length blocks = length-SealAll env key encs blocks s in
    let (m, (clear, p)) =
      parallel_decrypt-number env key order cpus (number 0 encs) blocks
        (length-number 0 encs ∙ size) small (number-Holds env key [] encs blocks 0 refl s) in
    Ends-bind (search_parts-number f encrypted env fails file_ref encs d e (omega (arith, size)))
      λ found g (parts, same).
        reply found.0 m g same (Permᴰ.trans (order m) p) (env.parse_mime found.0) refl found.1
          (ap (λ l. parallel_decrypt env cpus l key) parts ∙ clear)
  where
    reply :
        (media_type : Text) (m : IndexedParts) (g : Database Store)
        → g.committed ≡ d.committed
        → Permᴰ (env.map_order m) (number 0 blocks)
        → (o : Option Text) → env.parse_mime media_type ≡ o
        → (parts : Indexed Text) → parallel_decrypt env cpus parts key ≡ ok m
        → Ends
            (λ r e.
              (sent (suc (length blocks)) r.1 ≡ ok (concat blocks)) × (e.committed ≡ d.committed))
            (λ e. e.committed ≡ d.committed)
            ((ok_or failure o >>= λ media.
                lift (parallel_decrypt env cpus parts key) >>= λ clear_parts.
                lift (download_from_parts env fails clear_parts media))
              g)
    reply media_type m g same p none e1 parts e2 = failed same
    reply media_type m g same p (some media) e1 parts e2 =
        let (headers, made) = download_from_parts-ok env fails media_laws m media_type media e1 in
        rw (e2, made)
          (returned (
            ap (sent (suc (length blocks))) (new_stream-number (env.map_order m) blocks p)
                ∙ sent-all blocks,
            same,
          ))
