-- ===== src/Files/RoundTrip.antt =====
-- file_delegate.rs: about an upload that is processed and then downloaded.
use doka_one.Prelude.{
  ℕ, suc, ◌+◌, ◌≤◌, ◌<◌, ◌≡◌, refl, sym, ap, ◌∙◌, Bool, true, List, [], ◌∷◌, ◌++◌, append-nil, map,
  Text, Bytes, length, concat, All, ◌==◌, ==_self, ok, arith,
}
use doka_one.Prelude.Int.{i32_rank-as_i32}
use doka_one.Prelude.Effects.{Ends, Ends-bind, Ends-mono, ◌>>=◌, ◌>>◌}
use doka_one.Prelude.Sorting.{sort_asc, sort_asc-IsAscending, IsAscending}
use doka_one.Crypto.RoundTrip.{CipherLaws}
use doka_one.Pg.Transaction.{Database}
use doka_one.Files.Parts.Numbered.{number}
use doka_one.Files.Parts.Stream.{sent}
use doka_one.Files.Environment.{Environment}
use doka_one.Files.Store.{
  Store, PartRow, ReferenceRow, where_rows, of_upload, of_reference, part_rank, joined_rank,
  join_parts, select_parts, select_uploads,
}
use doka_one.Files.Store.Rows.{where_rows-append, where_rows-All}
use doka_one.Files.Upload.{Uploader, Fields, read_and_write_incoming_data}
use doka_one.Files.Upload.Progress.{IteratesAll, row_of, length-concat-le}
use doka_one.Files.Upload.Field.{LastIsShort, fields_bytes}
use doka_one.Files.Upload.Stores.{read_and_write_incoming_data-Blocks}
use doka_one.Files.Process.{process_file_blocks}
use doka_one.Files.Process.Selected.{select_uploads-Blocks}
use doka_one.Files.Process.Sealed.{Draws, SealAll, length-SealAll, part_of, number_parts, add_parts}
use doka_one.Files.Process.Encrypted.{serial_encrypt-AllSealed}
use doka_one.Files.Process.Content.{Marks, serial_parse_content-Marks}
use doka_one.Files.Download.{download}
use doka_one.Files.Download.RoundTrip.{joined, MediaLaws, download-sends}

module _ (g : ReferenceRow) where
  rank-part :
      (n : ℕ) (enc : Text) → n < 2147483648 → part_rank (part_of g.id n enc) ≡ 2147483648 + n
  rank-part n enc h = i32_rank-as_i32 n h

  joined-IsAscending :
      (k : ℕ) (encs : List Text)
      → k + length encs < 2147483648
      → IsAscending joined_rank (joined g k encs)
  joined-IsAscending k [] h = tt
  joined-IsAscending k (enc ∷ encs) h = (
    above (k + 1) encs (omega arith) (omega arith),
    joined-IsAscending (k + 1) encs (omega arith),
  )
    where
      above :
          (n : ℕ) (encs : List Text)
          → k < n
          → n + length encs < 2147483648
          → All (λ j. joined_rank (g, part_of g.id k enc) < joined_rank j) (joined g n encs)
      above n [] lt h = tt
      above n (c ∷ cs) lt h = (
        omega (arith, rank-part k enc (omega arith), rank-part n c (omega arith)),
        above (n + 1) cs (omega arith) (omega arith),
      )

  number_parts-of_file :
      (k : ℕ) (encs : List Text)
      → All (λ p. (p.file_reference_id == g.id) ≡ true) (number_parts g.id k encs)
  number_parts-of_file k [] = tt
  number_parts-of_file k (enc ∷ encs) = (==_self g.id, number_parts-of_file (k + 1) encs)

  -- The parts of a file that had none are selected in their order.
  select_parts-joined :
      (file_ref : Text) (encs : List Text) (before : List PartRow) (s : Store)
      → where_rows (of_reference file_ref) s.file_reference ≡ g ∷ []
      → where_rows (λ p. p.file_reference_id == g.id) before ≡ []
      → s.file_parts ≡ before ++ number_parts g.id 0 encs
      → length encs < 2147483648
      → select_parts file_ref s ≡ joined g 0 encs
  unfolding select_parts join_parts
  select_parts-joined file_ref encs before s e none_before e2 small =
      let of_file = λ (p : PartRow). p.file_reference_id == g.id in
      let rows : where_rows of_file s.file_parts ≡ number_parts g.id 0 encs =
        ap (where_rows of_file) e2
        ∙ where_rows-append of_file before (number_parts g.id 0 encs)
        ∙ ap (λ l. l ++ where_rows of_file (number_parts g.id 0 encs)) none_before
        ∙ where_rows-All of_file (number_parts g.id 0 encs) (number_parts-of_file 0 encs) in
      ap (λ l. sort_asc joined_rank (join_parts l s.file_parts)) e
      ∙ ap (λ l. sort_asc joined_rank (map (λ p. (g, p)) l ++ [])) rows
      ∙ ap (sort_asc joined_rank) (append-nil (joined g 0 encs))
      ∙ sort_asc-IsAscending joined_rank (joined g 0 encs) (joined-IsAscending 0 encs (omega arith))

-- What a download of these blocks needs to find.
abbrev IsReady : Environment → Text → Text → List Bytes → Store → Type 0
IsReady env key file_ref blocks s =
    (g : ReferenceRow) × ((encs : List Text) × ((g.is_encrypted ≡ true)
        × ((select_parts file_ref s ≡ joined g 0 encs) × SealAll env key encs blocks)))

module _ (env : Environment) (fails : ℕ → Bool) (key file_ref : Text) (f : ReferenceRow)
    (laws : CipherLaws env.ciphers) (draws : Draws env) where
  process_file_blocks-IsReady :
      (block_size block_count : ℕ) (who : Uploader) (item_info : Text) (blocks : List Bytes)
      (d : Database Store)
      → where_rows (of_reference file_ref) d.committed.file_reference ≡ f ∷ []
      → where_rows (λ p. p.file_reference_id == f.id) d.committed.file_parts ≡ []
      → select_uploads file_ref d.committed
        ≡ map (row_of env fails block_size who item_info file_ref) (number 0 blocks)
      → length blocks ≤ block_count
      → length blocks < 2147483648
      → Ends
          (λ _ e. IsReady env key file_ref blocks e.committed)
          (λ e. Unit {0})
          (process_file_blocks env fails f.id file_ref block_count key d)
  unfolding process_file_blocks
  process_file_blocks-IsReady block_size block_count who item_info blocks d e none_before selected
        le small =
      Ends-bind
        (Ends-mono
          (serial_encrypt-AllSealed env fails f.id block_count key block_size who item_info file_ref
            blocks d laws draws selected le (omega arith))
          (λ a w p. p) (λ w p. tt))
        λ a d1 sealed.
          Ends-mono (serial_parse_content-Marks env fails file_ref f.id block_count d1)
            (λ b w m. ready d1.committed w.committed sealed m) (λ w p. tt)
    where
      ready :
          (s t : Store)
          → ((encs : List Text) × ((s ≡ add_parts (number_parts f.id 0 encs) d.committed)
                × SealAll env key encs blocks))
          → Marks env fails file_ref f.id s t
          → IsReady env key file_ref blocks t
      ready s t (encs, (same, sealed)) m =
          let (g, (e1, (at, yes_encrypted))) =
            m.marked f (ap (λ u. where_rows (of_reference file_ref) u.file_reference) same ∙ e)
              refl in
          let parts : t.file_parts ≡ d.committed.file_parts ++ number_parts g.id 0 encs =
            m.unchanged_parts
            ∙ ap (λ u. u.file_parts) same
            ∙ ap (λ n. d.committed.file_parts ++ number_parts n 0 encs) (sym at) in
          (
            g,
            (
              encs,
              (
                yes_encrypted,
                (
                  select_parts-joined g file_ref encs d.committed.file_parts t e1
                      (ap (λ n. where_rows (λ p. p.file_reference_id == n) d.committed.file_parts)
                          at
                        ∙ none_before)
                      parts (omega (arith, length-SealAll env key encs blocks sealed)),
                  sealed,
                ),
              ),
            ),
          )

  -- A form that is uploaded in blocks, processed and downloaded comes back as it was: where the three
  -- succeed, the body of the download sends the bytes of the form, and where one fails, it ends with
  -- an error and no panic. The file's reference is there, with no uploads and no parts yet; the form
  -- is of less than two gigabytes, and its last field is not a whole number of blocks; a block is not
  -- empty; the ciphers, the drawn nonces,
  -- and the crates of media types and headers keep their promises, and iterating over a map meets every
  -- entry once.
  pub download-read_and_write_incoming_data :
      (block_size cpus : ℕ) (who : Uploader) (item_info : Text) (fields : Fields)
      (d : Database Store)
      → IteratesAll env
      → MediaLaws env
      → 0 < block_size
      → LastIsShort block_size fields
      → length (fields_bytes fields) < 2147483648
      → where_rows (of_reference file_ref) d.committed.file_reference ≡ f ∷ []
      → where_rows (of_upload file_ref) d.committed.file_uploads ≡ []
      → where_rows (λ p. p.file_reference_id == f.id) d.committed.file_parts ≡ []
      → Ends
          (λ r e. (polls : ℕ) × (sent polls r.1 ≡ ok (fields_bytes fields)))
          (λ e. Unit {0})
          ((read_and_write_incoming_data env fails block_size who item_info file_ref fields
              >>= λ read.
                  process_file_blocks env fails f.id file_ref read.1 key
                  >> download env fails cpus file_ref key)
            d)
  download-read_and_write_incoming_data block_size cpus who item_info fields d order media_laws
        positive short small e no_uploads no_parts =
      Ends-bind
        (Ends-mono
          (read_and_write_incoming_data-Blocks env fails block_size who item_info file_ref fields d
            order positive (omega arith))
          (λ r w b. b) (λ w p. tt))
        λ read d1 b.
          let few : length b.blocks < 2147483648 =
            omega (arith, length-concat-le b.blocks b.nonempty, ap length b.cut) in
          Ends-bind
            (process_file_blocks-IsReady block_size read.1 who item_info b.blocks d1
              (ap (λ s. where_rows (of_reference file_ref) s.file_reference) b.written ∙ e)
              (ap (λ s. where_rows (λ p. p.file_reference_id == f.id) s.file_parts) b.written
                ∙ no_parts)
              (select_uploads-Blocks env fails block_size who item_info file_ref fields d.committed
                d1.committed read.0 read.1 b no_uploads small short)
              (omega (arith, b.counted)) few)
            λ _ d2 ready. downloaded b.blocks (fields_bytes fields) b.cut few d2 ready
    where
      downloaded :
          (blocks : List Bytes) (content : Bytes)
          → concat blocks ≡ content
          → length blocks < 2147483648
          → (w : Database Store) → IsReady env key file_ref blocks w.committed
          → Ends
              (λ r e. (polls : ℕ) × (sent polls r.1 ≡ ok content))
              (λ e. Unit {0})
              (download env fails cpus file_ref key w)
      downloaded blocks content cut few w (g, (encs, (yes_encrypted, (selected, sealed)))) =
          Ends-mono
            (download-sends env fails cpus file_ref key g encs blocks w order media_laws
              yes_encrypted selected sealed (omega arith))
            (λ r v p. (suc (length blocks), p.0 ∙ ap ok cut)) (λ v p. tt)
