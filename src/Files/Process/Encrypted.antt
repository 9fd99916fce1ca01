-- ===== src/Files/Process/Encrypted.antt =====
-- file_delegate.rs: about the encryption of the blocks of an upload.
use doka_one.Prelude.{
  ◌⊎◌, inl, inr, ℕ, ◌+◌, ◌≤◌, ◌<◌, ◌≡◌, refl, sym, ap, ◌∙◌, subst, Bool, true, List, [], ◌∷◌, ◌++◌,
  append_assoc, append-nil, map, Text, Bytes, byte_length, length, length-append, leb, Failure,
  Outcome, ok, err, panic, out_of_fuel, arith, Ensures, holds, rejected, panics,
}
use doka_one.Prelude.Int.{u32_mod}
use doka_one.Prelude.Effects.{lift, resume, Ends, returned, failed, Ends-bind, Ends-mono, ◌>>=◌}
use doka_one.Crypto.{cc20, encrypt_vec, decrypt_vec}
use doka_one.Crypto.Modes.{encrypt_vec-cc20-Ensures, decrypt_cc20-long}
use doka_one.Crypto.RoundTrip.{CipherLaws, decrypt_vec-encrypt_vec}
use doka_one.Pg.DataSet.{Row, for_data_set}
use doka_one.Pg.DataSet.Cursor.{for_rows, for_data_set-for_rows}
use doka_one.Pg.Transaction.{Database}
use doka_one.Pg.Transaction.Atomic.{execute-Changes, insert-Changes, transact-Ends}
use doka_one.Files.Parts.Numbered.{number}
use doka_one.Files.Environment.{Environment}
use doka_one.Files.Store.{Store, select_uploads, upload_cells, insert_part}
use doka_one.Files.Upload.{Uploader}
use doka_one.Files.Upload.Progress.{row_of}
use doka_one.Files.Slides.Decrypts.{Seals}
use doka_one.Files.Process.{
  search_incoming_blocks, encrypt_row, log_encrypted, write_part, serial_encrypt,
}
use doka_one.Files.Process.Sealed.{
  part_of, number_parts, add_parts, single, encrypt_row-Reads, store_encrypted, encrypt_row-row,
  Draws, SealAll, AddedParts, add_parts-nil, add_parts-snoc, SealAll-snoc, length-SealAll,
}

module _ (env : Environment) (fails : ℕ → Bool) (file_id block_count : ℕ) (key : Text) where
  -- Where a call fails, nothing was stored, or the one part that it was to store.
  abbrev PerhapsPart : ℕ → Store → Database Store → Type 0
  PerhapsPart k before e =
      (e.committed ≡ before)
      ⊎ ((enc : Text) × (e.committed ≡ insert_part (part_of file_id k enc) before))

  write_part-Ends :
      (k : ℕ) (enc : Text) (d : Database Store)
      → Ends
          (λ _ e. e.committed ≡ insert_part (part_of file_id k enc) d.committed)
          (PerhapsPart k d.committed)
          (write_part env fails file_id k enc d)
  unfolding write_part
  write_part-Ends k enc d =
      Ends-bind
        (Ends-mono
          (transact-Ends fails (λ s a t. t ≡ insert_part (part_of file_id k enc) s)
            (insert-Changes fails (insert_part (part_of file_id k enc)) (λ s. s.file_parts_id_seq))
            d)
          (λ a e h. h)
          (λ e h. elim h [ inl same ↦ inl same | inr (_, landed) ↦ inr (enc, landed) ]))
        λ _ e h. returned h

  module _ (laws : CipherLaws env.ciphers) (draws : Draws env) where
    -- One block: its part is stored, and decrypts to it; where the call fails, perhaps nothing.
    abbrev Sealed : ℕ → Bytes → Store → ℕ → Database Store → Type 0
    Sealed k b before n e =
        (n ≡ k + 1)
        × ((enc : Text) × ((e.committed ≡ insert_part (part_of file_id k enc) before)
              × Seals env key enc b))

    store_encrypted-Ends :
        (k : ℕ) (b out : Bytes) (d : Database Store)
        → encrypt_vec env.ciphers cc20 (env.draw k) b key ≡ ok out
        → 0 < block_count
        → Ends (Sealed k b d.committed) (PerhapsPart k d.committed) (
            store_encrypted env fails file_id block_count key k
              (env.ciphers.base64_encode b)
              k
              out
              d)
    unfolding log_encrypted
    store_encrypted-Ends k b out d e positive =
        let enc = env.ciphers.base64_encode out in
        let opened : decrypt_vec env.ciphers cc20 out key ≡ ok b =
          decrypt_vec-encrypt_vec env.ciphers laws cc20 (env.draw k) b out key e in
        let long : leb 10 (byte_length enc) ≡ true =
          ground (arith, decrypt_cc20-long env.ciphers out key opened, draws.base64_long out) in
        let some_block : leb 1 block_count ≡ true = ground arith in
        rw (long, some_block)
          (Ends-bind (write_part-Ends k enc d)
            λ _ e h. returned (refl, (enc, (h, (out, (laws.base64_decode-encode out, opened))))))

    encrypt_block-Ends :
        (k : ℕ) (b : Bytes) (d : Database Store)
        → 0 < block_count
        → Ends (Sealed k b d.committed) (PerhapsPart k d.committed) (
            (lift (encrypt_vec env.ciphers cc20 (env.draw k) b key)
                >>= store_encrypted env fails file_id block_count key k
                    (env.ciphers.base64_encode b)
                    k)
              d)
    encrypt_block-Ends k b d positive =
        go (encrypt_vec env.ciphers cc20 (env.draw k) b key)
          (encrypt_vec-cc20-Ensures env.ciphers (env.draw k) b key (draws.nonce_size k))
      where
        go :
            (r : Outcome Failure Bytes)
            → Ensures ⊥ (λ out. encrypt_vec env.ciphers cc20 (env.draw k) b key ≡ ok out) r
            → Ends (Sealed k b d.committed) (PerhapsPart k d.committed) (
                resume
                  (store_encrypted env fails file_id block_count key k
                    (env.ciphers.base64_encode b)
                    k)
                  (r, d))
        go (ok out) (holds h) = store_encrypted-Ends k b out d h positive
        go (err e) rejected = failed (inl refl)
        go panic (panics q) = absurd q
        go out_of_fuel h = elim h [ ]

    module _ (block_size : ℕ) (who : Uploader) (item_info file_ref : Text) (before : Store) where
      abbrev cells : List (ℕ × Bytes) → List Row
      cells m = map upload_cells (map (row_of env fails block_size who item_info file_ref) m)

      -- The parts of `blocks` were added, sealed.
      abbrev AllSealed : List Bytes → Database Store → Type 0
      AllSealed blocks e =
          (encs : List Text) × ((e.committed ≡ add_parts (number_parts file_id 0 encs) before)
            × SealAll env key encs blocks)

      for_rows-AllSealed :
          (bs done : List Bytes) (k : ℕ) (d : Database Store)
          → k ≡ length done
          → length (done ++ bs) ≤ block_count
          → length (done ++ bs) < u32_mod
          → AllSealed done d
          → Ends
              (λ _ e. AllSealed (done ++ bs) e)
              (AddedParts before file_id)
              (for_rows
                (λ r. encrypt_row env fails file_id block_count key (single r))
                (cells (number k bs))
                k
                d)
      unfolding for_rows
      for_rows-AllSealed [] done k d at le small h =
          returned (subst (λ l. AllSealed l d) (sym (append-nil done)) h)
      for_rows-AllSealed (b ∷ bs) done k d at le small (encs, (e, s)) =
          subst
            (λ r.
              Ends (λ _ e. AllSealed (done ++ b ∷ bs) e) (AddedParts before file_id)
                (resume
                  (for_rows (λ r. encrypt_row env fails file_id block_count key (single r))
                    (cells (number (k + 1) bs)))
                  r))
            (sym (
              encrypt_row-row env fails file_id block_count key block_size who item_info file_ref
                laws k b d (omega (arith, length-append done (b ∷ bs)))))
            (Ends-bind
              (Ends-mono (encrypt_block-Ends k b d (omega (arith, length-append done (b ∷ bs))))
                (λ n f h. h)
                (λ f h. elim h [
                  | inl same ↦ (encs, same ∙ e)
                  | inr (enc, landed) ↦ (
                    encs ++ enc ∷ [],
                    landed
                        ∙ ap (insert_part (part_of file_id k enc)) e
                        ∙ add_parts-snoc file_id k encs enc before
                            (at ∙ sym (length-SealAll env key encs done s)),
                  )
                ]))
              λ n f (next, (enc, (w, sealed))).
                subst
                  (λ l.
                    Ends (λ _ e. AllSealed l e) (AddedParts before file_id)
                      (for_rows (λ r. encrypt_row env fails file_id block_count key (single r))
                        (cells (number (k + 1) bs)) n f))
                  (append_assoc done (b ∷ []) bs)
                  (subst
                    (λ m.
                      Ends (λ _ e. AllSealed ((done ++ b ∷ []) ++ bs) e) (AddedParts before file_id)
                        (for_rows (λ r. encrypt_row env fails file_id block_count key (single r))
                          (cells (number (k + 1) bs)) m f))
                    (sym next)
                    (for_rows-AllSealed bs (done ++ b ∷ []) (k + 1) f
                      (omega (arith, length-append done (b ∷ [])))
                      (omega (arith, ap length (append_assoc done (b ∷ []) bs)))
                      (omega (arith, ap length (append_assoc done (b ∷ []) bs)))
                      (
                        encs ++ enc ∷ [],
                        (
                          w
                              ∙ ap (insert_part (part_of file_id k enc)) e
                              ∙ add_parts-snoc file_id k encs enc before
                                  (at ∙ sym (length-SealAll env key encs done s)),
                          SealAll-snoc env key encs done enc b s sealed,
                        ),
                      ))))

  pub search_incoming_blocks-Ends :
      (file_ref : Text) (d : Database Store)
      → Ends
          (λ rows e.
            (rows ≡ map upload_cells (select_uploads file_ref d.committed))
            × (e.committed ≡ d.committed))
          (λ e. e.committed ≡ d.committed)
          (search_incoming_blocks env fails file_ref d)
  unfolding search_incoming_blocks
  search_incoming_blocks-Ends file_ref d =
      Ends-mono
        (transact-Ends fails (λ s a t. (a ≡ map upload_cells (select_uploads file_ref s)) × (t ≡ s))
          (execute-Changes fails (λ s. (map upload_cells (select_uploads file_ref s), s))) d)
        (λ a e h. h) (λ e h. elim h [ inl same ↦ same | inr (_, (_, same)) ↦ same ])

-- Where the uploads of a file are blocks that are numbered from 0, fewer than 2 ^ 32 and no more than
-- the count that is passed, and the ciphers and the drawn nonces keep their promises,
-- `serial_encrypt` ends and does not panic. Where it succeeds, it has added one part for every block,
-- under the block's number and the file's id, that decrypts to the block; where it fails, it has
-- added nothing but parts of the file, numbered from 0.
pub serial_encrypt-AllSealed :
    (env : Environment) (fails : ℕ → Bool) (file_id block_count : ℕ) (key : Text) (block_size : ℕ)
    (who : Uploader) (item_info file_ref : Text) (blocks : List Bytes) (d : Database Store)
    → CipherLaws env.ciphers
    → Draws env
    → select_uploads file_ref d.committed
      ≡ map (row_of env fails block_size who item_info file_ref) (number 0 blocks)
    → length blocks ≤ block_count
    → length blocks < u32_mod
    → Ends
        (λ _ e.
          (encs : List Text) × ((e.committed ≡ add_parts (number_parts file_id 0 encs) d.committed)
            × SealAll env key encs blocks))
        (AddedParts d.committed file_id)
        (serial_encrypt env fails file_id file_ref block_count key d)
unfolding serial_encrypt
serial_encrypt-AllSealed env fails file_id block_count key block_size who item_info file_ref blocks
      d laws draws e le small =
    let none_added : (e : Database Store)
        → e.committed ≡ d.committed
        → e.committed ≡ add_parts [] d.committed =
      λ e same. same ∙ add_parts-nil d.committed in
    Ends-bind
      (Ends-mono (search_incoming_blocks-Ends env fails file_id block_count key file_ref d)
        (λ rows f h. h) (λ f same. ([], none_added f same)))
      λ rows f (r, same).
        Ends-bind
          (subst
            (Ends
              (λ _ e.
                (encs : List Text) × ((e.committed
                    ≡ add_parts (number_parts file_id 0 encs) d.committed)
                  × SealAll env key encs blocks))
              (AddedParts d.committed file_id))
            (sym (
              ap (λ l. for_data_set (encrypt_row env fails file_id block_count key) l 0 f)
                (r ∙ ap (map upload_cells) e)
              ∙ for_data_set-for_rows (encrypt_row env fails file_id block_count key)
                  (λ r. encrypt_row env fails file_id block_count key (single r))
                  (encrypt_row-Reads env fails file_id block_count key)
                  (cells env fails file_id block_count key laws draws block_size who item_info
                    file_ref d.committed (number 0 blocks))
                  0 f))
            (for_rows-AllSealed env fails file_id block_count key laws draws block_size who
              item_info file_ref d.committed blocks [] 0 f refl le small
              ([], (none_added f same, tt))))
          λ _ g h. returned h
