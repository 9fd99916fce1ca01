-- ===== src/Files/Process/Rollback.antt =====
-- file_delegate.rs: about the rollback of `thread_processing_block`.
use doka_one.Prelude.{ℕ, ◌+◌, ◌≡◌, refl, Bool, false, [], Text, codes, ◌==◌, failure, ok, err}
use doka_one.Prelude.Int.{as_i32, pos}
use doka_one.Pg.Transaction.{Database, request, from_pool, begin, execute, commit, change, transact}
use doka_one.Files.Environment.{Environment}
use doka_one.Files.Store.{
  Store, where_rows, of_upload, delete_parts, delete_metadata, delete_uploads, set_reference,
}
use doka_one.Files.Store.Rows.{where_rows-unless}
use doka_one.Files.Process.{
  process_file_blocks, delete_from_file_parts, delete_from_file_metadata, delete_from_file_uploads,
  update_file_reference, roll_back, thread_processing_block,
}

-- A database after a transaction of one statement.
abbrev after : (Store → Store) → Database Store → Database Store
after f d = record d {
  committed = f d.committed;
  working = f d.committed;
  calls = d.calls + 1 + 1 + 1 + 1;
}

module _ (env : Environment) (fails : ℕ → Bool) (answers : (k : ℕ) → fails k ≡ false) where
  transact-answers :
      (f : Store → Store) (d : Database Store)
      → transact fails (change fails f) d ≡ (ok tt, after f d)
  unfolding transact from_pool begin change execute commit request
  transact-answers f d =
      rw
        (
          answers d.calls,
          answers (d.calls + 1),
          answers (d.calls + 1 + 1),
          answers (d.calls + 1 + 1 + 1),
        )
        refl

  abbrev rolled_back : ℕ → Store → Store
  rolled_back file_id s =
      set_reference file_id (pos 0) (as_i32 0) (codes "text")
        (delete_metadata file_id (delete_parts file_id s))

  roll_back-answers :
      (file_id : ℕ) (d : Database Store)
      → roll_back env fails file_id d ≡ (
        ok tt,
        after
            (set_reference file_id (pos 0) (as_i32 0) (codes "text"))
            (after (delete_metadata file_id) (after (delete_parts file_id) d)),
      )
  unfolding roll_back delete_from_file_parts delete_from_file_metadata update_file_reference
  roll_back-answers file_id d =
      rw
        (
          transact-answers (delete_parts file_id) d,
          transact-answers (delete_metadata file_id) (after (delete_parts file_id) d),
          transact-answers (set_reference file_id (pos 0) (as_i32 0) (codes "text"))
              (after (delete_metadata file_id) (after (delete_parts file_id) d)),
        )
        refl

  -- Where the processing of an upload failed, and the database answers, the task leaves no part, no
  -- metadata and no upload of the file, whatever the processing had written.
  pub thread_processing_block-rolls_back :
      (file_id block_count : ℕ) (file_ref customer_key : Text) (d d1 : Database Store)
      → process_file_blocks env fails file_id file_ref block_count customer_key d
        ≡ (err failure, d1)
      → (e : Database Store) × ((thread_processing_block env fails file_id file_ref block_count
              customer_key d
            ≡ (ok tt, e))
          × ((where_rows (λ p. p.file_reference_id == file_id) e.committed.file_parts ≡ [])
              × ((where_rows (λ m. m.file_reference_id == file_id) e.committed.file_metadata ≡ [])
                  × (where_rows (of_upload file_ref) e.committed.file_uploads ≡ []))))
  unfolding thread_processing_block delete_from_file_uploads delete_parts delete_metadata
      delete_uploads set_reference
  thread_processing_block-rolls_back file_id block_count file_ref customer_key d d1 h =
      let s1 = after (delete_parts file_id) d1 in
      let s2 = after (delete_metadata file_id) s1 in
      let s3 = after (set_reference file_id (pos 0) (as_i32 0) (codes "text")) s2 in
      (
        after (delete_uploads file_ref) s3,
        (
          rw (h, roll_back-answers file_id d1, transact-answers (delete_uploads file_ref) s3) refl,
          (
            where_rows-unless (λ p. p.file_reference_id == file_id) d1.committed.file_parts,
            (
              where_rows-unless (λ m. m.file_reference_id == file_id) d1.committed.file_metadata,
              where_rows-unless (of_upload file_ref) d1.committed.file_uploads,
            ),
          ),
        ),
      )
