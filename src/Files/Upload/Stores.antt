-- ===== src/Files/Upload/Stores.antt =====
-- file_delegate.rs: about what an upload writes.
use mathlib.Core.List.{Permᴰ}
use doka_one.Prelude.{
  ℕ, ◌*◌, ◌≤◌, ◌<◌, ◌≡◌, ◌≢◌, refl, sym, ap, ◌∙◌, subst, Bool, List, [], ◌∷◌, ◌++◌, map, append-nil,
  Text, Bytes, length, concat, All, arith,
}
use doka_one.Prelude.Int.{u32_mod}
use doka_one.Prelude.Effects.{Ends, returned, failed, Ends-mono, Ends-bind}
use doka_one.Pg.Transaction.{Database}
use doka_one.Files.Parts.{IndexedParts}
use doka_one.Files.Parts.Numbered.{number}
use doka_one.Files.Environment.{Environment}
use doka_one.Files.Store.{Store, UploadRow}
use doka_one.Files.Upload.{
  Uploader, Upload, Fields, no_more, broken_form, field, write_rest, read_fields,
  read_and_write_incoming_data,
}
use doka_one.Files.Upload.Progress.{IteratesAll, add_uploads, row_of, push_block-Progress}
use doka_one.Files.Upload.Field.{
  chunks_bytes, fields_bytes, Wrote, LastIsShort, length-concat-full, At, Wrote-Progress,
  flush-Ends, InField, read_chunks-Ends,
}

module _ (env : Environment) (fails : ℕ → Bool) (block_size : ℕ) (who : Uploader)
    (item_info file_ref : Text) (order : IteratesAll env) (before : Store) (whole : Bytes)
    (positive : 0 < block_size) (small : length whole < u32_mod) where
  -- Behind a field: a part of a block is stored with all blocks that wait, and where the field was
  -- cut into full blocks, they may wait on.
  AfterField : Bytes → Bytes → Upload → Database Store → Type 0
  AfterField data_read after v e =
      (final : List Bytes) × (At env fails block_size who item_info file_ref order before whole
          positive small after final v e.committed
        × (((k : ℕ) → length data_read ≢ k * block_size) → v.block_set ≡ []))

  write_rest-Ends :
      (data_read after : Bytes) (bs : List Bytes) (s : Bytes × Upload) (d : Database Store)
      → InField env fails block_size who item_info file_ref order before whole positive small
          data_read after bs s d.committed
      → length s.0 < block_size
      → Ends
          (AfterField data_read after)
          (Wrote before)
          (write_rest env fails block_size who item_info file_ref s d)
  unfolding write_rest AfterField
  write_rest-Ends data_read after bs ([], u) d h lt =
      returned (bs ++ h.new, (h.progress, λ short. absurd (short (length h.new) whole_blocks)))
    where
      whole_blocks : length data_read ≡ length h.new * block_size
      whole_blocks =
          ap length (sym h.cut_field ∙ append-nil (concat h.new))
          ∙ length-concat-full block_size h.new h.full
  write_rest-Ends data_read after bs (x ∷ buffer, u) d h lt =
      Ends-mono
        (flush-Ends env fails block_size who item_info file_ref order before whole positive small
          after ((bs ++ h.new) ++ (x ∷ buffer) ∷ []) _ d
          (push_block-Progress env fails block_size who item_info file_ref (x ∷ buffer) after
            h.progress refl (omega arith) (omega (arith, lt)) small))
        (λ v e q. ((bs ++ h.new) ++ (x ∷ buffer) ∷ [], (q.1, λ _. ap (λ w. w.block_set) q.0)))
        (λ e q. q)

  abbrev AllCut : Fields → Upload → Database Store → Type 0
  AllCut fs v e =
      (final : List Bytes) × (At env fails block_size who item_info file_ref order before whole
          positive small [] final v e.committed
        × (LastIsShort block_size fs → v.block_set ≡ []))

  read_fields-Ends :
      (fs : Fields) (bs : List Bytes) (u : Upload) (d : Database Store)
      → At env fails block_size who item_info file_ref order before whole positive small
          (fields_bytes fs)
          bs
          u
          d.committed
      → Ends
          (AllCut fs)
          (Wrote before)
          (read_fields env fails block_size who item_info file_ref fs u d)
  unfolding read_fields AfterField
  read_fields-Ends no_more bs u d p = returned (bs, (p, λ last. absurd last))
  read_fields-Ends broken_form bs u d p = failed (
      Wrote-Progress env fails block_size who item_info file_ref order before whole positive small d
        d p refl)
  read_fields-Ends (field cs fs) bs u d p =
      let start : InField env fails block_size who item_info file_ref order before whole positive
          small [] (chunks_bytes cs ++ fields_bytes fs) bs ([], u) d.committed =
        record {
          new = [];
          progress =
              subst
                (λ l.
                  At env fails block_size who item_info file_ref order before whole positive small
                    (chunks_bytes cs ++ fields_bytes fs) l u d.committed)
                (sym (append-nil bs)) p;
          full = tt;
          cut_field = refl;
        } in
      Ends-bind
        (Ends-bind
          (read_chunks-Ends env fails block_size who item_info file_ref order before whole positive
            small cs [] (fields_bytes fs) bs ([], u) d start positive)
          (λ s e q. write_rest-Ends (chunks_bytes cs) (fields_bytes fs) bs s e q.0 q.1))
        (go fs (read_fields-Ends fs))
    where
      go :
          (fs : Fields)
          → ((bs : List Bytes) (u : Upload) (d : Database Store)
              → At env fails block_size who item_info file_ref order before whole positive small
                  (fields_bytes fs)
                  bs
                  u
                  d.committed
              → Ends
                  (AllCut fs)
                  (Wrote before)
                  (read_fields env fails block_size who item_info file_ref fs u d))
          → (v : Upload) (e : Database Store) → AfterField (chunks_bytes cs) (fields_bytes fs) v e
          → Ends
              (AllCut (field cs fs))
              (Wrote before)
              (read_fields env fails block_size who item_info file_ref fs v e)
      go no_more again v e (final, (q, flushed)) = returned (final, (q, flushed))
      go broken_form again v e (final, (q, flushed)) = failed (
          Wrote-Progress env fails block_size who item_info file_ref order before whole positive
            small e e q refl)
      go (field ds fs) again v e (final, (q, flushed)) = again final v e q

-- The blocks that an upload cut a form into: they are its bytes, in order; none is empty or larger
-- than the size of a block; `waiting` are those that were not stored, behind those that were.
pub record Blocks (env : Environment) (fails : ℕ → Bool) (block_size : ℕ) (who : Uploader)
    (item_info file_ref : Text) (fields : Fields) (before now : Store) (size count : ℕ)
    : Type 0 where
  pub blocks : List Bytes
  pub cut : concat blocks ≡ fields_bytes fields
  pub nonempty : All (λ b. 0 < length b) blocks
  pub bounded : All (λ b. length b ≤ block_size) blocks
  pub counted : count ≡ length blocks
  pub measured : size ≡ length (fields_bytes fields)
  pub stored : IndexedParts
  pub waiting : IndexedParts
  pub split : stored ++ waiting ≡ number 0 blocks
  pub rows : List UploadRow
  pub permuted : Permᴰ rows (map (row_of env fails block_size who item_info file_ref) stored)
  pub written : now ≡ add_uploads rows before
  pub none_waits : LastIsShort block_size fields → waiting ≡ []

-- Where iterating over a map meets every entry once and a block is not empty, reading a form of less
-- than four gigabytes ends and does not panic. Where it succeeds, it
-- returns the form's size and the number of its blocks, and every block was stored under its
-- number, but for some last ones that may still wait; none waits if the last field is not a whole
-- number of blocks. Where it fails, nothing but rows of uploads was written.
pub read_and_write_incoming_data-Blocks :
    (env : Environment) (fails : ℕ → Bool) (block_size : ℕ) (who : Uploader)
    (item_info file_ref : Text) (fields : Fields) (d : Database Store)
    → IteratesAll env
    → 0 < block_size
    → length (fields_bytes fields) < u32_mod
    → Ends
        (λ r e.
          Blocks env fails block_size who item_info file_ref fields d.committed e.committed r.0 r.1)
        (Wrote d.committed)
        (read_and_write_incoming_data env fails block_size who item_info file_ref fields d)
unfolding read_and_write_incoming_data
read_and_write_incoming_data-Blocks env fails block_size who item_info file_ref fields d order
      positive small =
    Ends-bind
      (read_fields-Ends env fails block_size who item_info file_ref order d.committed
        (fields_bytes fields) positive small fields [] _ d
        (record {
          cut = refl;
          nonempty = tt;
          bounded = tt;
          counted = refl;
          measured = refl;
          stored = [];
          rows = [];
          split = refl;
          permuted = Permᴰ.nil;
          written =
              ap (λ l. record (d.committed) { file_uploads = l })
                (sym (append-nil d.committed.file_uploads));
        }))
      λ v e (final, (p, flushed)). returned (record {
        blocks = final;
        cut = sym (append-nil (concat final)) ∙ p.cut;
        nonempty = p.nonempty;
        bounded = p.bounded;
        counted = p.counted;
        measured = p.measured ∙ ap length (sym (append-nil (concat final)) ∙ p.cut);
        stored = p.stored;
        waiting = v.block_set;
        split = p.split;
        rows = p.rows;
        permuted = p.permuted;
        written = p.written;
        none_waits = flushed;
      })
