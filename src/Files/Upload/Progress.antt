-- ===== src/Files/Upload/Progress.antt =====
-- file_delegate.rs: about the state of an upload between two reads.
use mathlib.Core.List.{Permᴰ, map-append}
use mathlib.Core.List.Permᴰ
use doka_one.Prelude.{
  ◌⊎◌, inl, inr, ℕ, ◌+◌, ◌≤◌, ◌<◌, ◌≡◌, refl, sym, ap, ◌∙◌, subst, Bool, List, [], ◌∷◌, ◌++◌, map,
  append_assoc, append-nil, Text, Bytes, length, length-append, concat, All, All-append, arith,
}
use doka_one.Prelude.Int.{u32_mod}
use doka_one.Prelude.Effects.{Ends-mono, Ends, returned}
use doka_one.Pg.Transaction.{Database}
use doka_one.Pg.Transaction.Atomic.{Changes, change-Changes, Changes-bind, transact-Ends}
use doka_one.Files.Parts.{IndexedParts}
use doka_one.Files.Parts.Numbered.{
  number, number-snoc, concat-snoc, IsBelow, IsBelow-number, All-append_right, part_insert-IsBelow,
}
use doka_one.Files.Environment.{Environment}
use doka_one.Files.Store.{Store, UploadRow, insert_upload}
use doka_one.Files.Upload.{
  Uploader, Upload, upload_row, insert_blocks, store_group_block, push_block,
}

-- Iterating over a map meets every entry once.
abbrev pub IteratesAll : Environment → Type 0
IteratesAll env = (m : IndexedParts) → Permᴰ (env.map_order m) m

abbrev pub add_uploads : List UploadRow → Store → Store
add_uploads rows s = record s { file_uploads = s.file_uploads ++ rows }

pub length-concat-le :
    (bs : List Bytes) → All (λ b. 0 < length b) bs → length bs ≤ length (concat bs)
length-concat-le [] h = omega arith
length-concat-le (b ∷ bs) (lt, h) =
    omega (arith, length-append b (concat bs), length-concat-le bs h)

module _ (env : Environment) (fails : ℕ → Bool) (block_size : ℕ) (who : Uploader)
    (item_info file_ref : Text) where
  abbrev pub row_of : ℕ × Bytes → UploadRow
  row_of = upload_row env fails block_size who item_info file_ref

  insert_blocks-Changes :
      (bs : IndexedParts)
      → Changes fails
          (λ s a t. t ≡ add_uploads (map row_of bs) s)
          (insert_blocks env fails block_size who item_info file_ref bs)
  unfolding insert_blocks
  insert_blocks-Changes [] d = returned (
    refl,
    ap (λ l. record (d.working) { file_uploads = l }) (sym (append-nil d.working.file_uploads)),
  )
  insert_blocks-Changes (b ∷ bs) d =
      Changes-bind fails (λ s a t. t ≡ add_uploads (map row_of (b ∷ bs)) s)
        (change-Changes fails (insert_upload (row_of b))) (λ _. insert_blocks-Changes bs)
        (λ s t u _ _ e f.
          f
          ∙ ap (add_uploads (map row_of bs)) e
          ∙ unfold insert_upload in
            ap (λ l. record s { file_uploads = l })
              (append_assoc s.file_uploads (row_of b ∷ []) (map row_of bs)))
        d

  -- All blocks of a set are added, or, where the call fails, perhaps none.
  pub store_group_block-Ends :
      (bs : IndexedParts) (d : Database Store)
      → Ends
          (λ a e. e.committed ≡ add_uploads (map row_of (env.map_order bs)) d.committed)
          (λ e.
            (e.committed ≡ d.committed)
            ⊎ (e.committed ≡ add_uploads (map row_of (env.map_order bs)) d.committed))
          (store_group_block env fails block_size who item_info file_ref bs d)
  unfolding store_group_block
  store_group_block-Ends bs d =
      Ends-mono
        (transact-Ends fails (λ s a t. t ≡ add_uploads (map row_of (env.map_order bs)) s)
          (insert_blocks-Changes (env.map_order bs)) d)
        (λ a e h. h) (λ e h. elim h [ inl same ↦ inl same | inr (_, landed) ↦ inr landed ])

  -- What was done so far, in an upload of `whole` of which `rest` is still to be cut, into the blocks
  -- `bs`, when `before` was committed at its start.
  pub record Progress (before : Store) (whole rest : Bytes) (bs : List Bytes) (u : Upload)
      (now : Store) : Type 0 where
    pub cut : concat bs ++ rest ≡ whole
    pub nonempty : All (λ b. 0 < length b) bs
    pub bounded : All (λ b. length b ≤ block_size) bs
    pub counted : u.block_num ≡ length bs
    pub measured : u.total_size ≡ length (concat bs)
    pub stored : IndexedParts
    pub rows : List UploadRow
    pub split : stored ++ u.block_set ≡ number 0 bs
    pub permuted : Permᴰ rows (map row_of stored)
    pub written : now ≡ add_uploads rows before

  module _ {before now : Store} {whole rest : Bytes} {bs : List Bytes} {u : Upload} where
    -- One more block.
    pub push_block-Progress :
        (b after : Bytes)
        → Progress before whole rest bs u now
        → rest ≡ b ++ after
        → 0 < length b
        → length b ≤ block_size
        → length whole < u32_mod
        → Progress before whole after
            (bs ++ b ∷ [])
            (push_block env fails block_size who item_info file_ref b u)
            now
    unfolding push_block
    push_block-Progress b after p e lt le small = record {
      cut =
          ap (λ s. s ++ after) (concat-snoc bs b)
          ∙ append_assoc (concat bs) b after
          ∙ ap (λ s. concat bs ++ s) (sym e)
          ∙ p.cut;
      nonempty = All-append (λ b. 0 < length b) bs (b ∷ []) p.nonempty (lt, tt);
      bounded = All-append (λ b. length b ≤ block_size) bs (b ∷ []) p.bounded (le, tt);
      counted = omega (
        arith,
        p.counted,
        length-append bs (b ∷ []),
        length-concat-le bs p.nonempty,
        ap length p.cut,
        length-append (concat bs) rest,
        ap length e,
        length-append b after,
      );
      measured = p_measured;
      stored = p.stored;
      rows = p.rows;
      split =
          ap (λ m. p.stored ++ m) (part_insert-IsBelow u.block_num b u.block_set below)
          ∙ sym (append_assoc p.stored u.block_set ((u.block_num, b) ∷ []))
          ∙ ap (λ m. m ++ (u.block_num, b) ∷ []) p.split
          ∙ ap (λ n. number 0 bs ++ (n, b) ∷ []) p.counted
          ∙ sym (number-snoc bs b);
      permuted = p.permuted;
      written = p.written;
    }
      where
        p_measured : u.total_size + length b ≡ length (concat (bs ++ b ∷ []))
        p_measured =
            omega (arith, p.measured, ap length (concat-snoc bs b), length-append (concat bs) b)

        below : IsBelow u.block_num u.block_set
        below =
            All-append_right (λ q. q.0 < u.block_num) p.stored u.block_set
              (subst (IsBelow u.block_num) (sym p.split)
                (IsBelow-number 0 bs u.block_num (omega (arith, p.counted))))

    -- The set of blocks is stored, and starts anew.
    pub flush-Progress :
        (after : Store)
        → Progress before whole rest bs u now
        → after ≡ add_uploads (map row_of (env.map_order u.block_set)) now
        → IteratesAll env
        → Progress before whole rest bs (record u { block_set = [] }) after
    flush-Progress after p e order = record {
      cut = p.cut;
      nonempty = p.nonempty;
      bounded = p.bounded;
      counted = p.counted;
      measured = p.measured;
      stored = p.stored ++ u.block_set;
      rows = p.rows ++ map row_of (env.map_order u.block_set);
      split = append-nil (p.stored ++ u.block_set) ∙ p.split;
      permuted =
          subst (Permᴰ (p.rows ++ map row_of (env.map_order u.block_set)))
            (sym (map-append row_of p.stored u.block_set))
            (Permᴰ.trans (Permᴰ.append_right (map row_of (env.map_order u.block_set)) p.permuted)
              (Permᴰ.append_left (map row_of p.stored) (Permᴰ.map row_of (order u.block_set))));
      written =
          e
          ∙ ap (add_uploads (map row_of (env.map_order u.block_set))) p.written
          ∙ ap (λ l. record before { file_uploads = l })
              (append_assoc before.file_uploads p.rows (map row_of (env.map_order u.block_set)));
    }
