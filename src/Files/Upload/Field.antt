-- ===== src/Files/Upload/Field.antt =====
-- file_delegate.rs: about what is written while the chunks of a field are read.
use doka_one.Prelude.{
  ℕ, zero, suc, ◌+◌, ◌*◌, ◌≤◌, ◌<◌, ◌≡◌, ◌≢◌, refl, sym, ap, ◌∙◌, subst, Bool, List, [], ◌∷◌, ◌++◌,
  inl, inr, append_assoc, append-nil, Text, Bytes, length, length-append, take, drop,
  take-append-drop, length-take, concat, All, All-append, leb, leb→le, Bool-cases, arith,
}
use doka_one.Prelude.Int.{u32_mod}
use doka_one.Prelude.Effects.{Ends, returned, failed, Ends-mono, Ends-bind}
use doka_one.Pg.Transaction.{Database}
use doka_one.Files.Parts.Numbered.{concat-append}
use doka_one.Files.Environment.{Environment}
use doka_one.Files.Store.{Store, UploadRow}
use doka_one.Files.Upload.{
  Uploader, Upload, Chunks, done, broken, chunk, Fields, no_more, broken_form, field, flush,
  flush_full, write_full_blocks, read_chunks,
}
use doka_one.Files.Upload.Progress.{
  IteratesAll, add_uploads, Progress, push_block-Progress, flush-Progress, store_group_block-Ends,
}

-- The bytes of a field, and of a form.
abbrev pub chunks_bytes : Chunks → Bytes
chunks_bytes done = []
chunks_bytes broken = []
chunks_bytes (chunk c cs) = c ++ chunks_bytes cs

abbrev pub fields_bytes : Fields → Bytes
fields_bytes no_more = []
fields_bytes broken_form = []
fields_bytes (field cs fs) = chunks_bytes cs ++ fields_bytes fs

-- What was committed since `before`: some upload rows, and nothing else.
abbrev pub Wrote : Store → Database Store → Type 0
Wrote before d = (rows : List UploadRow) × (d.committed ≡ add_uploads rows before)

-- The last field of the form is no whole number of blocks.
abbrev pub LastIsShort : ℕ → Fields → Type 0
LastIsShort block_size no_more = ⊥
LastIsShort block_size broken_form = Unit
LastIsShort block_size (field cs no_more) = (k : ℕ) → length (chunks_bytes cs) ≢ k * block_size
LastIsShort block_size (field cs broken_form) = Unit
LastIsShort block_size (field cs (field ds fs)) = LastIsShort block_size (field ds fs)

pub length-concat-full :
    (n : ℕ) (bs : List Bytes) → All (λ b. length b ≡ n) bs → length (concat bs) ≡ length bs * n
length-concat-full n [] h = omega arith
length-concat-full n (b ∷ bs) (e, h) =
    grind (arith, length-append b (concat bs), length-concat-full n bs h)

module _ (env : Environment) (fails : ℕ → Bool) (block_size : ℕ) (who : Uploader)
    (item_info file_ref : Text) (order : IteratesAll env) (before : Store) (whole : Bytes)
    (positive : 0 < block_size) (small : length whole < u32_mod) where
  abbrev pub At : Bytes → List Bytes → Upload → Store → Type 0
  At = Progress env fails block_size who item_info file_ref before whole

  pub Wrote-Progress :
      {rest : Bytes} {bs : List Bytes} {u : Upload} (d e : Database Store)
      → At rest bs u d.committed
      → e.committed ≡ d.committed
      → Wrote before e
  Wrote-Progress d e p same = (p.rows, same ∙ p.written)

  pub flush-Ends :
      (rest : Bytes) (bs : List Bytes) (u : Upload) (d : Database Store)
      → At rest bs u d.committed
      → Ends
          (λ v e. (v ≡ record u { block_set = [] }) × At rest bs v e.committed)
          (Wrote before)
          (flush env fails block_size who item_info file_ref u d)
  unfolding flush
  flush-Ends rest bs u d p =
      Ends-bind
        (Ends-mono
          (store_group_block-Ends env fails block_size who item_info file_ref u.block_set d)
          (λ a e h. h)
          (λ e h. elim h [
            | inl same ↦ Wrote-Progress d e p same
            | inr landed ↦ wrote e (
                flush-Progress env fails block_size who item_info file_ref e.committed p landed
                  order)
          ]))
        λ _ e h.
          returned
            (refl, flush-Progress env fails block_size who item_info file_ref e.committed p h order)
    where
      wrote :
          (e : Database Store)
          → At rest bs (record u { block_set = [] }) e.committed
          → Wrote before e
      wrote e q = (q.rows, q.written)

  flush_full-Ends :
      (rest : Bytes) (bs : List Bytes) (u : Upload) (d : Database Store)
      → At rest bs u d.committed
      → Ends
          (λ v e. At rest bs v e.committed)
          (Wrote before)
          (flush_full env fails block_size who item_info file_ref u d)
  unfolding flush_full
  flush_full-Ends rest bs u d p = elim (Bool-cases (leb 10 (length u.block_set))) [
    | inl full ↦ rw full (Ends-mono (flush-Ends rest bs u d p) (λ v e h. h.1) (λ e h. h))
    | inr more ↦ rw more (returned p)
  ]

  -- Of the bytes `seen` of a field, full blocks were cut, and `buffer` is left.
  pub record InField (seen after : Bytes) (bs : List Bytes) (s : Bytes × Upload) (now : Store)
      : Type 0 where
    pub new : List Bytes
    pub progress : At (s.0 ++ after) (bs ++ new) s.1 now
    pub full : All (λ b. length b ≡ block_size) new
    pub cut_field : concat new ++ s.0 ≡ seen

  InField-cons :
      (b seen after : Bytes) (bs : List Bytes) (s : Bytes × Upload) (now : Store)
      → length b ≡ block_size
      → InField seen after (bs ++ b ∷ []) s now
      → InField (b ++ seen) after bs s now
  InField-cons b seen after bs s now e h = record {
    new = b ∷ h.new;
    progress = subst (λ l. At (s.0 ++ after) l s.1 now) (append_assoc bs (b ∷ []) h.new) h.progress;
    full = (e, h.full);
    cut_field = append_assoc b (concat h.new) s.0 ∙ ap (λ t. b ++ t) h.cut_field;
  }

  InField-join :
      (new : List Bytes) (seen buffer c after : Bytes) (bs : List Bytes) (t : Bytes × Upload)
      (now : Store)
      → All (λ b. length b ≡ block_size) new
      → concat new ++ buffer ≡ seen
      → InField (buffer ++ c) after (bs ++ new) t now
      → InField (seen ++ c) after bs t now
  InField-join new seen buffer c after bs t now full cut q = record {
    new = new ++ q.new;
    progress = subst (λ l. At (t.0 ++ after) l t.1 now) (append_assoc bs new q.new) q.progress;
    full = All-append (λ b. length b ≡ block_size) new q.new full q.full;
    cut_field =
        ap (λ s. s ++ t.0) (concat-append new q.new)
        ∙ append_assoc (concat new) (concat q.new) t.0
        ∙ ap (λ s. concat new ++ s) q.cut_field
        ∙ sym (append_assoc (concat new) buffer c)
        ∙ ap (λ s. s ++ c) cut;
  }

  length-drop : (n : ℕ) (s : Bytes) → n ≤ length s → length (drop n s) + n ≡ length s
  length-drop n s h = omega (
    arith,
    length-take n s h,
    ap length (take-append-drop n s),
    length-append (take n s) (drop n s),
  )

  write_full_blocks-Ends :
      (f : ℕ) (buffer after : Bytes) (bs : List Bytes) (u : Upload) (d : Database Store)
      → length buffer < f
      → At (buffer ++ after) bs u d.committed
      → Ends
          (λ s e. InField buffer after bs s e.committed × (length s.0 < block_size))
          (Wrote before)
          (write_full_blocks env fails block_size who item_info file_ref f buffer u d)
  unfolding write_full_blocks
  write_full_blocks-Ends zero buffer after bs u d lt p = absurd (omega arith)
  write_full_blocks-Ends (suc f) buffer after bs u d lt p =
      elim (Bool-cases (leb block_size (length buffer))) [
        | inl long ↦ rw long (
            let le : block_size ≤ length buffer = leb→le block_size (length buffer) long in
            let b = take block_size buffer in
            let rest = drop block_size buffer in
            let size : length b ≡ block_size = length-take block_size buffer le in
            Ends-bind
              (flush_full-Ends (rest ++ after) (bs ++ b ∷ []) _ d (
                push_block-Progress env fails block_size who item_info file_ref b (rest ++ after) p
                  (ap (λ s. s ++ after) (sym (take-append-drop block_size buffer))
                    ∙ append_assoc b rest after)
                  (omega (arith, size)) (omega (arith, size)) small))
              λ v e q.
                Ends-mono
                  (write_full_blocks-Ends f rest after (bs ++ b ∷ []) v e
                    (omega (arith, length-drop block_size buffer le)) q)
                  (λ s g h. (
                    subst (λ t. InField t after bs s g.committed)
                        (take-append-drop block_size buffer)
                        (InField-cons b rest after bs s g.committed size h.0),
                    h.1,
                  ))
                  (λ g h. h))
        | inr short ↦ rw short (
            returned (
              record {
                new = [];
                progress =
                    subst (λ l. At (buffer ++ after) l u d.committed) (sym (append-nil bs)) p;
                full = tt;
                cut_field = refl;
              },
              ground arith,
            ))
      ]

  pub read_chunks-Ends :
      (cs : Chunks) (seen after : Bytes) (bs : List Bytes) (s : Bytes × Upload) (d : Database Store)
      → InField seen (chunks_bytes cs ++ after) bs s d.committed
      → length s.0 < block_size
      → Ends
          (λ t e.
            InField (seen ++ chunks_bytes cs) after bs t e.committed × (length t.0 < block_size))
          (Wrote before)
          (read_chunks env fails block_size who item_info file_ref cs s d)
  unfolding read_chunks
  read_chunks-Ends done seen after bs s d h lt =
      returned (subst (λ t. InField t after bs s d.committed) (sym (append-nil seen)) h, lt)
  read_chunks-Ends broken seen after bs s d h lt = failed (Wrote-Progress d d h.progress refl)
  read_chunks-Ends (chunk c cs) seen after bs (buffer, u) d h lt =
      let after' = chunks_bytes cs ++ after in
      Ends-bind
        (write_full_blocks-Ends (suc (length (buffer ++ c))) (buffer ++ c) after' (bs ++ h.new) u d
          (omega arith)
          (subst (λ t. At t (bs ++ h.new) u d.committed)
            (ap (λ t. buffer ++ t) (append_assoc c (chunks_bytes cs) after)
              ∙ sym (append_assoc buffer c after'))
            h.progress))
        λ t e q.
          subst
            (λ r.
              Ends (λ t e. InField r after bs t e.committed × (length t.0 < block_size))
                (Wrote before) (read_chunks env fails block_size who item_info file_ref cs t e))
            (append_assoc seen c (chunks_bytes cs))
            (read_chunks-Ends cs (seen ++ c) after bs t e
              (InField-join h.new seen buffer c after' bs t e.committed h.full h.cut_field q.0) q.1)
