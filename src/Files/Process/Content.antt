-- ===== src/Files/Process/Content.antt =====
-- file_delegate.rs: about `serial_parse_content`.
use doka_one.Prelude.{
  inl, inr, ℕ, ◌≡◌, refl, sym, ap, ◌∙◌, subst, Bool, true, false, Option, none, some, List, [], ◌∷◌,
  ◌++◌, Text, codes, Bytes, length, if◌then◌else◌, ◌==◌, Failure, failure, Outcome, arith,
}
use doka_one.Prelude.Int.{ℤ, as_i32, pos}
use doka_one.Prelude.Effects.{
  pure, lift, ok_or, Ends, returned, failed, Ends-bind, Ends-mono, ◌>>=◌, ◌>>◌,
}
use doka_one.Crypto.{or_fail}
use doka_one.Pg.DataSet.{Row, get_optional, get_string, for_data_set}
use doka_one.Pg.DataSet.Cursor.{for_rows, Reads, for_data_set-for_rows}
use doka_one.Pg.Transaction.{Database, transact, execute, constrained}
use doka_one.Pg.Transaction.Atomic.{
  Changes, Changes-bind, change-Changes, constrained-Changes, execute-Changes, transact-Ends,
}
use doka_one.Files.Environment.{Environment}
use doka_one.Files.Store.{
  Store, ReferenceRow, where_rows, update_rows, of_reference, insert_metadata_row,
  set_fulltext_parsed, set_reference,
}
use doka_one.Files.Store.Rows.{where_rows-update_rows}
use doka_one.Files.Process.{
  Files, append_row, is_kept, require, insert_metadata_rows, insert_metadata,
  set_file_reference_fulltext_indicator, analyse_entire_content, update_file_reference,
  serial_parse_content,
}
use doka_one.Files.Process.Sealed.{single, current_row-single}
use doka_one.Files.Process.Encrypted.{search_incoming_blocks-Ends}
use doka_one.Files.Process.Parsed.{
  Keeps, Keeps-refl, Keeps-trans, Keeps-eq, insert_metadata_row-Keeps, set_fulltext_parsed-Keeps,
}

module _ (env : Environment) (fails : ℕ → Bool) (file_ref : Text) where
  -- A call that ends, and that keeps the file's parts and its reference whether it succeeds or not.
  abbrev Preserves : {A : Type 0} → Files A → Type 0
  Preserves m =
      (d : Database Store)
      → Ends (λ _ e. Keeps file_ref d.committed e.committed)
          (λ e. Keeps file_ref d.committed e.committed) (m d)

  abbrev KeepsIn : {A : Type 0} → Files A → Type 0
  KeepsIn = Changes fails (λ s a t. Keeps file_ref s t)

  module _ {A : Type 0} where
    Preserves-bind :
        {B : Type 0} {m : Files A} {k : A → Files B}
        → Preserves m
        → ((a : A) → Preserves (k a))
        → Preserves (m >>= k)
    Preserves-bind h g d = Ends-bind (h d) λ a e p.
        Ends-mono (g a e) (λ b u q. Keeps-trans file_ref p q) (λ u q. Keeps-trans file_ref p q)

    Preserves-pure : (a : A) → Preserves (pure a)
    Preserves-pure a d = returned (Keeps-refl file_ref d.committed)

    Preserves-ok_or : (o : Option A) → Preserves (ok_or failure o)
    Preserves-ok_or none d = failed (Keeps-refl file_ref d.committed)
    Preserves-ok_or (some a) d = returned (Keeps-refl file_ref d.committed)

    Preserves-or_fail : (o : Option A) → Preserves (lift (or_fail o))
    Preserves-or_fail none d = failed (Keeps-refl file_ref d.committed)
    Preserves-or_fail (some a) d = returned (Keeps-refl file_ref d.committed)

    Preserves-transact : {m : Files A} → KeepsIn m → Preserves (transact fails m)
    Preserves-transact h d =
        Ends-mono (transact-Ends fails (λ s a t. Keeps file_ref s t) h d) (λ a e p. p)
          (λ e p. elim p [ inl same ↦ Keeps-eq file_ref same | inr (_, k) ↦ k ])

    Preserves-for_rows :
        (g : Row → A → Files A)
        → ((r : Row) (a : A) → Preserves (g r a))
        → (rows : List Row) (a : A) → Preserves (for_rows g rows a)
    unfolding for_rows
    Preserves-for_rows g h [] a d = Preserves-pure a d
    Preserves-for_rows g h (r ∷ rows) a d = Preserves-bind (h r a) (Preserves-for_rows g h rows) d

  Preserves-require : (b : Bool) → Preserves (require env fails b)
  Preserves-require true d = returned (Keeps-refl file_ref d.committed)
  Preserves-require false d = failed (Keeps-refl file_ref d.committed)

  insert_metadata_rows-Changes :
      (metadata : List (Text × Text)) → KeepsIn (insert_metadata_rows env fails file_ref metadata)
  unfolding insert_metadata_rows
  insert_metadata_rows-Changes [] d = returned (refl, Keeps-refl file_ref d.working)
  insert_metadata_rows-Changes ((key, value) ∷ metadata) d =
      Changes-bind fails (λ s a t. Keeps file_ref s t) (kept (is_kept env fails (key, value)))
        (λ _. insert_metadata_rows-Changes metadata) (λ s t u a b p q. Keeps-trans file_ref p q) d
    where
      row : Files (Unit {0})
      row =
          constrained fails (insert_metadata_row file_ref key value)
          >> execute fails (λ s. (s.file_metadata_id_seq, s))
          >> pure tt

      kept : (b : Bool) → KeepsIn (if b then row else pure tt)
      kept false d = returned (refl, Keeps-refl file_ref d.working)
      kept true d =
          Changes-bind fails (λ s a t. Keeps file_ref s t)
            (Changes-bind fails (λ s a t. Keeps file_ref s t)
              (constrained-Changes fails (insert_metadata_row file_ref key value) (Keeps file_ref)
                (insert_metadata_row-Keeps file_ref key value))
              (λ _. execute-Changes fails (λ s. (s.file_metadata_id_seq, s)))
              (λ s t u a b p. λ (q : (b ≡ t.file_metadata_id_seq) × (u ≡ t)).
                Keeps-trans file_ref p (Keeps-eq file_ref q.1)))
            (λ _ e. returned (refl, Keeps-refl file_ref e.working))
            (λ s t u a b p q. Keeps-trans file_ref p q) d

  set_fulltext-Preserves : Preserves (set_file_reference_fulltext_indicator env fails file_ref)
  unfolding set_file_reference_fulltext_indicator
  set_fulltext-Preserves = Preserves-transact λ d.
      Ends-mono (change-Changes fails (set_fulltext_parsed file_ref) d)
        (λ a e p. (
          p.0,
          subst (Keeps file_ref d.working) (sym p.1) (set_fulltext_parsed-Keeps file_ref d.working),
        ))
        (λ e p. p)

  analyse_entire_content-Preserves :
      (mem_file : Bytes) → Preserves (analyse_entire_content env fails file_ref mem_file)
  unfolding analyse_entire_content insert_metadata
  analyse_entire_content-Preserves mem_file =
      Preserves-bind (Preserves-require env.tika_address) λ _.
        Preserves-bind (Preserves-ok_or (env.parse_data_json mem_file)) λ raw_json.
          Preserves-bind (Preserves-ok_or raw_json.x_tika_content) λ x_tika_content.
            Preserves-bind (Preserves-ok_or raw_json.content_type) λ content_type.
              Preserves-bind (Preserves-ok_or raw_json.metadata) λ metadata.
                Preserves-bind (Preserves-transact (insert_metadata_rows-Changes metadata)) λ _.
                  Preserves-bind (Preserves-require env.document_server_address) λ _.
                    Preserves-bind
                      (Preserves-require (env.fulltext_indexing x_tika_content file_ref))
                      λ _. Preserves-bind set_fulltext-Preserves λ _. Preserves-pure content_type

  append_row-Reads : Reads (append_row env fails) (λ r. append_row env fails (single r))
  unfolding append_row get_optional
  append_row-Reads d r e mem_file w = rw (e, current_row-single r) refl

  append_row-Preserves :
      (r : Row) (mem_file : Bytes) → Preserves (append_row env fails (single r) mem_file)
  unfolding append_row
  append_row-Preserves r mem_file =
      Preserves-bind (Preserves-ok_or (get_string (codes "part_data") (single r))) λ part_data.
        Preserves-bind (Preserves-or_fail (env.ciphers.base64_decode part_data))
          λ raw_value. Preserves-pure (mem_file ++ raw_value)

  read_blocks-Preserves :
      (rows : List Row) → Preserves (for_data_set (append_row env fails) rows [])
  read_blocks-Preserves rows d =
      subst
        (Ends (λ _ e. Keeps file_ref d.committed e.committed)
          (λ e. Keeps file_ref d.committed e.committed))
        (sym (
          for_data_set-for_rows (append_row env fails) (λ r. append_row env fails (single r))
            append_row-Reads rows [] d))
        (Preserves-for_rows (λ r. append_row env fails (single r)) append_row-Preserves rows [] d)

  -- The parts are those that there were, and the one reference row of the file, which has the id
  -- `file_id`, says that the file is encrypted.
  pub record Marks (file_id : ℕ) (s t : Store) : Type 0 where
    pub unchanged_parts : t.file_parts ≡ s.file_parts
    pub marked :
        (f : ReferenceRow)
        → where_rows (of_reference file_ref) s.file_reference ≡ f ∷ []
        → f.id ≡ file_id
        → (g : ReferenceRow) × ((where_rows (of_reference file_ref) t.file_reference ≡ g ∷ [])
            × ((g.id ≡ file_id) × (g.is_encrypted ≡ true)))

  set_reference-Marks :
      (file_id : ℕ) (size total_part : ℤ) (media_type : Text) (s : Store)
      → Marks file_id s (set_reference file_id size total_part media_type s)
  unfolding set_reference update_rows
  set_reference-Marks file_id size total_part media_type s = record {
    unchanged_parts = refl;
    marked = λ f e at. (set f, (selected f e at, (at, refl)));
  }
    where
      set : ReferenceRow → ReferenceRow
      set r = record r {
        original_file_size = some size;
        total_part = some total_part;
        mime_type = media_type;
        is_encrypted = true;
      }

      selected :
          (f : ReferenceRow)
          → where_rows (of_reference file_ref) s.file_reference ≡ f ∷ []
          → f.id ≡ file_id
          → where_rows
              (of_reference file_ref)
              (update_rows (λ r. r.id == file_id) set s.file_reference)
            ≡ set f ∷ []
      selected f e at =
          let here : (f.id == file_id) ≡ true = ground arith in
          where_rows-update_rows (of_reference file_ref) (λ r. r.id == file_id) set (λ r. refl)
            s.file_reference
          ∙ ap (update_rows (λ r. r.id == file_id) set) e
          ∙ ap (λ b. (if b then set f else f) ∷ []) here

  Keeps-Marks :
      (file_id : ℕ) {s t u : Store} → Keeps file_ref s t → Marks file_id t u → Marks file_id s u
  Keeps-Marks file_id k m = record {
    unchanged_parts = m.unchanged_parts ∙ k.same_parts;
    marked = λ f e at. let (g, (e1, i)) = k.same_reference f e in m.marked g e1 (i ∙ at);
  }

  -- The content of an upload, parsed: nothing becomes of the parts, and the file is marked.
  pub serial_parse_content-Marks :
      (file_id block_count : ℕ) (d : Database Store)
      → Ends
          (λ _ e. Marks file_id d.committed e.committed)
          (λ e. Unit {0})
          (serial_parse_content env fails file_id file_ref block_count d)
  unfolding serial_parse_content update_file_reference
  serial_parse_content-Marks file_id block_count d =
      Ends-bind (forget (search_incoming_blocks-Ends env fails file_id block_count [] file_ref d))
        λ rows d1 h1. Ends-bind (forget (read_blocks-Preserves rows d1)) λ mem_file d2 h2.
          Ends-bind (forget (analyse_entire_content-Preserves mem_file d2)) λ media_type d3 h3.
            Ends-mono
              (transact-Ends fails
                (λ s a t.
                  t
                  ≡ set_reference file_id (pos (length mem_file)) (as_i32 block_count) media_type s)
                (change-Changes fails
                  (set_reference file_id (pos (length mem_file)) (as_i32 block_count) media_type))
                d3)
              (λ a e p.
                Keeps-Marks file_id
                  (Keeps-trans file_ref (Keeps-eq file_ref h1.1) (Keeps-trans file_ref h2 h3))
                  (subst (Marks file_id d3.committed) (sym p) (
                    set_reference-Marks file_id (pos (length mem_file)) (as_i32 block_count)
                      media_type d3.committed)))
              (λ e p. tt)
    where
      forget :
          {A : Type 0} {P : A → Database Store → Type 0} {Q : Database Store → Type 0}
          {r : Outcome Failure A × Database Store}
          → Ends P Q r
          → Ends P (λ e. Unit {0}) r
      forget h = Ends-mono h (λ a e p. p) (λ e q. tt)
