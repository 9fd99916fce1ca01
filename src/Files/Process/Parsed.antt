-- ===== src/Files/Process/Parsed.antt =====
-- file_delegate.rs: about what parsing the content of an upload leaves as it was.
use doka_one.Prelude.{
  ℕ, ◌≡◌, refl, sym, ap, ◌∙◌, Bool, true, false, Option, none, some, List, [], ◌∷◌, Text,
  if◌then◌else◌,
}
use doka_one.Files.Store.{
  Store, ReferenceRow, where_rows, update_rows, of_reference, reference_id, insert_metadata_row,
  add_metadata, set_fulltext_parsed,
}
use doka_one.Files.Store.Rows.{where_rows-update_rows}

-- The one reference row under a file reference, if there is one, keeps its id, and the parts are
-- those that there were.
pub record Keeps (file_ref : Text) (s t : Store) : Type 0 where
  pub same_parts : t.file_parts ≡ s.file_parts
  pub same_reference :
      (f : ReferenceRow)
      → where_rows (of_reference file_ref) s.file_reference ≡ f ∷ []
      → (g : ReferenceRow) × ((where_rows (of_reference file_ref) t.file_reference ≡ g ∷ [])
          × (g.id ≡ f.id))

module _ (file_ref : Text) where
  pub Keeps-refl : (s : Store) → Keeps file_ref s s
  Keeps-refl s = record { same_parts = refl; same_reference = λ f e. (f, (e, refl)) }

  Keeps-same :
      {s t : Store}
      → t.file_parts ≡ s.file_parts
      → t.file_reference ≡ s.file_reference
      → Keeps file_ref s t
  Keeps-same p r = record {
    same_parts = p;
    same_reference = λ f e. (f, (ap (where_rows (of_reference file_ref)) r ∙ e, refl));
  }

  pub Keeps-trans : {s t u : Store} → Keeps file_ref s t → Keeps file_ref t u → Keeps file_ref s u
  Keeps-trans h k = record {
    same_parts = k.same_parts ∙ h.same_parts;
    same_reference = λ f e.
        let (g, (e1, i)) = h.same_reference f e in
        let (w, (e2, j)) = k.same_reference g e1 in (w, (e2, j ∙ i));
  }

  pub Keeps-eq : {s t : Store} → t ≡ s → Keeps file_ref s t
  Keeps-eq e = Keeps-same (ap (λ s. s.file_parts) e) (ap (λ s. s.file_reference) e)

  pub insert_metadata_row-Keeps :
      (key value : Text) (s t : Store)
      → insert_metadata_row file_ref key value s ≡ some t
      → Keeps file_ref s t
  unfolding insert_metadata_row
  insert_metadata_row-Keeps key value s t h = go (reference_id file_ref s) h
    where
      kept : Option Store → Store
      kept none = s
      kept (some u) = u

      go : (o : Option ℕ) → add_metadata key value s o ≡ some t → Keeps file_ref s t
      go none h = absurd (cc h)
      go (some id) h =
          Keeps-same (sym (ap (λ o. (kept o).file_parts) h))
            (sym (ap (λ o. (kept o).file_reference) h))

  pub set_fulltext_parsed-Keeps : (s : Store) → Keeps file_ref s (set_fulltext_parsed file_ref s)
  unfolding set_fulltext_parsed update_rows
  set_fulltext_parsed-Keeps s = record {
    same_parts = refl;
    same_reference = λ f e. updated f _ (
        where_rows-update_rows (of_reference file_ref) (of_reference file_ref)
          (λ r. record r { is_fulltext_parsed = some true }) (λ r. refl) s.file_reference
        ∙ ap
            (update_rows (of_reference file_ref) (λ r. record r { is_fulltext_parsed = some true }))
            e);
  }
    where
      updated :
          (f : ReferenceRow) (rows : List ReferenceRow)
          → rows
            ≡ update_rows
                (of_reference file_ref)
                (λ r. record r { is_fulltext_parsed = some true })
                (f ∷ [])
          → (g : ReferenceRow) × ((rows ≡ g ∷ []) × (g.id ≡ f.id))
      updated f rows e = go (of_reference file_ref f) e
        where
          go :
              (b : Bool)
              → rows ≡ (if b then record f { is_fulltext_parsed = some true } else f) ∷ []
              → (g : ReferenceRow) × ((rows ≡ g ∷ []) × (g.id ≡ f.id))
          go true e = (record f { is_fulltext_parsed = some true }, (e, refl))
          go false e = (f, (e, refl))
