-- ===== src/Files/Store.antt =====
-- The tables of file-server, those of one customer's schema `fs_…` (admin-server/src/schema_fs.rs),
-- and the statements of file_delegate.rs on them. `start_time_gmt` is left out: nothing here reads it.
pub mod Rows
use doka_one.Prelude.{
  ℕ, ◌+◌, Bool, true, false, ◌&&◌, Option, none, some, List, [], ◌∷◌, ◌++◌, Text, codes, text_eq,
  ◌==◌, if◌then◌else◌, map, length,
}
use doka_one.Prelude.Int.{ℤ, pos, i32_rank}
use doka_one.Prelude.Sorting.{sort_asc}
use doka_one.Pg.Cell.{string, bool, int, int_32}
use doka_one.Pg.DataSet.{Row}

pub record UploadRow : Type 0 where
  pub session_id : Text
  pub user_id : ℤ
  pub item_info : Text
  pub file_ref : Text
  pub part_number : ℤ
  pub original_part_size : ℤ
  pub part_data : Text

pub record PartRow : Type 0 where
  pub file_reference_id : ℕ
  pub part_number : ℤ
  pub part_data : Text

pub record MetadataRow : Type 0 where
  pub file_reference_id : ℕ
  pub meta_key : Text
  pub value : Text

pub record ReferenceRow : Type 0 where
  pub id : ℕ
  pub file_ref : Text
  pub mime_type : Text
  pub checksum : Option Text
  pub original_file_size : Option ℤ
  pub encrypted_file_size : Option ℤ
  pub total_part : Option ℤ
  pub is_encrypted : Bool
  pub is_fulltext_parsed : Option Bool

pub record Store : Type 0 where
  pub file_uploads : List UploadRow
  pub file_parts : List PartRow
  pub file_metadata : List MetadataRow
  pub file_reference : List ReferenceRow
  -- The last numbers that the sequences gave.
  pub file_reference_id_seq : ℕ
  pub file_parts_id_seq : ℕ
  pub file_metadata_id_seq : ℕ

-- `WHERE`: the rows that meet a test.
unfoldable pub where_rows : {A : Type 0} → (A → Bool) → List A → List A
where_rows p [] = []
where_rows p (r ∷ rs) = if p r then r ∷ where_rows p rs else where_rows p rs

abbrev pub unless : {A : Type 0} → (A → Bool) → A → Bool
unless p r = if p r then false else true

-- `UPDATE … SET … WHERE`.
unfoldable pub update_rows : {A : Type 0} → (A → Bool) → (A → A) → List A → List A
update_rows p f [] = []
update_rows p f (r ∷ rs) = (if p r then f r else r) ∷ update_rows p f rs

abbrev pub of_upload : Text → UploadRow → Bool
of_upload file_ref r = text_eq r.file_ref file_ref

abbrev pub of_reference : Text → ReferenceRow → Bool
of_reference file_ref r = text_eq r.file_ref file_ref

abbrev pub upload_rank : UploadRow → ℕ
upload_rank r = i32_rank r.part_number

abbrev pub part_rank : PartRow → ℕ
part_rank r = i32_rank r.part_number

-- `INSERT INTO file_uploads`
unfoldable pub insert_upload : UploadRow → Store → Store
insert_upload r s = record s { file_uploads = s.file_uploads ++ r ∷ [] }

-- `INSERT INTO file_parts`
unfoldable pub insert_part : PartRow → Store → Store
insert_part r s = record s {
  file_parts = s.file_parts ++ r ∷ [];
  file_parts_id_seq = s.file_parts_id_seq + 1;
}

-- `SELECT id FROM file_reference WHERE file_ref = …`; there is one row at most (`file_reference_uk`).
abbrev first_id : List ReferenceRow → Option ℕ
first_id [] = none
first_id (r ∷ rs) = some r.id

unfoldable pub reference_id : Text → Store → Option ℕ
unfolding where_rows
reference_id file_ref s = first_id (where_rows (of_reference file_ref) s.file_reference)

-- `INSERT INTO file_metadata`, which `NOT NULL` refuses where there is no such reference.
abbrev pub add_metadata : Text → Text → Store → Option ℕ → Option Store
add_metadata meta_key value s none = none
add_metadata meta_key value s (some id) = some (record s {
  file_metadata =
      s.file_metadata ++ record { file_reference_id = id; meta_key = meta_key; value = value } ∷ [];
  file_metadata_id_seq = s.file_metadata_id_seq + 1;
})

unfoldable pub insert_metadata_row : Text → Text → Text → Store → Option Store
unfolding reference_id
insert_metadata_row file_ref meta_key value s =
    add_metadata meta_key value s (reference_id file_ref s)

-- `SELECT … FROM file_uploads WHERE file_ref = … ORDER BY file_ref, part_number`
unfoldable pub select_uploads : Text → Store → List UploadRow
unfolding where_rows
select_uploads file_ref s = sort_asc upload_rank (where_rows (of_upload file_ref) s.file_uploads)

unfoldable pub upload_cells : UploadRow → Row
upload_cells r =
    (codes "file_ref", string (some r.file_ref))
    ∷ (codes "part_number", int_32 (some r.part_number))
    ∷ (codes "part_data", string (some r.part_data))
    ∷ []

-- `DELETE FROM file_uploads WHERE file_ref = …`
unfoldable pub delete_uploads : Text → Store → Store
unfolding where_rows
delete_uploads file_ref s = record s {
  file_uploads = where_rows (unless (of_upload file_ref)) s.file_uploads;
}

-- `DELETE FROM file_parts` and `DELETE FROM file_metadata WHERE file_reference_id = …`
unfoldable pub delete_parts : ℕ → Store → Store
unfolding where_rows
delete_parts file_id s = record s {
  file_parts = where_rows (unless λ r. r.file_reference_id == file_id) s.file_parts;
}

unfoldable pub delete_metadata : ℕ → Store → Store
unfolding where_rows
delete_metadata file_id s = record s {
  file_metadata = where_rows (unless λ r. r.file_reference_id == file_id) s.file_metadata;
}

-- `SELECT … FROM file_reference fr, file_parts fp WHERE fp.file_reference_id = fr.id AND
-- fr.file_ref = … ORDER BY fr.file_ref, fp.part_number`
unfoldable pub join_parts : List ReferenceRow → List PartRow → List (ReferenceRow × PartRow)
unfolding where_rows
join_parts [] parts = []
join_parts (f ∷ fs) parts =
    map (λ p. (f, p)) (where_rows (λ p. p.file_reference_id == f.id) parts) ++ join_parts fs parts

abbrev pub joined_rank : ReferenceRow × PartRow → ℕ
joined_rank j = part_rank j.1

unfoldable pub select_parts : Text → Store → List (ReferenceRow × PartRow)
unfolding where_rows join_parts
select_parts file_ref s =
    sort_asc joined_rank
      (join_parts (where_rows (of_reference file_ref) s.file_reference) s.file_parts)

unfoldable pub part_cells : ReferenceRow × PartRow → Row
part_cells (f, p) =
    (codes "file_ref", string (some f.file_ref))
    ∷ (codes "mime_type", string (some f.mime_type))
    ∷ (codes "is_encrypted", bool (some f.is_encrypted))
    ∷ (codes "part_number", int_32 (some p.part_number))
    ∷ (codes "part_data_length", int_32 (some (pos (length p.part_data))))
    ∷ (codes "part_data", string (some p.part_data))
    ∷ []

-- `INSERT INTO file_reference (…) VALUES (…)`
unfoldable pub insert_reference : Text → Text → Option ℤ → Store → Store
insert_reference file_ref mime_type total_part s = record s {
  file_reference =
      s.file_reference
      ++ record {
        id = s.file_reference_id_seq + 1;
        file_ref = file_ref;
        mime_type = mime_type;
        checksum = none;
        original_file_size = none;
        encrypted_file_size = none;
        total_part = total_part;
        is_encrypted = false;
        is_fulltext_parsed = none;
      }
        ∷ [];
  file_reference_id_seq = s.file_reference_id_seq + 1;
}

-- `UPDATE file_reference SET original_file_size, total_part, mime_type, is_encrypted = true WHERE id = …`
unfoldable pub set_reference : ℕ → ℤ → ℤ → Text → Store → Store
unfolding update_rows
set_reference file_id original_file_size total_part mime_type s = record s {
  file_reference =
      update_rows (λ r. r.id == file_id)
        (λ r. record r {
          original_file_size = some original_file_size;
          total_part = some total_part;
          mime_type = mime_type;
          is_encrypted = true;
        })
        s.file_reference;
}

-- `UPDATE file_reference SET is_fulltext_parsed = true WHERE file_ref = …`
unfoldable pub set_fulltext_parsed : Text → Store → Store
unfolding update_rows
set_fulltext_parsed file_ref s = record s {
  file_reference =
      update_rows (of_reference file_ref) (λ r. record r { is_fulltext_parsed = some true })
        s.file_reference;
}
