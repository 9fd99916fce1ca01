-- ===== src/Files/Process/Selected.antt =====
-- file_delegate.rs: about reading back the blocks of an upload.
use mathlib.Core.List.{Permᴰ}
use mathlib.Core.List.Permᴰ
use doka_one.Prelude.{
  ℕ, ◌+◌, ◌<◌, ◌≡◌, sym, ap, ◌∙◌, subst, Bool, true, List, [], ◌∷◌, ◌++◌, append-nil, map, Text,
  text_eq_self, Bytes, length, All, arith,
}
use doka_one.Prelude.Int.{i32_rank-as_i32}
use doka_one.Prelude.Sorting.{
  sort_asc, sort_asc-Permᴰ, sort_asc-IsAscending, IsAscending, IsAscending-HasDistinctKeys,
  HasDistinctKeys-Permᴰ, All-Permᴰ,
}
use doka_one.Files.Parts.{IndexedParts}
use doka_one.Files.Parts.Numbered.{number}
use doka_one.Files.Environment.{Environment}
use doka_one.Files.Store.{Store, UploadRow, where_rows, of_upload, upload_rank, select_uploads}
use doka_one.Files.Store.Rows.{where_rows-append, where_rows-All}
use doka_one.Files.Upload.{Uploader, Fields, upload_row}
use doka_one.Files.Upload.Progress.{row_of, length-concat-le}
use doka_one.Files.Upload.Field.{LastIsShort, fields_bytes}
use doka_one.Files.Upload.Stores.{Blocks}

module _ (env : Environment) (fails : ℕ → Bool) (block_size : ℕ) (who : Uploader)
    (item_info file_ref : Text) where
  abbrev row : ℕ × Bytes → UploadRow
  row = row_of env fails block_size who item_info file_ref

  rank-row : (n : ℕ) (b : Bytes) → n < 2147483648 → upload_rank (row (n, b)) ≡ 2147483648 + n
  unfolding upload_row
  rank-row n b h = i32_rank-as_i32 n h

  rows-IsAscending :
      (k : ℕ) (bs : List Bytes)
      → k + length bs < 2147483648
      → IsAscending upload_rank (map row (number k bs))
  rows-IsAscending k [] h = tt
  rows-IsAscending k (b ∷ bs) h =
      (above (k + 1) bs (omega arith) (omega arith), rows-IsAscending (k + 1) bs (omega arith))
    where
      above :
          (n : ℕ) (bs : List Bytes)
          → k < n
          → n + length bs < 2147483648
          → All (λ r. upload_rank (row (k, b)) < upload_rank r) (map row (number n bs))
      above n [] lt h = tt
      above n (c ∷ cs) lt h = (
        omega (arith, rank-row k b (omega arith), rank-row n c (omega arith)),
        above (n + 1) cs (omega arith) (omega arith),
      )

  rows-of_upload : (m : IndexedParts) → All (λ r. of_upload file_ref r ≡ true) (map row m)
  unfolding upload_row
  rows-of_upload [] = tt
  rows-of_upload ((n, b) ∷ m) = (text_eq_self file_ref, rows-of_upload m)

  -- The blocks of an upload of less than two gigabytes, under a new file reference, whose last field
  -- is not a whole number of blocks, are read back all, in their order.
  pub select_uploads-Blocks :
      (fields : Fields) (before now : Store) (size count : ℕ)
      → (b : Blocks env fails block_size who item_info file_ref fields before now size count)
      → where_rows (of_upload file_ref) before.file_uploads ≡ []
      → length (fields_bytes fields) < 2147483648
      → LastIsShort block_size fields
      → select_uploads file_ref now ≡ map row (number 0 b.blocks)
  unfolding select_uploads
  select_uploads-Blocks fields before now size count b new small short =
      let m = number 0 b.blocks in
      let all_stored : b.stored ≡ m =
        sym (append-nil b.stored) ∙ ap (λ w. b.stored ++ w) (sym (b.none_waits short)) ∙ b.split in
      let p : Permᴰ b.rows (map row m) =
        subst (λ s. Permᴰ b.rows (map row s)) all_stored b.permuted in
      let bound : 0 + length b.blocks < 2147483648 =
        omega (arith, length-concat-le b.blocks b.nonempty, ap length b.cut) in
      let ascending = rows-IsAscending 0 b.blocks bound in
      let selected : where_rows (of_upload file_ref) now.file_uploads ≡ b.rows =
        ap (λ s. where_rows (of_upload file_ref) s.file_uploads) b.written
        ∙ where_rows-append (of_upload file_ref) before.file_uploads b.rows
        ∙ ap (λ l. l ++ where_rows (of_upload file_ref) b.rows) new
        ∙ where_rows-All (of_upload file_ref) b.rows (
            All-Permᴰ upload_rank (λ r. of_upload file_ref r ≡ true) (Permᴰ.symm p)
              (rows-of_upload m)) in
      ap (sort_asc upload_rank) selected
      ∙ sort_asc-Permᴰ upload_rank p (
          HasDistinctKeys-Permᴰ upload_rank (Permᴰ.symm p)
            (IsAscending-HasDistinctKeys upload_rank (map row m) ascending))
      ∙ sort_asc-IsAscending upload_rank (map row m) ascending
