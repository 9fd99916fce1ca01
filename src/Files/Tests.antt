-- ===== src/Files/Tests.antt =====
-- A file in blocks of three bytes, uploaded, encrypted and downloaded with the ciphers of
-- Crypto/Example.antt and a database that answers.
use mathlib.Core.List.{Permᴰ}
use mathlib.Core.List.Permᴰ
use doka_one.Prelude.{
  Option, subst, if◌then◌else◌, ℕ, ◌*◌, ◌≤◌, ◌≡◌, ◌≢◌, refl, ◌+◌, ◌/◌, Bool, true, false, none,
  some, List, [], ◌∷◌, ◌++◌, map, Text, codes, Bytes, as_bytes, byte_length, ap, length, All, arith,
  ok, err, failure, ◌==◌, text_eq,
}
use doka_one.Prelude.Int.{pos, i32_rank, as_i32, as_u32}
use doka_one.Prelude.Sorting.{sort_asc}
use doka_one.Prelude.Effects.{Ends, ◌>>=◌, ◌>>◌}
use doka_one.Crypto.Example.{open_ciphers, open_ciphers-CipherLaws, zero_nonce, zero_tag}
use doka_one.Crypto.{decrypt_vec, encrypt_vec}
use doka_one.Pg.DataSet.{for_data_set, get_unwrapped, get_optional, current_row, cell_of}
use doka_one.Pg.DataSet.Cursor.{for_rows, for_data_set-for_rows}
use doka_one.Pg.Transaction.{Database, transact, change, insert, constrained}
use doka_one.Pg.Cell.{inner_value_int_32, inner_value_string, inner_value_bool}
use doka_one.Files.Environment.{Environment}
use doka_one.Files.Parts.{IndexedParts, part_get, part_insert, new_stream}
use doka_one.Files.Parts.Numbered.{number}
use doka_one.Files.Parts.Stream.{at_part, sent, sent-all}
use doka_one.Files.Pool.{compute_pool_size}
use doka_one.Files.Pool.Sizes.{sum, compute_pool_size-sizes}
use doka_one.Files.Store.{
  of_upload, Store, UploadRow, ReferenceRow, part_cells, select_uploads, select_parts, where_rows,
  insert_upload, insert_part, insert_metadata_row, set_fulltext_parsed, set_reference, upload_cells,
}
use doka_one.Files.Upload.{
  upload_row, Uploader, done, chunk, Fields, no_more, field, read_and_write_incoming_data,
}
use doka_one.Files.Upload.Progress.{IteratesAll, row_of, add_uploads}
use doka_one.Files.Upload.Field.{Wrote}
use doka_one.Files.Upload.Stores.{Blocks, read_and_write_incoming_data-Blocks}
use doka_one.Files.Upload.Multiples.{read_and_write_incoming_data-stores_nothing}
use doka_one.Files.Process.{serial_encrypt, process_file_blocks, thread_processing_block}
use doka_one.Files.Process.Rollback.{thread_processing_block-rolls_back}
use doka_one.Files.Process.Selected.{select_uploads-Blocks}
use doka_one.Files.Process.Sealed.{Draws, SealAll, AddedParts, add_parts, number_parts, single}
use doka_one.Files.Process.Encrypted.{serial_encrypt-AllSealed}
use doka_one.Files.Slides.{parallel_decrypt}
use doka_one.Files.Slides.Decrypts.{parallel_decrypt-number}
use doka_one.Files.RoundTrip.{download-read_and_write_incoming_data}
use doka_one.Files.Download.{collect_part, download}
use doka_one.Files.Download.RoundTrip.{
  is_visible, MediaLaws, joined, collect_part-Reads, download-sends,
}

abbrev visible : Text → Option Text
visible s = if is_visible s then some s else none

abbrev here : Environment
here = record {
  ciphers = open_ciphers;
  map_order = λ m. m;
  draw = λ k. zero_nonce;
  tika_address = true;
  document_server_address = true;
  parse_data_json = λ b. some (record {
    x_tika_content = some b;
    content_type = some (codes "text/plain");
    metadata = some ((codes "author", codes "me") ∷ []);
  });
  fulltext_indexing = λ text file_ref. true;
  parse_mime = λ s. visible s;
  header_value = λ s. visible s;
}

visible-some :
    (b : Bool) (s m : Text) → (if b then some s else none) ≡ some m → (b ≡ true) × (s ≡ m)
visible-some true s m e = (refl, cc)
visible-some false s m e = cc

here-MediaLaws : MediaLaws here
here-MediaLaws = record {
  mime_visible = λ s m e.
      let (is, same) = visible-some (is_visible s) s m e in
      subst (λ t. is_visible t ≡ true) same is;
  header_value_visible = λ s is. (s, rw is refl);
}

here-IteratesAll : IteratesAll here
here-IteratesAll m = Permᴰ.refl m

abbrev never : ℕ → Bool
never n = false

abbrev sender : Uploader
sender = record { session_id = codes "sid"; user_id = pos 1 }

abbrev two_blocks : List Bytes
two_blocks = codes "abc" ∷ codes "de" ∷ []

abbrev two_chunks : Fields
two_chunks = field (chunk (codes "ab") (chunk (codes "cde") done)) no_more

abbrev empty_store : Store
empty_store = record {
  file_uploads = [];
  file_parts = [];
  file_metadata = [];
  file_reference = [];
  file_reference_id_seq = 0;
  file_parts_id_seq = 0;
  file_metadata_id_seq = 0;
}

abbrev database_of : Store → Database Store
database_of s = record { committed = s; working = s; calls = 0; lands = never }

read_and_write_incoming_data-Blocks_example :
    Ends
      (λ r e.
        Blocks here never 3 sender
          (codes "item")
          (codes "ref")
          two_chunks
          empty_store
          e.committed
          r.0
          r.1)
      (Wrote empty_store)
      (read_and_write_incoming_data here never 3 sender
        (codes "item")
        (codes "ref")
        two_chunks
        (database_of empty_store))
read_and_write_incoming_data-Blocks_example =
    read_and_write_incoming_data-Blocks here never 3 sender (codes "item") (codes "ref") two_chunks
      (database_of empty_store) here-IteratesAll (omega arith) (omega arith)

read_and_write_incoming_data-stores_nothing_example :
    read_and_write_incoming_data here never 3 sender
      (codes "item")
      (codes "ref")
      (field (chunk (codes "abcdef") done) no_more)
      (database_of empty_store)
    ≡ (ok (2 * 3, 2), database_of empty_store)
read_and_write_incoming_data-stores_nothing_example =
    read_and_write_incoming_data-stores_nothing here never 3 sender (codes "item") (codes "ref") 2
      (codes "abcdef") (database_of empty_store) (omega arith) (omega arith) (omega arith)

abbrev row_here : ℕ × Bytes → UploadRow
row_here = row_of here never 3 sender (codes "item") (codes "ref")

abbrev uploaded : Store
uploaded = add_uploads (map row_here (number 0 two_blocks)) empty_store

five_bytes : (k : ℕ) → 5 ≢ k * 3
five_bytes k e = omega arith

abbrev two_blocks_stored :
    Blocks here never 3 sender (codes "item") (codes "ref") two_chunks empty_store uploaded 5 2
two_blocks_stored = record {
  blocks = two_blocks;
  cut = refl;
  nonempty = (omega arith, (omega arith, tt));
  bounded = (omega arith, (omega arith, tt));
  counted = refl;
  measured = refl;
  stored = number 0 two_blocks;
  waiting = [];
  split = refl;
  rows = map row_here (number 0 two_blocks);
  permuted = Permᴰ.refl _;
  written = refl;
  none_waits = λ short. refl;
}

select_uploads-Blocks_example :
    select_uploads (codes "ref") uploaded ≡ map row_here (number 0 two_blocks)
select_uploads-Blocks_example =
    select_uploads-Blocks here never 3 sender (codes "item") (codes "ref") two_chunks empty_store
      uploaded 5 2 two_blocks_stored (unfold where_rows in refl) (omega arith) five_bytes

here-Draws : Draws here
here-Draws = record {
  nonce_size = λ k n e. ap length (some_inj e);
  base64_long = λ b. length-byte_length b;
}
  where
    some_inj : {n : Bytes} → some zero_nonce ≡ some n → n ≡ zero_nonce
    some_inj e = cc

    length-byte_length : (b : Bytes) → length b ≤ byte_length b
    length-byte_length [] = omega arith
    length-byte_length (c ∷ b) = ground (arith, length-byte_length b)

serial_encrypt-AllSealed_example :
    Ends
      (λ _ e.
        (encs : List Text) × ((e.committed ≡ add_parts (number_parts 1 0 encs) uploaded)
          × SealAll here (codes "key") encs two_blocks))
      (AddedParts uploaded 1)
      (serial_encrypt here never 1 (codes "ref") 2 (codes "key") (database_of uploaded))
serial_encrypt-AllSealed_example =
    serial_encrypt-AllSealed here never 1 2 (codes "key") 3 sender (codes "item") (codes "ref")
      two_blocks (database_of uploaded) open_ciphers-CipherLaws here-Draws
      select_uploads-Blocks_example (omega arith) (omega arith)

abbrev reference : ReferenceRow
reference = record {
  id = 1;
  file_ref = codes "ref";
  mime_type = codes "text/plain";
  checksum = none;
  original_file_size = some (pos 5);
  encrypted_file_size = none;
  total_part = some (pos 2);
  is_encrypted = true;
  is_fulltext_parsed = some true;
}

abbrev two_sealed : List Text
two_sealed = map (λ b. zero_nonce ++ (zero_tag ++ b)) two_blocks

abbrev encrypted : Store
encrypted = record empty_store {
  file_parts = number_parts 1 0 two_sealed;
  file_reference = reference ∷ [];
}

two_sealed-SealAll : SealAll here (codes "key") two_sealed two_blocks
unfolding decrypt_vec
two_sealed-SealAll = ((_, (refl, refl)), ((_, (refl, refl)), tt))

encrypted_selected : select_parts (codes "ref") encrypted ≡ joined reference 0 two_sealed
unfolding select_parts sort_asc text_eq i32_rank as_i32
encrypted_selected = refl

download-sends_example :
    Ends
      (λ r e. (sent 3 r.1 ≡ ok (codes "abcde")) × (e.committed ≡ encrypted))
      (λ e. e.committed ≡ encrypted)
      (download here never 4 (codes "ref") (codes "key") (database_of encrypted))
download-sends_example =
    download-sends here never 4 (codes "ref") (codes "key") reference two_sealed two_blocks
      (database_of encrypted) here-IteratesAll here-MediaLaws refl encrypted_selected
      two_sealed-SealAll (omega arith)

parallel_decrypt-number_example :
    (m : IndexedParts) × ((parallel_decrypt here 4 (number 0 two_sealed) (codes "key") ≡ ok m)
      × Permᴰ m (number 0 two_blocks))
unfolding part_get
parallel_decrypt-number_example =
    parallel_decrypt-number here (codes "key") here-IteratesAll 4 (number 0 two_sealed) two_blocks
      refl (omega arith)
      ((_, (refl, two_sealed-SealAll.0)), ((_, (refl, two_sealed-SealAll.1.0)), tt))

compute_pool_size-sizes_example :
    (sizes : List ℕ) × (compute_pool_size 3 10 ≡ ok sizes)
    × (length sizes ≡ 3)
    × (sum sizes ≡ 10)
    × All (λ n. (10 / 3 ≤ n) × (n ≤ 10 / 3 + 1)) sizes
compute_pool_size-sizes_example = compute_pool_size-sizes 3 10 (omega arith)

sent-all_example : sent 3 (at_part two_blocks 0) ≡ ok (codes "abcde")
sent-all_example = sent-all two_blocks

for_data_set-for_rows_example :
    for_data_set collect_part
      (map part_cells (joined reference 0 two_sealed))
      ([], [])
      (database_of encrypted)
    ≡ for_rows
        (λ r. collect_part (single r))
        (map part_cells (joined reference 0 two_sealed))
        ([], [])
        (database_of encrypted)
for_data_set-for_rows_example =
    for_data_set-for_rows collect_part (λ r. collect_part (single r)) collect_part-Reads
      (map part_cells (joined reference 0 two_sealed)) ([], []) (database_of encrypted)

-- The reference that an upload creates, and nothing else yet.
abbrev new_file : Store
new_file = record empty_store {
  file_reference = record reference { is_encrypted = false; original_file_size = none } ∷ [];
  file_reference_id_seq = 1;
}

download-read_and_write_incoming_data_example :
    Ends
      (λ r e. (polls : ℕ) × (sent polls r.1 ≡ ok (codes "abcde")))
      (λ e. Unit {0})
      ((read_and_write_incoming_data here never 3 sender (codes "item") (codes "ref") two_chunks
          >>= λ read.
              process_file_blocks here never 1 (codes "ref") read.1 (codes "key")
              >> download here never 4 (codes "ref") (codes "key"))
        (database_of new_file))
unfolding where_rows text_eq
download-read_and_write_incoming_data_example =
    download-read_and_write_incoming_data here never (codes "key") (codes "ref")
      (record reference { is_encrypted = false; original_file_size = none }) open_ciphers-CipherLaws
      here-Draws 3 4 sender (codes "item") two_chunks (database_of new_file) here-IteratesAll
      here-MediaLaws (omega arith) five_bytes (omega arith) refl refl refl

-- This upload succeeds, and so do its processing and its download.
new_file_downloaded :
    ((read_and_write_incoming_data here never 3 sender (codes "item") (codes "ref") two_chunks
        >>= λ read.
            process_file_blocks here never 1 (codes "ref") read.1 (codes "key")
            >> download here never 4 (codes "ref") (codes "key"))
      (database_of new_file)).0
    ≡ ok ((codes "text/plain", codes "inline; filename=\"file_from_parts\""), at_part two_blocks 0)
unfolding read_and_write_incoming_data process_file_blocks download part_insert part_get transact
    change insert constrained for_data_set select_uploads select_parts sort_asc insert_upload
    insert_part insert_metadata_row set_fulltext_parsed set_reference text_eq i32_rank as_i32 as_u32
    get_unwrapped get_optional current_row cell_of upload_cells part_cells inner_value_int_32
    inner_value_string inner_value_bool encrypt_vec decrypt_vec as_bytes new_stream parallel_decrypt
    compute_pool_size
new_file_downloaded = refl

-- Without the address of the Tika server, the processing fails when the parts are written.
abbrev without_tika : Environment
without_tika = record here { tika_address = false }

abbrev uploaded_file : Database Store
uploaded_file = database_of (add_uploads (map row_here (number 0 two_blocks)) new_file)

abbrev left_by_processing : Database Store
left_by_processing = record {
  committed = add_parts (number_parts 1 0 two_sealed) uploaded_file.committed;
  working = uploaded_file.committed;
  calls = 0;
  lands = never;
}

processing_fails :
    (d1 : Database Store) × ((process_file_blocks without_tika never 1
          (codes "ref")
          2
          (codes "key")
          uploaded_file
        ≡ (err failure, d1))
      × (d1.committed ≡ left_by_processing.committed))
unfolding process_file_blocks upload_row part_insert part_get transact change insert constrained
    for_data_set select_uploads select_parts sort_asc insert_upload insert_part insert_metadata_row
    set_fulltext_parsed set_reference text_eq i32_rank as_i32 as_u32 get_unwrapped get_optional
    current_row cell_of upload_cells part_cells inner_value_int_32 inner_value_string
    inner_value_bool encrypt_vec decrypt_vec as_bytes new_stream parallel_decrypt compute_pool_size
processing_fails = (_, (refl, refl))

thread_processing_block-rolls_back_example :
    (e : Database Store) × ((thread_processing_block without_tika never 1
          (codes "ref")
          2
          (codes "key")
          uploaded_file
        ≡ (ok tt, e))
      × ((where_rows (λ p. p.file_reference_id == 1) e.committed.file_parts ≡ [])
          × ((where_rows (λ m. m.file_reference_id == 1) e.committed.file_metadata ≡ [])
              × (where_rows (of_upload (codes "ref")) e.committed.file_uploads ≡ []))))
thread_processing_block-rolls_back_example =
    thread_processing_block-rolls_back without_tika never (λ k. refl) 1 2 (codes "ref")
      (codes "key") uploaded_file processing_fails.0 processing_fails.1.0
