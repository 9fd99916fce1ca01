-- ===== src/Files/Process.antt =====
-- The second phase of an upload: `process_file_blocks` and what it calls, and the task that runs it
-- (`thread_processing_block`).
pub mod Selected
pub mod Sealed
pub mod Encrypted
pub mod Parsed
pub mod Content
pub mod Rollback
use doka_one.Prelude.{
  ℕ, ◌+◌, ◌-◌, Bool, true, false, ◌&&◌, not, Option, none, some, List, [], ◌∷◌, ◌++◌, map, Text,
  codes, text_eq, Bytes, byte_length, length, ltb, leb, if◌then◌else◌, Failure, failure, Outcome,
  ok, panic, checked_sub,
}
use doka_one.Prelude.Int.{ℤ, pos, as_i32, as_u32}
use doka_one.Prelude.Effects.{Run, pure, fail, lift, ok_or, attempt, ◌>>=◌, ◌>>◌}
use doka_one.Crypto.{Ciphers, cc20, or_fail, encrypt_vec}
use doka_one.Pg.DataSet.{Row, SqlDataSet, get_int_32, get_string, for_data_set}
use doka_one.Pg.Transaction.{Database, transact, execute, change, constrained, insert}
use doka_one.Files.Environment.{Environment, TikaReply}
use doka_one.Files.Store.{
  Store, select_uploads, upload_cells, insert_part, insert_metadata_row, set_reference,
  set_fulltext_parsed, delete_uploads, delete_parts, delete_metadata,
}

abbrev pub Files : Type 0 → Type 0
Files A = Run (Database Store) Failure A

module _ (env : Environment) (fails : ℕ → Bool) where
  unfoldable pub search_incoming_blocks : Text → Files (List Row)
  search_incoming_blocks file_ref =
      transact fails (execute fails (λ s. (map upload_cells (select_uploads file_ref s), s)))

  unfoldable pub write_part : ℕ → ℕ → Text → Files (Unit {0})
  write_part file_id block_number enc_data = do
    _ ← transact fails (
        insert fails
          (insert_part (record {
            file_reference_id = file_id;
            part_number = as_i32 block_number;
            part_data = enc_data;
          }))
          (λ s. s.file_parts_id_seq))
    pure tt

  -- The log line of a block: `block_count - 1` and `&enc_data[..10]` may panic.
  unfoldable pub log_encrypted : ℕ → Text → Outcome Failure ℕ
  log_encrypted block_count enc_data =
      if leb 10 (byte_length enc_data) then checked_sub block_count 1 else panic

  -- The loop's body, at the row of the data set's position.
  unfoldable pub encrypt_row : ℕ → ℕ → Text → SqlDataSet → ℕ → Files ℕ
  unfolding log_encrypted write_part
  encrypt_row file_id block_count customer_key dataset row_index = do
    number ← lift (get_int_32 (codes "part_number") dataset)
    block_number ← ok_or failure number
    part_data ← ok_or failure (get_string (codes "part_data") dataset)
    raw_value ← lift (or_fail (env.ciphers.base64_decode part_data))
    encrypted_block ←
        lift (encrypt_vec env.ciphers cc20 (env.draw row_index) raw_value customer_key)
    let enc_data = env.ciphers.base64_encode encrypted_block
    _ ← lift (log_encrypted block_count enc_data)
    write_part file_id (as_u32 block_number) enc_data
    pure (row_index + 1)

  unfoldable pub serial_encrypt : ℕ → Text → ℕ → Text → Files (Unit {0})
  unfolding search_incoming_blocks encrypt_row
  serial_encrypt file_id file_ref block_count customer_key = do
    dataset ← search_incoming_blocks file_ref
    _ ← for_data_set (encrypt_row file_id block_count customer_key) dataset 0
    pure tt

  unfoldable pub append_row : SqlDataSet → Bytes → Files Bytes
  append_row dataset mem_file = do
    part_data ← ok_or failure (get_string (codes "part_data") dataset)
    raw_value ← lift (or_fail (env.ciphers.base64_decode part_data))
    pure (mem_file ++ raw_value)

  -- `insert_metadata`: short values, and not the text itself.
  unfoldable pub is_kept : Text × Text → Bool
  is_kept (key, value) = not (text_eq key (codes "X-TIKA:content")) && ltb (byte_length value) 200

  unfoldable pub insert_metadata_rows : Text → List (Text × Text) → Files (Unit {0})
  unfolding is_kept
  insert_metadata_rows file_ref [] = pure tt
  insert_metadata_rows file_ref ((key, value) ∷ metadata) =
      let row =
        constrained fails (insert_metadata_row file_ref key value)
        >> execute fails (λ s. (s.file_metadata_id_seq, s))
        >> pure tt in
      (if is_kept (key, value) then row else pure tt) >> insert_metadata_rows file_ref metadata

  unfoldable pub insert_metadata : Text → List (Text × Text) → Files (Unit {0})
  unfolding insert_metadata_rows
  insert_metadata file_ref metadata = transact fails (insert_metadata_rows file_ref metadata)

  unfoldable pub set_file_reference_fulltext_indicator : Text → Files (Unit {0})
  set_file_reference_fulltext_indicator file_ref =
      transact fails (change fails (set_fulltext_parsed file_ref))

  abbrev pub require : Bool → Files (Unit {0})
  require b = if b then pure tt else fail failure

  unfoldable pub analyse_entire_content : Text → Bytes → Files Text
  unfolding insert_metadata set_file_reference_fulltext_indicator
  analyse_entire_content file_ref mem_file = do
    require env.tika_address
    raw_json ← ok_or failure (env.parse_data_json mem_file)
    x_tika_content ← ok_or failure raw_json.x_tika_content
    content_type ← ok_or failure raw_json.content_type
    metadata ← ok_or failure raw_json.metadata
    insert_metadata file_ref metadata
    require env.document_server_address
    require (env.fulltext_indexing x_tika_content file_ref)
    set_file_reference_fulltext_indicator file_ref
    pure content_type

  unfoldable pub update_file_reference : ℕ → ℕ → ℕ → Text → Files (Unit {0})
  update_file_reference file_id total_size total_part media_type =
      transact fails
        (change fails (set_reference file_id (pos total_size) (as_i32 total_part) media_type))

  unfoldable pub serial_parse_content : ℕ → Text → ℕ → Files (Unit {0})
  unfolding search_incoming_blocks append_row analyse_entire_content update_file_reference
  serial_parse_content file_id file_ref block_count = do
    dataset ← search_incoming_blocks file_ref
    mem_file ← for_data_set append_row dataset []
    media_type ← analyse_entire_content file_ref mem_file
    update_file_reference file_id (length mem_file) block_count media_type

  unfoldable pub process_file_blocks : ℕ → Text → ℕ → Text → Files (Unit {0})
  unfolding serial_encrypt serial_parse_content
  process_file_blocks file_id file_ref block_count customer_key =
      serial_encrypt file_id file_ref block_count customer_key
      >> serial_parse_content file_id file_ref block_count

  -- `delete_from_target_table`, for its two tables.
  unfoldable pub delete_from_file_parts : ℕ → Files (Unit {0})
  delete_from_file_parts file_id = transact fails (change fails (delete_parts file_id))

  unfoldable pub delete_from_file_metadata : ℕ → Files (Unit {0})
  delete_from_file_metadata file_id = transact fails (change fails (delete_metadata file_id))

  unfoldable pub delete_from_file_uploads : Text → Files (Unit {0})
  delete_from_file_uploads file_ref = transact fails (change fails (delete_uploads file_ref))

  -- The rollback of a failed processing: every step is tried, whatever the others did. The call to
  -- the document server, whose result is dropped, changes nothing here.
  unfoldable pub roll_back : ℕ → Files (Unit {0})
  unfolding delete_from_file_parts delete_from_file_metadata update_file_reference
  roll_back file_id = do
    _ ← attempt {D = Failure} (delete_from_file_parts file_id)
    _ ← attempt {D = Failure} (delete_from_file_metadata file_id)
    _ ← attempt {D = Failure} (update_file_reference file_id 0 0 (codes "text"))
    pure tt

  abbrev on_status : ℕ → Option (Unit {0}) → Files (Unit {0})
  on_status file_id (some status) = pure tt
  on_status file_id none = roll_back file_id

  -- The task, run to its end.
  unfoldable pub thread_processing_block : ℕ → Text → ℕ → Text → Files (Unit {0})
  unfolding process_file_blocks roll_back delete_from_file_uploads
  thread_processing_block file_id file_ref block_count customer_key = do
    status ← attempt {D = Failure} (process_file_blocks file_id file_ref block_count customer_key)
    on_status file_id status
    _ ← attempt {D = Failure} (delete_from_file_uploads file_ref)
    pure tt
