-- ===== src/Files/Upload.antt =====
-- The first phase of an upload: `read_and_write_incoming_data`, `store_group_block` and
-- `create_file_reference`.
pub mod Progress
pub mod Field
pub mod Stores
pub mod Multiples
use doka_one.Prelude.{
  ℕ, zero, suc, ◌+◌, ◌-◌, ◌/◌, ◌%◌, Bool, true, false, Option, none, some, List, [], ◌∷◌, ◌++◌,
  Text, codes, Bytes, length, take, drop, is_empty, ltb, leb, if◌then◌else◌, not, Failure, failure,
  Outcome, out_of_fuel,
}
use doka_one.Prelude.Int.{ℤ, pos, as_i32, u32_mod}
use doka_one.Prelude.Effects.{Run, pure, fail, lift, ◌>>=◌, ◌>>◌}
use doka_one.Crypto.{Ciphers}
use doka_one.Pg.Transaction.{Database, transact, change, insert}
use doka_one.Files.Parts.{IndexedParts, part_insert}
use doka_one.Files.Environment.{Environment}
use doka_one.Files.Store.{Store, UploadRow, insert_upload, insert_reference}

-- What axum reads from the request: the fields of the form, each in chunks. A read may fail.
pub data Chunks : Type 0 where
  done broken : Chunks
  chunk : Bytes → Chunks → Chunks

pub data Fields : Type 0 where
  no_more broken_form : Fields
  field : Chunks → Fields → Fields

-- `EntrySession`, and the session id of the follower, as far as a row holds them.
pub record Uploader : Type 0 where
  pub session_id : Text
  pub user_id : ℤ

-- The variables of `read_and_write_incoming_data`.
pub record Upload : Type 0 where
  pub block_set : IndexedParts
  pub total_size : ℕ
  pub block_num : ℕ

abbrev pub insert_group_size : ℕ
insert_group_size = 10

-- `BLOCK_SIZE`; the functions take it as a parameter.
abbrev pub one_mebibyte : ℕ
one_mebibyte = 1048576

module _ (env : Environment) (fails : ℕ → Bool) (block_size : ℕ) where
  -- `content_length.map(|l| ((l / BLOCK_SIZE) + 1) as i32)`, where the length is a `u64`.
  unfoldable pub number_of_parts : Option ℕ → Option ℤ
  number_of_parts none = none
  number_of_parts (some l) = some (as_i32 ((l / block_size + 1) % u32_mod))

  -- `file_ref` is the new UUID.
  unfoldable pub create_file_reference : Text → Option ℕ → Run (Database Store) Failure (ℕ × Text)
  unfolding number_of_parts
  create_file_reference file_ref content_length = do
    file_id ← transact fails (
        insert fails (insert_reference file_ref (codes "text") (number_of_parts content_length))
          (λ s. s.file_reference_id_seq))
    pure (file_id, file_ref)

  module _ (who : Uploader) (item_info : Text) (file_ref : Text) where
    unfoldable pub upload_row : ℕ × Bytes → UploadRow
    upload_row (block_num, block) = record {
      session_id = who.session_id;
      user_id = who.user_id;
      item_info = item_info;
      file_ref = file_ref;
      part_number = as_i32 block_num;
      original_part_size = pos (length block);
      part_data = env.ciphers.base64_encode block;
    }

    unfoldable pub insert_blocks : IndexedParts → Run (Database Store) Failure (Unit {0})
    unfolding upload_row
    insert_blocks [] = pure tt
    insert_blocks (b ∷ bs) = change fails (insert_upload (upload_row b)) >> insert_blocks bs

    -- `store_group_block`, without the block range, which is only logged.
    unfoldable pub store_group_block : IndexedParts → Run (Database Store) Failure (Unit {0})
    unfolding insert_blocks
    store_group_block block_set = transact fails (insert_blocks (env.map_order block_set))

    -- A block goes to the set of blocks.
    unfoldable pub push_block : Bytes → Upload → Upload
    push_block block u = record {
      block_set = part_insert u.block_num block u.block_set;
      total_size = u.total_size + length block;
      block_num = (u.block_num + 1) % u32_mod;
    }

    unfoldable pub flush : Upload → Run (Database Store) Failure Upload
    unfolding store_group_block
    flush u = store_group_block u.block_set >> pure (record u { block_set = [] })

    unfoldable pub flush_full : Upload → Run (Database Store) Failure Upload
    unfolding flush
    flush_full u = if leb insert_group_size (length u.block_set) then flush u else pure u

    -- `while buffer.len() >= BLOCK_SIZE`
    unfoldable pub write_full_blocks :
        ℕ → Bytes → Upload → Run (Database Store) Failure (Bytes × Upload)
    unfolding push_block flush_full
    write_full_blocks zero buffer u = lift out_of_fuel
    write_full_blocks (suc f) buffer u =
        let more =
          flush_full (push_block (take block_size buffer) u)
          >>= write_full_blocks f (drop block_size buffer) in
        if leb block_size (length buffer) then more else pure (buffer, u)

    -- The chunks of a field.
    unfoldable pub read_chunks :
        Chunks → Bytes × Upload → Run (Database Store) Failure (Bytes × Upload)
    unfolding write_full_blocks
    read_chunks done s = pure s
    read_chunks broken s = fail failure
    read_chunks (chunk c cs) (buffer, u) =
        write_full_blocks (suc (length (buffer ++ c))) (buffer ++ c) u >>= read_chunks cs

    -- What is left of a field.
    unfoldable pub write_rest : Bytes × Upload → Run (Database Store) Failure Upload
    unfolding push_block flush
    write_rest (buffer, u) = if not (is_empty buffer) then flush (push_block buffer u) else pure u

    unfoldable pub read_fields : Fields → Upload → Run (Database Store) Failure Upload
    unfolding read_chunks write_rest
    read_fields no_more u = pure u
    read_fields broken_form u = fail failure
    read_fields (field cs fs) u = read_chunks cs ([], u) >>= write_rest >>= read_fields fs

    -- The size and the number of blocks.
    unfoldable pub read_and_write_incoming_data : Fields → Run (Database Store) Failure (ℕ × ℕ)
    unfolding read_fields
    read_and_write_incoming_data fields = do
      u ← read_fields fields (record { block_set = []; total_size = 0; block_num = 0 })
      pure (u.total_size, u.block_num)
