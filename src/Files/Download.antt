-- ===== src/Files/Download.antt =====
-- Download: `search_parts`, and `download` around `parallel_decrypt`.
pub mod RoundTrip
use doka_one.Prelude.{
  ℕ, zero, suc, ◌+◌, ◌-◌, Bool, true, false, Option, none, some, List, [], ◌∷◌, ◌++◌, map, Text,
  codes, Bytes, length, ltb, ◌==◌, if◌then◌else◌, Failure, failure, Outcome, ok, err, panic,
  out_of_fuel,
}
use doka_one.Prelude.Int.{u32_mod, as_u32}
use doka_one.Prelude.Effects.{Run, pure, fail, lift, ok_or, ◌>>=◌, ◌>>◌}
use doka_one.Crypto.{Ciphers, cc20, or_fail, decrypt_vec}
use doka_one.Pg.DataSet.{Row, SqlDataSet, get_int_32, get_string, get_bool, for_data_set}
use doka_one.Pg.Transaction.{Database, from_pool, begin, execute}
use doka_one.Files.Parts.{Indexed, IndexedParts, part_get, part_insert, PartsStream, new_stream}
use doka_one.Files.Slides.{parallel_decrypt}
use doka_one.Files.Environment.{Environment}
use doka_one.Files.Store.{Store, select_parts, part_cells}
use doka_one.Files.Process.{Files}

-- `read_part`
unfoldable pub read_part : SqlDataSet → Files (Text × (ℕ × Text))
read_part data_set = do
  media_type ← ok_or failure (get_string (codes "mime_type") data_set)
  is_encrypted ← ok_or failure (get_bool (codes "is_encrypted") data_set)
  number ← lift (get_int_32 (codes "part_number") data_set)
  part_number ← ok_or failure number
  part_data ← ok_or failure (get_string (codes "part_data") data_set)
  if is_encrypted then pure (media_type, (as_u32 part_number, part_data)) else fail failure

-- `Body` and its headers: the content type, the disposition and the stream.
abbrev pub DownloadReply : Type 0
DownloadReply = (Text × Text) × PartsStream

-- The loop's body: the media type of the last row, and the parts.
unfoldable pub collect_part : SqlDataSet → Text × Indexed Text → Files (Text × Indexed Text)
unfolding read_part
collect_part dataset (media_type, parts) = do
  length_read ← lift (get_int_32 (codes "part_data_length") dataset)
  part_info_len ← ok_or failure length_read
  part_info ← read_part dataset
  pure (part_info.0, part_insert part_info.1.0 part_info.1.1 parts)

module _ (env : Environment) (fails : ℕ → Bool) where
  -- The transaction only reads, and is dropped without a commit.
  unfoldable pub search_parts : Text → Files (Text × Indexed Text)
  unfolding collect_part
  search_parts file_ref = do
    from_pool fails
    begin fails
    dataset ← execute fails (λ s. (map part_cells (select_parts file_ref s), s))
    for_data_set collect_part dataset ([], [])

  -- The `unwrap` of the two values.
  abbrev pub with_headers : PartsStream → Option Text → Option Text → Outcome Failure DownloadReply
  with_headers parts_stream none disposition = panic
  with_headers parts_stream (some content_type) none = panic
  with_headers parts_stream (some content_type) (some disposition) =
      ok ((content_type, disposition), parts_stream)

  unfoldable pub download_from_parts : IndexedParts → Text → Outcome Failure DownloadReply
  download_from_parts parts media =
      let parts_stream = new_stream (env.map_order parts) in
      with_headers parts_stream (env.header_value media)
        (env.header_value (codes "inline; filename=\"file_from_parts\""))

  -- `download`, behind the check of the session; the customer's key is given.
  unfoldable pub download : ℕ → Text → Text → Files DownloadReply
  unfolding search_parts download_from_parts
  download cpus file_ref customer_key = do
    found ← search_parts file_ref
    media ← ok_or failure (env.parse_mime found.0)
    clear_parts ← lift (parallel_decrypt env cpus found.1 customer_key)
    lift (download_from_parts clear_parts media)
