-- ===== src/Files/Environment.antt =====
-- What file_delegate.rs uses from elsewhere.
use doka_one.Prelude.{ℕ, Bool, Option, List, Text, Bytes}
use doka_one.Crypto.{Ciphers}
use doka_one.Files.Parts.{IndexedParts}

-- The JSON of the Tika server: two texts, and the pairs of the object with their values printed.
pub record TikaReply : Type 0 where
  pub x_tika_content : Option Text
  pub content_type : Option Text
  pub metadata : Option (List (Text × Text))

pub record Environment : Type 0 where
  pub ciphers : Ciphers
  -- The order in which a hash map iterates.
  pub map_order : IndexedParts → IndexedParts
  -- The random bytes of each encryption of an upload.
  pub draw : ℕ → Bytes
  -- Whether the address of the Tika server and that of the document server are configured.
  pub tika_address : Bool
  pub document_server_address : Bool
  -- `TikaServerClientAsync::parse_data_json`; `none` is a failed call.
  pub parse_data_json : Bytes → Option TikaReply
  -- `DocumentServerClientAsync::fulltext_indexing` of a text under a file reference.
  pub fulltext_indexing : Text → Text → Bool
  -- The crates mime and http: a media type that was parsed, printed again, and `HeaderValue::from_str`.
  pub parse_mime : Text → Option Text
  pub header_value : Text → Option Text
