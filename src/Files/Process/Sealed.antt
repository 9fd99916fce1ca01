-- ===== src/Files/Process/Sealed.antt =====
-- file_delegate.rs: about the parts that encrypted blocks become.
use doka_one.Prelude.{
  ℕ, ◌+◌, ◌≤◌, ◌<◌, ◌≡◌, refl, sym, ap, ◌∙◌, Bool, some, List, [], ◌∷◌, ◌++◌, append_assoc,
  append-nil, Text, text_eq, Bytes, byte_length, length, length-append, arith,
}
use doka_one.Prelude.Int.{as_i32, as_u32-as_i32, u32_mod}
use doka_one.Prelude.Effects.{lift, pure, ◌>>=◌}
use doka_one.Crypto.{cc20, encrypt_vec}
use doka_one.Crypto.RoundTrip.{CipherLaws}
use doka_one.Pg.Cell.{inner_value_int_32, inner_value_string}
use doka_one.Pg.DataSet.{Row, SqlDataSet, current_row, cell_of, get_unwrapped, get_optional}
use doka_one.Pg.DataSet.Cursor.{Reads}
use doka_one.Pg.Transaction.{Database}
use doka_one.Files.Environment.{Environment}
use doka_one.Files.Store.{Store, PartRow, upload_cells, insert_part}
use doka_one.Files.Upload.{Uploader, upload_row}
use doka_one.Files.Upload.Progress.{row_of}
use doka_one.Files.Slides.Decrypts.{Seals}
use doka_one.Files.Process.{Files, encrypt_row, log_encrypted, write_part}

abbrev pub part_of : ℕ → ℕ → Text → PartRow
part_of file_id k enc = record {
  file_reference_id = file_id;
  part_number = as_i32 k;
  part_data = enc;
}

abbrev pub number_parts : ℕ → ℕ → List Text → List PartRow
number_parts file_id k [] = []
number_parts file_id k (enc ∷ encs) = part_of file_id k enc ∷ number_parts file_id (k + 1) encs

abbrev pub add_parts : List PartRow → Store → Store
add_parts rows s = record s {
  file_parts = s.file_parts ++ rows;
  file_parts_id_seq = s.file_parts_id_seq + length rows;
}

-- The data set of one row, at that row.
abbrev pub single : Row → SqlDataSet
single r = record { position = 1; rows = r ∷ [] }

pub current_row-single : (r : Row) → current_row (single r) ≡ some r
unfolding current_row
current_row-single r = refl

module _ (env : Environment) (fails : ℕ → Bool) (file_id block_count : ℕ) (key : Text) where
  pub encrypt_row-Reads :
      Reads
        (encrypt_row env fails file_id block_count key)
        (λ r. encrypt_row env fails file_id block_count key (single r))
  unfolding encrypt_row get_unwrapped get_optional
  encrypt_row-Reads d r e a w = rw (e, current_row-single r) refl

  -- What is done with the number and the data of a row.
  abbrev pub store_encrypted : ℕ → Text → ℕ → Bytes → Files ℕ
  store_encrypted k part_data row_index encrypted_block =
      lift (log_encrypted env fails block_count (env.ciphers.base64_encode encrypted_block))
      >>= λ _. write_part env fails file_id k (env.ciphers.base64_encode encrypted_block) >>= λ _.
          pure (row_index + 1)

  module _ (block_size : ℕ) (who : Uploader) (item_info file_ref : Text)
      (laws : CipherLaws env.ciphers) where
    pub encrypt_row-row :
        (k : ℕ) (b : Bytes) (w : Database Store)
        → k < u32_mod
        → encrypt_row env fails file_id block_count key
            (single (upload_cells (row_of env fails block_size who item_info file_ref (k, b))))
            k
            w
          ≡ (lift (encrypt_vec env.ciphers cc20 (env.draw k) b key)
                >>= store_encrypted k (env.ciphers.base64_encode b) k)
              w
    unfolding encrypt_row get_unwrapped get_optional upload_cells upload_row cell_of current_row
        inner_value_int_32 inner_value_string text_eq
    encrypt_row-row k b w small = rw (laws.base64_decode-encode b, as_u32-as_i32 k small) refl

-- What the encryption relies on: the nonces that are drawn are 24 bytes, and a base64 text is at
-- least as long as its bytes.
pub record Draws (env : Environment) : Type 0 where
  pub nonce_size :
      (k : ℕ) (n : Bytes) → env.ciphers.nonce_from_slice (env.draw k) ≡ some n → length n ≡ 24
  pub base64_long : (b : Bytes) → length b ≤ byte_length (env.ciphers.base64_encode b)

abbrev pub SealAll : Environment → Text → List Text → List Bytes → Type 0
SealAll env key [] [] = Unit
SealAll env key [] (b ∷ bs) = ⊥
SealAll env key (enc ∷ encs) [] = ⊥
SealAll env key (enc ∷ encs) (b ∷ bs) = Seals env key enc b × SealAll env key encs bs

-- Parts of a file were added since `before`, and nothing else was changed.
abbrev pub AddedParts : Store → ℕ → Database Store → Type 0
AddedParts before file_id d =
    (encs : List Text) × (d.committed ≡ add_parts (number_parts file_id 0 encs) before)

number_parts-append :
    (file_id k : ℕ) (encs more : List Text)
    → number_parts file_id k (encs ++ more)
      ≡ number_parts file_id k encs ++ number_parts file_id (k + length encs) more
number_parts-append file_id k [] more = ap (λ n. number_parts file_id n more) (omega arith)
number_parts-append file_id k (enc ∷ encs) more =
    ap (λ l. part_of file_id k enc ∷ l)
      (number_parts-append file_id (k + 1) encs more
        ∙ ap (λ n. number_parts file_id (k + 1) encs ++ number_parts file_id n more) (omega arith))

pub add_parts-nil : (s : Store) → s ≡ add_parts [] s
add_parts-nil s =
    let rows : s.file_parts ≡ s.file_parts ++ [] = sym (append-nil s.file_parts) in
    let last : s.file_parts_id_seq ≡ s.file_parts_id_seq + 0 = omega arith in
    λ i. record s { file_parts = rows i; file_parts_id_seq = last i }

pub add_parts-snoc :
    (file_id k : ℕ) (encs : List Text) (enc : Text) (before : Store)
    → k ≡ length encs
    → insert_part (part_of file_id k enc) (add_parts (number_parts file_id 0 encs) before)
      ≡ add_parts (number_parts file_id 0 (encs ++ enc ∷ [])) before
unfolding insert_part
add_parts-snoc file_id k encs enc before e =
    let more = number_parts file_id 0 (encs ++ enc ∷ []) in
    let rows : number_parts file_id 0 encs ++ part_of file_id k enc ∷ [] ≡ more =
      ap (λ n. number_parts file_id 0 encs ++ part_of file_id n enc ∷ []) (omega (arith, e))
      ∙ sym (number_parts-append file_id 0 encs (enc ∷ [])) in
    let parts : (before.file_parts ++ number_parts file_id 0 encs) ++ part_of file_id k enc ∷ []
        ≡ before.file_parts ++ more =
      append_assoc before.file_parts (number_parts file_id 0 encs) (part_of file_id k enc ∷ [])
      ∙ ap (λ l. before.file_parts ++ l) rows in
    let last : before.file_parts_id_seq + length (number_parts file_id 0 encs) + 1
        ≡ before.file_parts_id_seq + length more =
      omega (
        arith,
        ap length rows,
        length-append (number_parts file_id 0 encs) (part_of file_id k enc ∷ []),
      ) in
    λ i. record before { file_parts = parts i; file_parts_id_seq = last i }

pub SealAll-snoc :
    (env : Environment) (key : Text) (encs : List Text) (bs : List Bytes) (enc : Text) (b : Bytes)
    → SealAll env key encs bs
    → Seals env key enc b
    → SealAll env key (encs ++ enc ∷ []) (bs ++ b ∷ [])
SealAll-snoc env key [] [] enc b h s = (s, tt)
SealAll-snoc env key [] (c ∷ bs) enc b h s = absurd h
SealAll-snoc env key (x ∷ encs) [] enc b h s = absurd h
SealAll-snoc env key (x ∷ encs) (c ∷ bs) enc b (g, h) s =
    (g, SealAll-snoc env key encs bs enc b h s)

pub length-SealAll :
    (env : Environment) (key : Text) (encs : List Text) (bs : List Bytes)
    → SealAll env key encs bs
    → length encs ≡ length bs
length-SealAll env key [] [] h = refl
length-SealAll env key [] (b ∷ bs) h = absurd h
length-SealAll env key (enc ∷ encs) [] h = absurd h
length-SealAll env key (enc ∷ encs) (b ∷ bs) (g, h) =
    omega (arith, length-SealAll env key encs bs h)
