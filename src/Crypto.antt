-- ===== src/Crypto.antt =====
-- dkcrypto: `DkEncrypt` (dk_crypto.rs) over the two modes (dk_aes.rs, dk_chacha.rs), and the tokens
-- of commons-services/src/token_lib.rs.
pub mod RoundTrip
pub mod Modes
mod Tests
pub mod Example
use doka_one.Prelude.{
  ℕ, ◌+◌, ◌-◌, ◌≡◌, Bool, true, false, ◌&&◌, not, Option, none, some, List, [], ◌∷◌, ◌++◌, Text,
  Bytes, as_bytes, from_utf8, is_empty, length, take, drop, ltb, leb, ◌==◌, if◌then◌else◌, Failure,
  failure, Outcome, ok, err, panic, out_of_fuel, ◌>>=◌,
}

-- The crates aes_gcm, orion and base64. `none` is an error.
pub record Ciphers : Type 0 where
  pub base64_encode : Bytes → Text
  pub base64_decode : Text → Option Bytes
  -- orion: a password and a salt, a key derived from them, and its two forms.
  pub password_from_slice : Bytes → Option Bytes
  pub salt_from_slice : Bytes → Option Bytes
  pub derive_key : Bytes → Bytes → ℕ → ℕ → ℕ → Option Bytes
  pub secret_key_from_slice : Bytes → Option Bytes
  pub xsecret_key_from_slice : Bytes → Option Bytes
  pub nonce_from_slice : Bytes → Option Bytes
  -- XChaCha20-Poly1305: `seal` of a text and its tag, `open` of a nonce, a text and its tag.
  pub seal : Bytes → Bytes → Bytes → Option Bytes
  pub open_sealed : Bytes → Bytes → Option Bytes
  -- AES-128-GCM in place, with a key of 16 bytes and a nonce of 12.
  pub encrypt_in_place : Bytes → Bytes → Bytes → Option Bytes
  pub decrypt_in_place : Bytes → Bytes → Bytes → Option Bytes

pub data CypherMode : Type 0 where
  aes cc20 : CypherMode

-- `….with_context(…)?`
abbrev pub or_fail : {A : Type 0} → Option A → Outcome Failure A
or_fail none = err failure
or_fail (some a) = ok a

-- `….unwrap()`
abbrev pub unwrap : {A : Type 0} → Option A → Outcome Failure A
unwrap none = panic
unwrap (some a) = ok a

abbrev xchacha_noncesize : ℕ
xchacha_noncesize = 24

abbrev poly1305_outsize : ℕ
poly1305_outsize = 16

abbrev chacha_keysize : ℕ
chacha_keysize = 32

abbrev usize_mod : ℕ
usize_mod = 18446744073709551616

module _ (c : Ciphers) where
  -- dk_chacha.rs: `get_key_from_password`
  unfoldable pub key_from_password : Text → Bytes → Outcome Failure Bytes
  key_from_password password salt = do
    p ← or_fail (c.password_from_slice (as_bytes password))
    s ← or_fail (c.salt_from_slice salt)
    kdf_key ← or_fail (c.derive_key p s 15 1024 chacha_keysize)
    or_fail (c.secret_key_from_slice kdf_key)

  -- `plaintext.len().checked_add(…)`
  unfoldable pub check_output_len : Bytes → Outcome Failure ℕ
  check_output_len plaintext =
      let n = length plaintext + (xchacha_noncesize + poly1305_outsize) in
      if ltb n usize_mod then ok n else err failure

  -- `output[..24].copy_from_slice(nonce)`, which panics where the lengths differ.
  unfoldable pub copy_nonce : Bytes → Outcome Failure Bytes
  copy_nonce nonce = if length nonce == xchacha_noncesize then ok nonce else panic

  -- `random` is what `nonce()` draws.
  unfoldable pub encrypt_cc20 : Bytes → Bytes → Text → Outcome Failure Bytes
  unfolding key_from_password check_output_len copy_nonce
  encrypt_cc20 random plaintext password = do
    secret ← key_from_password password random
    key ← or_fail (c.xsecret_key_from_slice secret)
    nonce ← or_fail (c.nonce_from_slice random)
    n ← check_output_len plaintext
    output ← copy_nonce nonce
    sealed ← or_fail (c.seal key nonce plaintext)
    ok (output ++ sealed)

  -- `&ciphertext[..n]`
  unfoldable pub slice_to : ℕ → Bytes → Outcome Failure Bytes
  slice_to n ciphertext = if leb n (length ciphertext) then ok (take n ciphertext) else panic

  unfoldable pub decrypt_cc20 : Bytes → Text → Outcome Failure Bytes
  unfolding key_from_password slice_to
  decrypt_cc20 ciphertext password =
      if ltb xchacha_noncesize (length ciphertext)
      then (do
        salt ← slice_to xchacha_noncesize ciphertext
        key ← key_from_password password salt
        or_fail (c.open_sealed key ciphertext))
      else err failure

  -- dk_aes.rs: `get_once_from_bytes`
  unfoldable pub get_once_from_bytes : Bytes → Outcome Failure Bytes
  get_once_from_bytes none_12 = if length none_12 == 12 then ok none_12 else err failure

  -- dk_aes.rs: `get_key_from_password`; `Key::from_slice` panics on another length.
  unfoldable pub get_key_from_password : Text → Outcome Failure Bytes
  get_key_from_password hash128 =
      if length (as_bytes hash128) == 16 then ok (as_bytes hash128) else panic

  unfoldable pub encrypt_aes128 : Bytes → Text → Bytes → Outcome Failure Bytes
  unfolding get_once_from_bytes get_key_from_password
  encrypt_aes128 plaintext password iv = do
    nonce ← get_once_from_bytes iv
    key ← get_key_from_password password
    unwrap (c.encrypt_in_place key nonce plaintext)

  unfoldable pub decrypt_aes128 : Bytes → Text → Bytes → Outcome Failure Bytes
  unfolding get_once_from_bytes get_key_from_password
  decrypt_aes128 ciphertext password iv = do
    nonce ← get_once_from_bytes iv
    key ← get_key_from_password password
    unwrap (c.decrypt_in_place key nonce ciphertext)

  -- `random` is the nonce or the initialisation vector that the call draws.
  unfoldable pub encrypt_vec : CypherMode → Bytes → Bytes → Text → Outcome Failure Bytes
  unfolding encrypt_aes128 encrypt_cc20
  encrypt_vec aes random clear_data key =
      encrypt_aes128 clear_data key random >>= λ encrypted. ok (random ++ encrypted)
  encrypt_vec cc20 random clear_data key = encrypt_cc20 random clear_data key

  unfoldable pub decrypt_vec : CypherMode → Bytes → Text → Outcome Failure Bytes
  unfolding decrypt_aes128 decrypt_cc20
  decrypt_vec aes encrypted_data key =
      if leb 12 (length encrypted_data)
      then decrypt_aes128 (drop 12 encrypted_data) key (take 12 encrypted_data)
      else panic
  decrypt_vec cc20 encrypted_data key = decrypt_cc20 encrypted_data key

  unfoldable pub encrypt_str : CypherMode → Bytes → Text → Text → Outcome Failure Text
  unfolding encrypt_vec
  encrypt_str mode random clear_txt key =
      encrypt_vec mode random (as_bytes clear_txt) key >>= λ e. ok (c.base64_encode e)

  unfoldable pub decrypt_str : CypherMode → Text → Text → Outcome Failure Text
  unfolding decrypt_vec
  decrypt_str mode encrypted_text key = do
    encrypted_data ← or_fail (c.base64_decode encrypted_text)
    decrypted_data ← decrypt_vec mode encrypted_data key
    or_fail (from_utf8 decrypted_data)

  -- token_lib.rs: `is_valid` of a SecurityToken and of a SessionToken. `cek` is the property
  -- `COMMON_EDIBLE_KEY_PROPERTY`.
  abbrev is_ok : {A : Type 0} → Outcome Failure A → Outcome Failure Bool
  is_ok (ok a) = ok true
  is_ok (err e) = ok false
  is_ok panic = panic
  is_ok out_of_fuel = out_of_fuel

  unfoldable pub is_valid : Option Text → Text → Outcome Failure Bool
  unfolding decrypt_str
  is_valid none token = ok false
  is_valid (some cek) token =
      if not (is_empty token) then is_ok (decrypt_str cc20 token cek) else ok false
