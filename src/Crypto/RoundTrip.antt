-- ===== src/Crypto/RoundTrip.antt =====
-- dk_crypto.rs: about reading back what was encrypted.
use doka_one.Prelude.{
  ℕ, ◌+◌, ◌≡◌, ◌<◌, refl, sym, ap, ◌∙◌, subst, true, Option, none, some, ◌++◌, Text, Bytes, length,
  take, drop, length-append, take-length_append, drop-length_append, ltb, leb, ◌==◌, ok, on_ok,
  arith,
}
use doka_one.Crypto.{
  Ciphers, CypherMode, aes, cc20, or_fail, unwrap, key_from_password, check_output_len, copy_nonce,
  slice_to, encrypt_cc20, decrypt_cc20, get_once_from_bytes, get_key_from_password, encrypt_aes128,
  decrypt_aes128, encrypt_vec, decrypt_vec,
}

-- What the crates promise: base64 and both ciphers give back what they were given, a nonce is the
-- bytes that it is made of, and the tag is behind the text.
pub record CipherLaws (c : Ciphers) : Type 0 where
  pub base64_decode-encode : (b : Bytes) → c.base64_decode (c.base64_encode b) ≡ some b
  pub nonce_bytes : (r n : Bytes) → c.nonce_from_slice r ≡ some n → n ≡ r
  pub open-seal :
      (secret key nonce text sealed : Bytes)
      → c.xsecret_key_from_slice secret ≡ some key
      → c.seal key nonce text ≡ some sealed
      → c.open_sealed secret (nonce ++ sealed) ≡ some text
  pub length-seal :
      (key nonce text sealed : Bytes)
      → c.seal key nonce text ≡ some sealed
      → length sealed ≡ length text + 16
  pub decrypt-encrypt_in_place :
      (key nonce text sealed : Bytes)
      → c.encrypt_in_place key nonce text ≡ some sealed
      → c.decrypt_in_place key nonce sealed ≡ some text

or_fail-ok : {A : Type 0} (o : Option A) {a : A} → or_fail o ≡ ok a → o ≡ some a
or_fail-ok none h = cc
or_fail-ok (some a) h = cc

unwrap-ok : {A : Type 0} (o : Option A) {a : A} → unwrap o ≡ ok a → o ≡ some a
unwrap-ok none h = cc
unwrap-ok (some a) h = cc

take_at : (n : ℕ) (s t : Bytes) → length s ≡ n → take n (s ++ t) ≡ s
take_at n s t e = ap (λ k. take k (s ++ t)) (sym e) ∙ take-length_append s t

drop_at : (n : ℕ) (s t : Bytes) → length s ≡ n → drop n (s ++ t) ≡ t
drop_at n s t e = ap (λ k. drop k (s ++ t)) (sym e) ∙ drop-length_append s t

module _ (c : Ciphers) (laws : CipherLaws c) where
  -- A ciphertext of XChaCha20 is the nonce and the sealed text.
  decrypt_cc20-sealed :
      (nonce sealed secret text : Bytes) (password : Text)
      → length nonce ≡ 24
      → 0 < length sealed
      → key_from_password c password nonce ≡ ok secret
      → c.open_sealed secret (nonce ++ sealed) ≡ some text
      → decrypt_cc20 c (nonce ++ sealed) password ≡ ok text
  unfolding decrypt_cc20 slice_to
  decrypt_cc20-sealed nonce sealed secret text password e lt k o =
      let long : ltb 24 (length (nonce ++ sealed)) ≡ true =
        ground (arith, length-append nonce sealed) in
      let in_range : leb 24 (length (nonce ++ sealed)) ≡ true =
        ground (arith, length-append nonce sealed) in
      rw (long, in_range, take_at 24 nonce sealed e, k, o) refl

  decrypt_cc20-encrypt_cc20 :
      (random text out : Bytes) (password : Text)
      → encrypt_cc20 c random text password ≡ ok out
      → decrypt_cc20 c out password ≡ ok text
  unfolding encrypt_cc20 copy_nonce
  decrypt_cc20-encrypt_cc20 random text out password h =
      on_ok (key_from_password c password random) _ h λ secret k h1.
        on_ok (or_fail (c.xsecret_key_from_slice secret)) _ h1 λ key x h2.
          on_ok (or_fail (c.nonce_from_slice random)) _ h2 λ nonce n h3.
            on_ok (check_output_len c text) _ h3 λ size z h4.
              on_ok (copy_nonce c nonce) _ h4 λ output e h5.
                on_ok (or_fail (c.seal key nonce text)) _ h5 λ sealed s h6.
                  let same : nonce ≡ random = laws.nonce_bytes random nonce (or_fail-ok _ n) in
                  let sealing : c.seal key nonce text ≡ some sealed = or_fail-ok _ s in
                  let written : nonce ++ sealed ≡ out = ground arith in
                  subst (λ o. decrypt_cc20 c o password ≡ ok text) written
                    (decrypt_cc20-sealed nonce sealed secret text password (ground arith)
                      (omega (arith, laws.length-seal key nonce text sealed sealing))
                      (ap (key_from_password c password) same ∙ k)
                      (laws.open-seal secret key nonce text sealed (or_fail-ok _ x) sealing))

  decrypt_aes128-sealed :
      (nonce sealed key text : Bytes) (password : Text)
      → length nonce ≡ 12
      → get_key_from_password c password ≡ ok key
      → c.decrypt_in_place key nonce sealed ≡ some text
      → decrypt_vec c aes (nonce ++ sealed) password ≡ ok text
  unfolding decrypt_vec decrypt_aes128 get_once_from_bytes
  decrypt_aes128-sealed nonce sealed key text password e k o =
      let long : leb 12 (length (nonce ++ sealed)) ≡ true =
        ground (arith, length-append nonce sealed) in
      let twelve : (length nonce == 12) ≡ true = ground arith in
      rw (long, take_at 12 nonce sealed e, drop_at 12 nonce sealed e, twelve, k, o) refl

  decrypt_vec-encrypt_aes128 :
      (random text out : Bytes) (password : Text)
      → encrypt_vec c aes random text password ≡ ok out
      → decrypt_vec c aes out password ≡ ok text
  unfolding encrypt_vec encrypt_aes128 get_once_from_bytes
  decrypt_vec-encrypt_aes128 random text out password h =
      on_ok (encrypt_aes128 c text password random) _ h λ encrypted e written.
        on_ok (get_once_from_bytes c random) _ e λ nonce n h1.
          on_ok (get_key_from_password c password) _ h1 λ key k h2.
            let written : random ++ encrypted ≡ out = ground arith in
            subst (λ o. decrypt_vec c aes o password ≡ ok text) written
              (decrypt_aes128-sealed random encrypted key text password (ground arith) k (
                laws.decrypt-encrypt_in_place key random text encrypted (
                  subst (λ m. c.encrypt_in_place key m text ≡ some encrypted) (ground arith)
                    (unwrap-ok _ h2))))

  pub decrypt_vec-encrypt_vec :
      (mode : CypherMode) (random clear_data out : Bytes) (key : Text)
      → encrypt_vec c mode random clear_data key ≡ ok out
      → decrypt_vec c mode out key ≡ ok clear_data
  unfolding encrypt_vec decrypt_vec
  decrypt_vec-encrypt_vec aes random clear_data out key h =
      decrypt_vec-encrypt_aes128 random clear_data out key h
  decrypt_vec-encrypt_vec cc20 random clear_data out key h =
      decrypt_cc20-encrypt_cc20 random clear_data out key h
