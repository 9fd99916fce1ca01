-- ===== src/Crypto/Modes.antt =====
-- dk_crypto.rs: about how decryption fails in the two modes.
use doka_one.Prelude.{
  ℕ, ◌<◌, ◌≡◌, ◌≢◌, refl, ◌↔◌, ◌⊎◌, true, false, inl, inr, Option, none, some, Text, Bytes,
  as_bytes, length, take, drop, ltb, leb, ◌==◌, Failure, failure, ok, err, panic, arith, Ensures,
  holds, rejected, Ensures-bind, Ensures-if, Ensures-ne-panic, Ensures-self, ◌+◌, Bool-cases,
  leb→le, ltb→lt, length-take,
}
use doka_one.Crypto.{
  Ciphers, aes, cc20, or_fail, key_from_password, decrypt_cc20, get_once_from_bytes,
  get_key_from_password, decrypt_aes128, decrypt_vec, encrypt_vec, encrypt_cc20, check_output_len,
  copy_nonce, slice_to,
}

module _ (c : Ciphers) where
  abbrev Anything : {A : Type 0} → A → Type 0
  Anything a = Unit {0}

  ok-Ensures : {A : Type 0} (a : A) → Ensures ⊥ {E = Failure} Anything (ok a)
  ok-Ensures a = holds tt

  or_fail-Ensures : {A : Type 0} (o : Option A) → Ensures ⊥ Anything (or_fail o)
  or_fail-Ensures none = rejected
  or_fail-Ensures (some a) = holds tt

  key_from_password-Ensures :
      (password : Text) (salt : Bytes) → Ensures ⊥ Anything (key_from_password c password salt)
  unfolding key_from_password
  key_from_password-Ensures password salt =
      Ensures-bind (or_fail-Ensures (c.password_from_slice (as_bytes password))) λ p h1.
        Ensures-bind (or_fail-Ensures (c.salt_from_slice salt)) λ s h2.
          Ensures-bind (or_fail-Ensures (c.derive_key p s 15 1024 32))
            λ k h3. or_fail-Ensures (c.secret_key_from_slice k)

  slice_to-Ensures :
      (n : ℕ) (data_in : Bytes) → n < length data_in → Ensures ⊥ Anything (slice_to c n data_in)
  unfolding slice_to
  slice_to-Ensures n data_in lt =
      let in_range : leb n (length data_in) ≡ true = ground arith in rw in_range (holds tt)

  decrypt_cc20-Ensures :
      (data_in : Bytes) (key : Text) → Ensures ⊥ Anything (decrypt_cc20 c data_in key)
  unfolding decrypt_cc20
  decrypt_cc20-Ensures data_in key =
      Ensures-if (ltb 24 (length data_in))
        (λ h. Ensures-bind (slice_to-Ensures 24 data_in (ltb→lt 24 (length data_in) h)) λ salt h1.
          Ensures-bind (key_from_password-Ensures key salt)
            λ k h2. or_fail-Ensures (c.open_sealed k data_in))
        (λ h. rejected)

  -- With XChaCha20, decryption never panics: whatever the bytes and the password are, it returns
  -- data or an error.
  pub decrypt_vec-cc20-ne-panic :
      (encrypted_data : Bytes) (key : Text) → decrypt_vec c cc20 encrypted_data key ≢ panic
  unfolding decrypt_vec
  decrypt_vec-cc20-ne-panic encrypted_data key =
      Ensures-ne-panic (λ h. h) (decrypt_cc20-Ensures encrypted_data key)

  -- Data without an initialisation vector, a password that is no key, or data that do not decrypt.
  abbrev pub AesFails : Bytes → Text → Type 0
  AesFails encrypted_data key =
      (length encrypted_data < 12)
      ⊎ (length (as_bytes key) ≢ 16)
      ⊎ (c.decrypt_in_place (as_bytes key) (take 12 encrypted_data) (drop 12 encrypted_data) ≡ none)

  decrypt_aes128-cases :
      (encrypted_data : Bytes) (key : Text)
      → (AesFails encrypted_data key × (decrypt_vec c aes encrypted_data key ≡ panic))
        ⊎ (¬ (AesFails encrypted_data key)
            × ((text : Bytes) × (decrypt_vec c aes encrypted_data key ≡ ok text)))
  unfolding decrypt_vec decrypt_aes128 get_once_from_bytes get_key_from_password
  decrypt_aes128-cases encrypted_data key = elim (Bool-cases (leb 12 (length encrypted_data))) [
    | inr short ↦ inl (inl (ground arith), rw short refl)
    | inl long ↦ elim (Bool-cases (length (as_bytes key) == 16)) [
      | inr other ↦ inl (inr (inl λ e. ground arith), rw (long, twelve long, other) refl)
      | inl fits ↦ opened long fits _ refl
    ]
  ]
    where
      iv : Bytes
      iv = take 12 encrypted_data

      twelve : leb 12 (length encrypted_data) ≡ true → (length iv == 12) ≡ true
      twelve long =
          let size : length iv ≡ 12 = length-take 12 encrypted_data (leb→le 12 _ long) in
          ground arith

      opened :
          leb 12 (length encrypted_data) ≡ true
          → (length (as_bytes key) == 16) ≡ true
          → (o : Option Bytes) → c.decrypt_in_place (as_bytes key) iv (drop 12 encrypted_data) ≡ o
          → (AesFails encrypted_data key × (decrypt_vec c aes encrypted_data key ≡ panic))
            ⊎ (¬ (AesFails encrypted_data key)
                × ((text : Bytes) × (decrypt_vec c aes encrypted_data key ≡ ok text)))
      opened long fits none e = inl (inr (inr e), rw (long, twelve long, fits, e) refl)
      opened long fits (some text) e = inr (works, (text, rw (long, twelve long, fits, e) refl))
        where
          works : AesFails encrypted_data key → ⊥
          works (inl short) = ground arith
          works (inr (inl other)) = ground arith
          works (inr (inr fails)) = cc

  -- With AES, decryption never reports an error. It panics exactly where the data are shorter than
  -- the 12 bytes of the initialisation vector, the password is not of 16 bytes, or the cipher does not
  -- decrypt the data.
  pub decrypt_vec-aes-AesFails :
      (encrypted_data : Bytes) (key : Text)
      → (decrypt_vec c aes encrypted_data key ≢ err failure)
        × ((decrypt_vec c aes encrypted_data key ≡ panic) ↔ AesFails encrypted_data key)
  decrypt_vec-aes-AesFails encrypted_data key = elim (decrypt_aes128-cases encrypted_data key) [
    | inl (fails, e) ↦ (λ h. cc, (λ h. fails, λ f. e))
    | inr (works, (text, e)) ↦ (λ h. cc, (λ h. absurd (cc), λ f. absurd (works f)))
  ]

  -- With a nonce of 24 bytes, encryption does not panic either.
  pub encrypt_vec-cc20-Ensures :
      (random clear_data : Bytes) (key : Text)
      → ((n : Bytes) → c.nonce_from_slice random ≡ some n → length n ≡ 24)
      → Ensures ⊥
          (λ out. encrypt_vec c cc20 random clear_data key ≡ ok out)
          (encrypt_vec c cc20 random clear_data key)
  unfolding encrypt_vec encrypt_cc20 check_output_len copy_nonce
  encrypt_vec-cc20-Ensures random clear_data key size = Ensures-self {P = Anything} (
      Ensures-bind (key_from_password-Ensures key random) λ secret h1.
        Ensures-bind (or_fail-Ensures (c.xsecret_key_from_slice secret)) λ k h2.
          Ensures-bind (Ensures-self (or_fail-Ensures (c.nonce_from_slice random))) λ nonce h3.
            Ensures-bind
              (Ensures-if (ltb (length clear_data + (24 + 16)) 18446744073709551616)
                (λ h. ok-Ensures _) (λ h. rejected))
              λ n h4.
                Ensures-bind
                  (Ensures-if (length nonce == 24) (λ h. ok-Ensures nonce)
                    (λ h.
                      absurd (not_24 (size nonce (or_fail-some (c.nonce_from_slice random) h3)) h)))
                  λ output h5.
                    Ensures-bind (or_fail-Ensures (c.seal k nonce clear_data))
                      λ sealed h6. holds tt)
    where
      or_fail-some : {A : Type 0} (o : Option A) {a : A} → or_fail o ≡ ok a → o ≡ some a
      or_fail-some none h = cc
      or_fail-some (some a) h = cc

      not_24 : {n : ℕ} → n ≡ 24 → (n == 24) ≡ false → ⊥
      not_24 e h = ground arith

  -- What decrypts is longer than a nonce.
  pub decrypt_cc20-long :
      (sealed : Bytes) (key : Text) {text : Bytes}
      → decrypt_vec c cc20 sealed key ≡ ok text
      → 24 < length sealed
  unfolding decrypt_vec decrypt_cc20
  decrypt_cc20-long sealed key h = elim (Bool-cases (ltb 24 (length sealed))) [
    | inl long ↦ ltb→lt 24 (length sealed) long
    | inr short ↦ absurd (cc (rw short at h))
  ]
