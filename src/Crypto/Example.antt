-- ===== src/Crypto/Example.antt =====
-- Ciphers that keep the promises of dk_crypto.rs's crates and hide nothing, for the tests: base64 is
-- the bytes themselves, a tag is sixteen zeros in front of the text.
use doka_one.Prelude.{
  ◌≡◌, refl, sym, ap, ◌∙◌, subst, Option, none, some, [], ◌∷◌, ◌++◌, append_assoc, Bytes, length,
  length-append, drop, drop-length_append, ◌==◌, if◌then◌else◌, Bool-cases, inl, inr, arith,
}
use doka_one.Crypto.{Ciphers}
use doka_one.Crypto.RoundTrip.{CipherLaws}

abbrev pub zero_tag : Bytes
zero_tag = 0 ∷ 0 ∷ 0 ∷ 0 ∷ 0 ∷ 0 ∷ 0 ∷ 0 ∷ 0 ∷ 0 ∷ 0 ∷ 0 ∷ 0 ∷ 0 ∷ 0 ∷ 0 ∷ []

abbrev pub zero_nonce : Bytes
zero_nonce = 0 ∷ 0 ∷ 0 ∷ 0 ∷ 0 ∷ 0 ∷ 0 ∷ 0 ∷ zero_tag

abbrev seal_zero : Bytes → Bytes → Option Bytes
seal_zero nonce text = if length nonce == 24 then some (zero_tag ++ text) else none

abbrev pub open_ciphers : Ciphers
open_ciphers = record {
  base64_encode = λ b. b;
  base64_decode = λ s. some s;
  password_from_slice = λ p. some p;
  salt_from_slice = λ s. some s;
  derive_key = λ p s iterations memory size. some p;
  secret_key_from_slice = λ k. some k;
  xsecret_key_from_slice = λ k. some k;
  nonce_from_slice = λ n. some n;
  seal = λ key nonce text. seal_zero nonce text;
  open_sealed = λ key sealed. some (drop 40 sealed);
  encrypt_in_place = λ key nonce text. some (zero_tag ++ text);
  decrypt_in_place = λ key nonce sealed. some (drop 16 sealed);
}

seal_zero-some :
    (nonce text sealed : Bytes)
    → seal_zero nonce text ≡ some sealed
    → (length nonce ≡ 24) × (zero_tag ++ text ≡ sealed)
seal_zero-some nonce text sealed h = elim (Bool-cases (length nonce == 24)) [
  | inl fits ↦ (ground arith, cc (rw fits at h))
  | inr differs ↦ absurd (cc (rw differs at h))
]

drop_40 : (nonce text : Bytes) → length nonce ≡ 24 → drop 40 (nonce ++ (zero_tag ++ text)) ≡ text
drop_40 nonce text e =
    let size : 40 ≡ length (nonce ++ zero_tag) = omega (arith, e, length-append nonce zero_tag) in
    ap (drop 40) (sym (append_assoc nonce zero_tag text))
    ∙ ap (λ k. drop k ((nonce ++ zero_tag) ++ text)) size
    ∙ drop-length_append (nonce ++ zero_tag) text

pub open_ciphers-CipherLaws : CipherLaws open_ciphers
open_ciphers-CipherLaws = record {
  base64_decode-encode = λ b. refl;
  nonce_bytes = λ r n e. cc;
  open-seal = λ secret key nonce text sealed k s.
      let (size, e) = seal_zero-some nonce text sealed s in
      subst (λ z. some (drop 40 (nonce ++ z)) ≡ some text) e (ap some (drop_40 nonce text size));
  length-seal = λ key nonce text sealed s.
      let (size, e) = seal_zero-some nonce text sealed s in
      sym (ap length e) ∙ omega (arith, length-append zero_tag text);
  decrypt-encrypt_in_place =
      λ key nonce text sealed s. subst (λ z. z ≡ some text) (ap (λ o. decrypted o) s) refl;
}
  where
    decrypted : Option Bytes → Option Bytes
    decrypted none = none
    decrypted (some sealed) = some (drop 16 sealed)
