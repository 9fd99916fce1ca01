-- ===== src/Crypto/Tests.antt =====
-- Encryption and decryption of a text with the ciphers of Crypto/Example.antt.
use doka_one.Prelude.{
  ◌≡◌, ◌≢◌, ◌↔◌, refl, ◌++◌, Text, codes, Bytes, as_bytes, ok, err, panic, failure,
}
use doka_one.Crypto.{aes, cc20, decrypt_vec, encrypt_vec}
use doka_one.Crypto.Modes.{decrypt_vec-cc20-ne-panic, AesFails, decrypt_vec-aes-AesFails}
use doka_one.Crypto.Example.{open_ciphers, zero_nonce, zero_tag}

abbrev sixteen : Text
sixteen = codes "0123456789abcdef"

abbrev sealed_hello : Bytes
sealed_hello = zero_nonce ++ (zero_tag ++ codes "hello")

decrypt_vec-cc20-ne-panic_example :
    decrypt_vec open_ciphers cc20 (codes "short") (codes "key") ≢ panic
decrypt_vec-cc20-ne-panic_example =
    decrypt_vec-cc20-ne-panic open_ciphers (codes "short") (codes "key")

decrypt_vec-aes-AesFails_example :
    (decrypt_vec open_ciphers aes (codes "short") sixteen ≢ err failure)
    × ((decrypt_vec open_ciphers aes (codes "short") sixteen ≡ panic)
        ↔ AesFails open_ciphers (codes "short") sixteen)
decrypt_vec-aes-AesFails_example = decrypt_vec-aes-AesFails open_ciphers (codes "short") sixteen

short_panics : decrypt_vec open_ciphers aes (codes "short") sixteen ≡ panic
unfolding decrypt_vec
short_panics = refl

sealed_hello_aes :
    encrypt_vec open_ciphers aes (codes "initialising") (codes "hello") sixteen
    ≡ ok (codes "initialising" ++ (zero_tag ++ codes "hello"))
unfolding encrypt_vec as_bytes
sealed_hello_aes = refl
