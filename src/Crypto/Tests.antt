-- ===== src/Crypto/Tests.antt =====
-- The theorems on ciphers at a concrete cipher, over a toy algorithm with the laws of AES-GCM.
use mathlib.Core.List.{map}
use mathlib.Core.Path.{ap₂}
use roxy.Base.{
  List, ◌++◌, ℕ, suc, ◌-◌, ◌%◌, ◌^◌, ◌<◌, ◌≡◌, ◌≢◌, ◌↔◌, refl, ap, some, [], ◌∷◌, length, take,
  replicate, arith,
}
use roxy.Base.Bytes.{Bytes}
use roxy.Crypto.{
  Primitives, IsAead, Cipher, new, nonce_size, increase, increase_nonce, encrypt, decrypt,
}
use roxy.Crypto.Kind.{CipherKind, key_len, from_str, to_string}
use roxy.Crypto.Kind.Names.{from_str-iff-to_string}
use roxy.Crypto.Nonce.{little_endian}
use roxy.Crypto.Uses.{Use, seals, use_all, nonce_at, opening, nonces_distinct}

-- The key is the salt, sealing adds one to each byte, and the tag is constant.
abbrev pub toy : Primitives
toy = record {
  subkey = λ key salt. salt;
  seal = λ kind key nonce text. (map suc text, replicate 16 7);
  unseal = λ kind key nonce text tag. some (map (λ b. b - 1) text);
}

map-length : (f : ℕ → ℕ) (text : Bytes) → length (map f text) ≡ length text
map-length f [] = refl
map-length f (b ∷ text) = ap suc (map-length f text)

map-undo : (text : Bytes) → map (λ b. b - 1) (map suc text) ≡ text
map-undo [] = refl
map-undo (b ∷ text) = ap₂ ◌∷◌ (omega arith) (map-undo text)

pub toy-IsAead : IsAead toy
toy-IsAead = record {
  length_text = λ kind key nonce text. map-length suc text;
  length_tag = λ kind key nonce text. refl;
  unseal_seal = λ kind key nonce text. ap some (map-undo text);
}

abbrev pub key : Bytes
key = replicate 16 1

abbrev pub salt : Bytes
salt = replicate 16 9

abbrev pub cipher : Cipher
cipher = record { kind = CipherKind.aes_128_gcm; key = salt; nlen = 12; nonce = replicate 24 0 }

pub new_cipher : new toy CipherKind.aes_128_gcm key salt ≡ some cipher
unfolding new nonce_size key_len
new_cipher = refl

increase_carries : increase 3 (255 ∷ 255 ∷ 4 ∷ 9 ∷ []) ≡ 0 ∷ 0 ∷ 5 ∷ 9 ∷ []
unfolding increase
increase_carries = refl

increase_wraps : increase 2 (255 ∷ 255 ∷ 9 ∷ []) ≡ 0 ∷ 0 ∷ 9 ∷ []
unfolding increase
increase_wraps = refl

-- The second message of a cipher.
second_message :
    (d : Cipher) × (use_all toy (seals (replicate 20 5) ∷ []) cipher ≡ some d)
    × (take 12 d.nonce ≡ 1 ∷ replicate 11 0)
unfolding use_all increase encrypt increase_nonce
second_message = (_, refl, refl)

nonces_distinct_example :
    ((i j : ℕ) → i < j → j < 2 ^ 96 → nonce_at i ≢ nonce_at j)
    × (((m : ℕ) → little_endian 12 (nonce_at m) ≡ m % 2 ^ 96)
        × ((us : List Use) (d : Cipher) (text end : Bytes)
            → use_all toy us cipher ≡ some d
            → length end ≡ 16
            → ((e : Cipher) × (encrypt toy d (text ++ end)
                  ≡ some (
                    (toy.seal CipherKind.aes_128_gcm cipher.key (nonce_at (length us)) text).0
                        ++ (toy.seal CipherKind.aes_128_gcm cipher.key
                            (nonce_at (length us))
                            text).1,
                    e,
                  )))
              × ((e : Cipher) × (decrypt toy d (text ++ end)
                    ≡ some (
                      (opening text end (
                          toy.unseal CipherKind.aes_128_gcm cipher.key
                            (nonce_at (length us))
                            text
                            end)).0,
                      (opening text end (
                          toy.unseal CipherKind.aes_128_gcm cipher.key
                            (nonce_at (length us))
                            text
                            end)).1,
                      e,
                    )))))
nonces_distinct_example = nonces_distinct toy CipherKind.aes_128_gcm key salt new_cipher

from_str-iff-to_string_example :
    (from_str "aes-256-gcm" ≡ some CipherKind.aes_256_gcm)
    ↔ ("aes-256-gcm" ≡ to_string CipherKind.aes_256_gcm)
from_str-iff-to_string_example = from_str-iff-to_string "aes-256-gcm" CipherKind.aes_256_gcm
