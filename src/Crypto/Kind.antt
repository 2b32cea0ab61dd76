-- ===== src/Crypto/Kind.antt =====
-- lib/shadowsocks/src/crypto/mod.rs: the cipher kinds, their lengths and their names.
pub mod Names
use Prim.Native.String.{String}
use text.Mathlib.Text.{◌==◌ as str_eq}
use roxy.Base.{ℕ, ◌/◌, Bool, true, false, Option, none, some, if◌then◌else◌}

pub data CipherKind : Type 0 where
  aes_128_gcm aes_256_gcm : CipherKind
  aead2022_blake3_aes_128_gcm aead2022_blake3_aes_256_gcm : CipherKind
  aead2022_blake3_chacha20_poly1305 aead2022_blake3_chacha8_poly1305 : CipherKind

pub data CipherCategory : Type 0 where
  aead aead2022 : CipherCategory

unfoldable pub is_aead : CipherKind → Bool
is_aead CipherKind.aes_128_gcm = true
is_aead CipherKind.aes_256_gcm = true
is_aead _ = false

unfoldable pub is_aead2022 : CipherKind → Bool
is_aead2022 CipherKind.aead2022_blake3_aes_128_gcm = true
is_aead2022 CipherKind.aead2022_blake3_aes_256_gcm = true
is_aead2022 CipherKind.aead2022_blake3_chacha20_poly1305 = true
is_aead2022 CipherKind.aead2022_blake3_chacha8_poly1305 = true
is_aead2022 _ = false

unfoldable pub category : CipherKind → CipherCategory
category CipherKind.aes_128_gcm = CipherCategory.aead
category CipherKind.aes_256_gcm = CipherCategory.aead
category CipherKind.aead2022_blake3_aes_128_gcm = CipherCategory.aead2022
category CipherKind.aead2022_blake3_aes_256_gcm = CipherCategory.aead2022
category CipherKind.aead2022_blake3_chacha20_poly1305 = CipherCategory.aead2022
category CipherKind.aead2022_blake3_chacha8_poly1305 = CipherCategory.aead2022

-- `none` is the panic of `todo!()`.
unfoldable pub key_len : CipherKind → Option ℕ
key_len CipherKind.aes_128_gcm = some (128 / 8)
key_len CipherKind.aes_256_gcm = some (256 / 8)
key_len _ = none

unfoldable pub tag_len : CipherKind → Option ℕ
tag_len CipherKind.aes_128_gcm = some 16
tag_len CipherKind.aes_256_gcm = some 16
tag_len _ = none

unfoldable pub salt_len : CipherKind → Option ℕ
unfolding key_len
salt_len kind = key_len kind

-- Every branch of `nonce_len` panics.
unfoldable pub nonce_len : CipherKind → Option ℕ
nonce_len kind = none

-- `Display`
unfoldable pub to_string : CipherKind → String
to_string CipherKind.aes_128_gcm = "aes-128-gcm"
to_string CipherKind.aes_256_gcm = "aes-256-gcm"
to_string CipherKind.aead2022_blake3_aes_128_gcm = "2022-blake3-aes-128-gcm"
to_string CipherKind.aead2022_blake3_aes_256_gcm = "2022-blake3-aes-256-gcm"
to_string CipherKind.aead2022_blake3_chacha20_poly1305 = "2022-blake3-chacha20-poly1305"
to_string CipherKind.aead2022_blake3_chacha8_poly1305 = "2022-blake3-chacha8-poly1305"

-- `FromStr`; its error holds nothing.
unfoldable pub from_str : String → Option CipherKind
from_str s =
    if str_eq s "aes-128-gcm"
    then some CipherKind.aes_128_gcm
    else if str_eq s "aes-256-gcm"
    then some CipherKind.aes_256_gcm
    else if str_eq s "2022-blake3-aes-128-gcm"
    then some CipherKind.aead2022_blake3_aes_128_gcm
    else if str_eq s "2022-blake3-aes-256-gcm"
    then some CipherKind.aead2022_blake3_aes_256_gcm
    else if str_eq s "2022-blake3-chacha20-poly1305"
    then some CipherKind.aead2022_blake3_chacha20_poly1305
    else if str_eq s "2022-blake3-chacha8-poly1305"
    then some CipherKind.aead2022_blake3_chacha8_poly1305
    else none
