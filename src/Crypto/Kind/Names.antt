-- ===== src/Crypto/Kind/Names.antt =====
-- The names of the cipher kinds.
use Prim.Native.String.{String}
use text.Mathlib.TextEquality.{eq_iff}
use roxy.Base.{◌≡◌, ◌↔◌, refl, ap, ◌∙◌, some, arith}
use roxy.Crypto.Kind.{CipherKind, to_string, from_str}

from_str-to_string : (kind : CipherKind) → from_str (to_string kind) ≡ some kind
unfolding from_str to_string
from_str-to_string CipherKind.aes_128_gcm = refl
from_str-to_string CipherKind.aes_256_gcm = refl
from_str-to_string CipherKind.aead2022_blake3_aes_128_gcm = refl
from_str-to_string CipherKind.aead2022_blake3_aes_256_gcm = refl
from_str-to_string CipherKind.aead2022_blake3_chacha20_poly1305 = refl
from_str-to_string CipherKind.aead2022_blake3_chacha8_poly1305 = refl

to_string-from_str : (s : String) (kind : CipherKind) → from_str s ≡ some kind → s ≡ to_string kind
unfolding from_str to_string
to_string-from_str s kind h = ground (
  arith,
  eq_iff s "aes-128-gcm",
  eq_iff s "aes-256-gcm",
  eq_iff s "2022-blake3-aes-128-gcm",
  eq_iff s "2022-blake3-aes-256-gcm",
  eq_iff s "2022-blake3-chacha20-poly1305",
  eq_iff s "2022-blake3-chacha8-poly1305",
)

-- `FromStr` accepts exactly the texts that `Display` prints, each for its own kind.
pub from_str-iff-to_string :
    (s : String) (kind : CipherKind) → (from_str s ≡ some kind) ↔ (s ≡ to_string kind)
from_str-iff-to_string s kind =
    (to_string-from_str s kind, λ e. ap from_str e ∙ from_str-to_string kind)
