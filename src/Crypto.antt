-- ===== src/Crypto.antt =====
-- lib/shadowsocks/src/crypto: the cipher kinds (mod.rs), the stateful cipher (cipher.rs) and the
-- layout of a sealed buffer (aead/aes_gcm.rs). HKDF and AES-GCM are the parameter `Primitives`.
pub mod Kind
pub mod Fresh
pub mod Nonce
pub mod Uses
pub mod Seal
pub mod Tests
use roxy.Base.{
  ℕ, zero, suc, ◌+◌, ◌-◌, ◌/◌, ◌%◌, ◌≤◌, ◌≡◌, Option, none, some, Bool, true, false, List, [], ◌∷◌,
  ◌++◌, length, take, drop, replicate, ltb, ◌==◌, if◌then◌else◌,
}
use roxy.Base.Bytes.{Bytes}
use roxy.Crypto.Kind.{CipherKind, tag_len, key_len}
use roxy.Base.Options.{◌>>=◌}

-- HKDF-SHA1 over (key, salt) with the fixed info, cut to the key's length, and the detached AES-GCM
-- of the crate `aes_gcm` at (kind, subkey, nonce).
pub record Primitives : Type 0 where
  pub subkey : Bytes → Bytes → Bytes
  pub seal : CipherKind → Bytes → Bytes → Bytes → Bytes × Bytes
  pub unseal : CipherKind → Bytes → Bytes → Bytes → Bytes → Option Bytes

-- What AES-GCM gives: the ciphertext is as long as the plaintext, the tag has 16 bytes, and what was
-- sealed is opened again.
pub record IsAead (p : Primitives) : Type 0 where
  pub length_text :
      (k : CipherKind) (key nonce text : Bytes) → length (p.seal k key nonce text).0 ≡ length text
  pub length_tag :
      (k : CipherKind) (key nonce text : Bytes) → length (p.seal k key nonce text).1 ≡ 16
  pub unseal_seal :
      (k : CipherKind) (key nonce text : Bytes)
      → p.unseal k key nonce (p.seal k key nonce text).0 (p.seal k key nonce text).1 ≡ some text

-- `CipherVariant` is the kind and the subkey.
pub record Cipher : Type 0 where
  pub kind : CipherKind
  pub key : Bytes
  pub nlen : ℕ
  pub nonce : Bytes

abbrev pub n_max : ℕ
n_max = 24

-- `CipherVariant::nonce_size`; `none` is `unreachable!()` of `CipherVariant::new`.
unfoldable pub nonce_size : CipherKind → Option ℕ
nonce_size CipherKind.aes_128_gcm = some 12
nonce_size CipherKind.aes_256_gcm = some 12
nonce_size _ = none

-- The loop of `increase_nonce` from the second byte on, with the carry `c` and `n` bytes to go.
unfoldable pub carry : ℕ → ℕ → Bytes → Bytes
carry zero c bs = bs
carry (suc n) c [] = []
carry (suc n) c (b ∷ bs) = (c + b) % 256 ∷ carry n ((c + b) / 256) bs

unfoldable pub increase : ℕ → Bytes → Bytes
unfolding carry
increase nlen [] = []
increase nlen (b ∷ bs) = (b + 1) % 256 ∷ carry (nlen - 1) ((b + 1) / 256) bs

unfoldable pub increase_nonce : Cipher → Cipher
unfolding increase
increase_nonce c = record c { nonce = increase c.nlen c.nonce }

module _ (p : Primitives) where
  -- A key that has not the length of the kind's keys panics in `GenericArray::from_slice`.
  unfoldable pub new : CipherKind → Bytes → Bytes → Option Cipher
  new kind key salt = do
    nlen ← nonce_size kind
    n ← key_len kind
    if length key == n
        then some (record {
          kind = kind;
          key = p.subkey key salt;
          nlen = nlen;
          nonce = replicate n_max 0;
        })
        else none

  -- `Aes128Gcm::encrypt` over a buffer: the text stands in front of room for the tag. A buffer that
  -- is shorter than a tag panics.
  unfoldable pub encrypt : Cipher → Bytes → Option (Bytes × Cipher)
  encrypt c buf =
      if ltb (length buf) 16
      then none
      else let text = take (length buf - 16) buf in
        let (out, tag) = p.seal c.kind c.key (take c.nlen c.nonce) text in
        some (out ++ tag, increase_nonce c)

  -- `Aes128Gcm::decrypt`: whether the tag fits, and the buffer with the text in front. The tag, and
  -- a buffer whose tag does not fit, stay as they are.
  unfoldable pub decrypt : Cipher → Bytes → Option (Bool × Bytes × Cipher)
  decrypt c buf =
      if ltb (length buf) 16
      then none
      else let text = take (length buf - 16) buf in
        let tag = drop (length buf - 16) buf in
        some (elim (p.unseal c.kind c.key (take c.nlen c.nonce) text tag) [
          | none ↦ (false, buf, increase_nonce c)
          | some out ↦ (true, out ++ tag, increase_nonce c)
        ])
