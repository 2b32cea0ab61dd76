-- ===== src/Crypto/Fresh.antt =====
-- What a cipher holds that was just made.
use mathlib.Core.Option.{some-injective}
use roxy.Base.{ℕ, ◌≡◌, refl, sym, ap, true, some, length, replicate, ◌==◌, arith}
use roxy.Base.Options.{some-of_if}
use roxy.Base.Bytes.{Bytes}
use roxy.Crypto.Kind.{CipherKind, key_len, salt_len, tag_len}
use roxy.Crypto.{Cipher, Primitives, n_max, new, nonce_size}

pub record IsFresh (kind : CipherKind) (c : Cipher) : Type 0 where
  pub kind_kept : c.kind ≡ kind
  pub nlen : c.nlen ≡ 12
  pub nonce : c.nonce ≡ replicate n_max 0
  pub tag : tag_len kind ≡ some 16

module _ (p : Primitives) (key salt : Bytes) where
  pub new-IsFresh : (kind : CipherKind) {c : Cipher} → new p kind key salt ≡ some c → IsFresh kind c
  unfolding new nonce_size key_len tag_len
  new-IsFresh CipherKind.aes_128_gcm h =
      let e = some-of_if (length key == 16) h in
      record {
        kind_kept = sym (ap Cipher.kind e);
        nlen = sym (ap Cipher.nlen e);
        nonce = sym (ap Cipher.nonce e);
        tag = refl;
      }
  new-IsFresh CipherKind.aes_256_gcm h =
      let e = some-of_if (length key == 32) h in
      record {
        kind_kept = sym (ap Cipher.kind e);
        nlen = sym (ap Cipher.nlen e);
        nonce = sym (ap Cipher.nonce e);
        tag = refl;
      }
  new-IsFresh _ h = cc

  abbrev made : CipherKind → Cipher
  made kind = record { kind = kind; key = p.subkey key salt; nlen = 12; nonce = replicate n_max 0 }

  -- A cipher is made of a key as long as the kind's keys.
  pub new_known :
      (kind : CipherKind) {n : ℕ}
      → salt_len kind ≡ some n
      → length key ≡ n
      → (c : Cipher) × (new p kind key salt ≡ some c)
  unfolding salt_len key_len new nonce_size
  new_known CipherKind.aes_128_gcm h l =
      let e : (length key == 16) ≡ true = ground (arith, some-injective _ _ h) in
      (made CipherKind.aes_128_gcm, rw e refl)
  new_known CipherKind.aes_256_gcm h l =
      let e : (length key == 32) ≡ true = ground (arith, some-injective _ _ h) in
      (made CipherKind.aes_256_gcm, rw e refl)
  new_known _ h l = cc
