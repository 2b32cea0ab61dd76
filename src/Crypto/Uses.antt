-- ===== src/Crypto/Uses.antt =====
-- The nonces that a cipher uses, whatever it seals and opens.
use mathlib.Core.Path.{ap₂}
use roxy.Base.{
  ℕ, zero, suc, ◌%◌, ◌^◌, ◌<◌, ◌≡◌, ◌≢◌, refl, sym, ap, some, ◌∙◌, [], ◌∷◌, arith, length, take,
  drop, ◌-◌, Option, none, Option-cases, Bool, Bool-cases, inl, inr, ltb, List, ◌++◌, length-append,
  take-length, drop-length, true, false,
}
use roxy.Base.Bytes.{Bytes}
use mathlib.Core.Option.{some-injective}
use roxy.Base.Options.{◌>>=◌}
use roxy.Crypto.{Cipher, Primitives, increase, increase_nonce, new, encrypt, decrypt}
use roxy.Crypto.Fresh.{new-IsFresh}
use roxy.Crypto.Kind.{CipherKind}
use roxy.Crypto.Seal.{not_short}
use roxy.Crypto.Nonce.{little_endian, little_endian-take, after, zeros, zeros_count}

-- One use of a cipher, on a buffer: it is sealed or opened.
pub data Use : Type 0 where
  seals opens : Bytes → Use

-- The buffer after it was opened, and whether the tag fitted.
abbrev pub opening : Bytes → Bytes → Option Bytes → Bool × Bytes
opening text tag none = (false, text ++ tag)
opening text tag (some out) = (true, out ++ tag)

module _ (p : Primitives) where
  -- The cipher after one use; `none` is a panic.
  abbrev used_cipher : {A : Type 0} → Option (A × Cipher) → Option Cipher
  used_cipher none = none
  used_cipher (some (out, c)) = some c

  abbrev opened_cipher : Option (Bool × Bytes × Cipher) → Option Cipher
  opened_cipher none = none
  opened_cipher (some (good, out, c)) = some c

  unfoldable pub use_once : Use → Cipher → Option Cipher
  use_once (seals buf) c = used_cipher (encrypt p c buf)
  use_once (opens buf) c = opened_cipher (decrypt p c buf)

  -- The cipher after some uses.
  unfoldable pub use_all : List Use → Cipher → Option Cipher
  unfolding use_once
  use_all [] c = some c
  use_all (u ∷ us) c = use_once u c >>= λ d. use_all us d

  use_once-increases : (u : Use) (c d : Cipher) → use_once u c ≡ some d → d ≡ increase_nonce c
  unfolding use_once encrypt decrypt
  use_once-increases (seals buf) c d h = elim (Bool-cases (ltb (length buf) 16)) [
    | inl short ↦ (let bad = rw short at h in cc)
    | inr long ↦ sym (some-injective _ _ (rw long at h))
  ]
  use_once-increases (opens buf) c d h = elim (Bool-cases (ltb (length buf) 16)) [
    | inl short ↦ (let bad = rw short at h in cc)
    | inr long ↦
        elim (Option-cases (
          p.unseal c.kind c.key (take c.nlen c.nonce) (take (length buf - 16) buf)
            (drop (length buf - 16) buf))) [
              | inl gone ↦ sym (some-injective _ _ (rw (long, gone) at h))
              | inr (out, there) ↦ sym (some-injective _ _ (rw (long, there) at h))
            ]
  ]

  increase_nonce-eq : (x : Cipher) → increase_nonce x ≡ record x { nonce = increase x.nlen x.nonce }
  unfolding increase_nonce
  increase_nonce-eq x = refl

  encrypt-text :
      (d : Cipher) (text end : Bytes)
      → length end ≡ 16
      → encrypt p d (text ++ end)
        ≡ some (
          (p.seal d.kind d.key (take d.nlen d.nonce) text).0
              ++ (p.seal d.kind d.key (take d.nlen d.nonce) text).1,
          increase_nonce d,
        )
  unfolding encrypt
  encrypt-text d text end h =
      let len = length-append text end in
      rw (
        not_short (text ++ end) (omega (arith, len)),
        take-length text end (length (text ++ end) - 16) (omega (arith, len)),
      )

  decrypt-text :
      (d : Cipher) (text end : Bytes)
      → length end ≡ 16
      → decrypt p d (text ++ end)
        ≡ some (
          (opening text end (p.unseal d.kind d.key (take d.nlen d.nonce) text end)).0,
          (opening text end (p.unseal d.kind d.key (take d.nlen d.nonce) text end)).1,
          increase_nonce d,
        )
  unfolding decrypt
  decrypt-text d text end h =
      let len = length-append text end in
      let at : length (text ++ end) - 16 ≡ length text = omega (arith, len) in
      let head = take-length text end (length (text ++ end) - 16) at in
      let back = drop-length text end (length (text ++ end) - 16) at in
      elim (Option-cases (p.unseal d.kind d.key (take d.nlen d.nonce) text end)) [
        | inl gone ↦ rw (not_short (text ++ end) (omega (arith, len)), head, back, gone) refl
        | inr (out, there) ↦
            rw (not_short (text ++ end) (omega (arith, len)), head, back, there) (rw back refl)
      ]

  increases_later :
      (nlen m : ℕ) (nonce : Bytes) → after nlen m (increase nlen nonce) ≡ after nlen (suc m) nonce
  unfolding after
  increases_later nlen zero nonce = refl
  increases_later nlen (suc m) nonce = ap (increase nlen) (increases_later nlen m nonce)

  use_all-after :
      (us : List Use) (c d : Cipher)
      → use_all us c ≡ some d
      → d ≡ record c { nonce = after c.nlen (length us) c.nonce }
  unfolding use_all after
  use_all-after [] c d h = sym (some-injective _ _ h)
  use_all-after (u ∷ us) c d h = elim (Option-cases (use_once u c)) [
    | inl gone ↦ (let bad = rw gone at h in cc)
    | inr (e, there) ↦
        let step : e ≡ record c { nonce = increase c.nlen c.nonce } =
          use_once-increases u c e there ∙ increase_nonce-eq c in
        use_all-after us e d (rw there at h)
        ∙ ap (λ (x : Cipher). record x { nonce = after x.nlen (length us) x.nonce }) step
        ∙ ap (λ b. record c { nonce = b }) (increases_later c.nlen (length us) c.nonce)
  ]

-- The nonce of message number `m`.
unfoldable pub nonce_at : ℕ → Bytes
nonce_at m = take 12 (after 12 m zeros)

nonce_at-counts : (m : ℕ) → little_endian 12 (nonce_at m) ≡ m % 2 ^ 96
unfolding nonce_at
nonce_at-counts m = little_endian-take 12 (after 12 m zeros) ∙ zeros_count m

module _ (p : Primitives) (kind : CipherKind) (key salt : Bytes) where
  -- A new cipher, used any number of times, seals and opens its next message under the nonce of that
  -- number, whatever the messages before it were. This nonce is the number, modulo 2^96, in
  -- little-endian order; so two of the first 2^96 messages never share a nonce.
  pub nonces_distinct :
      {c : Cipher}
      → new p kind key salt ≡ some c
      → ((i j : ℕ) → i < j → j < 2 ^ 96 → nonce_at i ≢ nonce_at j)
        × (((m : ℕ) → little_endian 12 (nonce_at m) ≡ m % 2 ^ 96)
            × ((us : List Use) (d : Cipher) (text end : Bytes)
                → use_all p us c ≡ some d
                → length end ≡ 16
                → ((e : Cipher) × (encrypt p d (text ++ end)
                      ≡ some (
                        (p.seal kind c.key (nonce_at (length us)) text).0
                            ++ (p.seal kind c.key (nonce_at (length us)) text).1,
                        e,
                      )))
                  × ((e : Cipher) × (decrypt p d (text ++ end)
                        ≡ some (
                          (opening text end
                              (p.unseal kind c.key (nonce_at (length us)) text end)).0,
                          (opening text end
                              (p.unseal kind c.key (nonce_at (length us)) text end)).1,
                          e,
                        )))))
  unfolding nonce_at
  nonces_distinct {c} h = (
    λ i j lt small same.
        (let e : i % 2 ^ 96 ≡ j % 2 ^ 96 =
            sym (nonce_at-counts i) ∙ ap (little_endian 12) same ∙ nonce_at-counts j in
          omega (arith, e)),
    (
      nonce_at-counts,
      λ us d text end u room.
          let fresh = new-IsFresh p key salt kind h in
          let after_us = use_all-after p us c d u in
          let nonce : take d.nlen d.nonce ≡ nonce_at (length us) =
            ap (λ (x : Cipher). take x.nlen x.nonce) after_us
            ∙ ap₂ (λ k b. take k (after k (length us) b)) fresh.nlen fresh.nonce in
          let kept : d.kind ≡ kind = ap Cipher.kind after_us ∙ fresh.kind_kept in
          let same_key : d.key ≡ c.key = ap Cipher.key after_us in
          (
            (
              increase_nonce d,
              encrypt-text p d text end room
                  ∙ ap (λ o. some (o, increase_nonce d))
                      (ap
                          (λ k.
                            (p.seal k d.key (take d.nlen d.nonce) text).0
                            ++ (p.seal k d.key (take d.nlen d.nonce) text).1)
                          kept
                        ∙ ap₂ (λ k n. (p.seal kind k n text).0 ++ (p.seal kind k n text).1) same_key
                            nonce),
            ),
            (
              increase_nonce d,
              decrypt-text p d text end room
                  ∙ ap (λ (o : Bool × Bytes). some (o.0, o.1, increase_nonce d))
                      (ap (λ k. opening text end (p.unseal k d.key (take d.nlen d.nonce) text end))
                          kept
                        ∙ ap₂ (λ k n. opening text end (p.unseal kind k n text end)) same_key
                            nonce),
            ),
          ),
    ),
  )
