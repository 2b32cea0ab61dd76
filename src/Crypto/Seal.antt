-- ===== src/Crypto/Seal.antt =====
-- What a buffer holds after `encrypt`, and that `decrypt` undoes it.
use roxy.Base.{
  ◌≤◌, ◌+◌, ◌-◌, ◌≡◌, true, false, some, ◌++◌, arith, length, take, length-append, take-length,
  drop-length, ltb,
}
use roxy.Base.Bytes.{Bytes}
use roxy.Crypto.{Cipher, Primitives, IsAead, encrypt, decrypt, increase_nonce}

module _ (p : Primitives) where
  -- The ciphertext and the tag of a text, under the cipher's present nonce.
  abbrev pub text_of : Cipher → Bytes → Bytes
  text_of c text = (p.seal c.kind c.key (take c.nlen c.nonce) text).0

  abbrev pub tag_of : Cipher → Bytes → Bytes
  tag_of c text = (p.seal c.kind c.key (take c.nlen c.nonce) text).1

  unfoldable pub sealed : Cipher → Bytes → Bytes
  sealed c text = text_of c text ++ tag_of c text

pub not_short : (buf : Bytes) → 16 ≤ length buf → ltb (length buf) 16 ≡ false
not_short buf h = ground arith

module _ (p : Primitives) (a : IsAead p) (c : Cipher) (text : Bytes) where
  pub length-sealed : length (sealed p c text) ≡ length text + 16
  unfolding sealed
  length-sealed = omega (
    arith,
    length-append (text_of p c text) (tag_of p c text),
    a.length_text c.kind c.key (take c.nlen c.nonce) text,
    a.length_tag c.kind c.key (take c.nlen c.nonce) text,
  )

  pub encrypt-sealed :
      (room : Bytes)
      → length room ≡ 16
      → encrypt p c (text ++ room) ≡ some (sealed p c text, increase_nonce c)
  unfolding encrypt sealed
  encrypt-sealed room h =
      let len = length-append text room in
      rw (
        not_short (text ++ room) (omega (arith, len)),
        take-length text room (length (text ++ room) - 16) (omega (arith, len)),
      )

  pub decrypt-sealed :
      decrypt p c (sealed p c text) ≡ some (true, text ++ tag_of p c text, increase_nonce c)
  unfolding decrypt sealed
  decrypt-sealed =
      let len = length-append (text_of p c text) (tag_of p c text) in
      let tag_len = a.length_tag c.kind c.key (take c.nlen c.nonce) text in
      let at : length (sealed p c text) - 16 ≡ length (text_of p c text) = omega (arith, len) in
      let head = take-length (text_of p c text) (tag_of p c text) _ at in
      let tail = drop-length (text_of p c text) (tag_of p c text) _ at in
      rw
        (
          not_short (sealed p c text) (omega (arith, len)),
          head,
          tail,
          a.unseal_seal c.kind c.key (take c.nlen c.nonce) text,
        )
        (rw tail)
