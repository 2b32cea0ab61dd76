-- ===== src/Udp/Packet.antt =====
-- A datagram that was encrypted is decrypted to its payload and address.
use roxy.Base.{
  ◌+◌, ◌-◌, ◌≡◌, refl, sym, ap, ◌∙◌, false, some, [], ◌++◌, length, drop, replicate, ltb, ok, arith,
  length-append, take-length, drop-length, append_assoc,
}
use roxy.Base.Bytes.{Bytes}
use roxy.Address.{Address, write_to_buf}
use roxy.Address.Wire.{IsValid, on_wire, read_from-write_to_buf, write_to_buf-append}
use roxy.Crypto.Kind.{CipherKind, salt_len, tag_len}
use roxy.Crypto.{Primitives, IsAead, Cipher, new}
use roxy.Crypto.Fresh.{new-IsFresh, new_known}
use roxy.Crypto.Seal.{sealed, tag_of, length-sealed, encrypt-sealed, decrypt-sealed, not_short}
use roxy.Udp.{parse_packet, move_payload, encrypt_payload_aead, decrypt_data, decrypt_payload_aead}

parse_packet-written :
    (addr : Address) (out payload : Bytes)
    → IsValid addr
    → write_to_buf addr [] ≡ some out
    → parse_packet (out ++ payload) ≡ ok (length out, on_wire addr)
unfolding parse_packet
parse_packet-written addr out payload v w =
    rw (read_from-write_to_buf addr out payload v w, parse_packet)
      (ap (λ n. ok (n, on_wire addr)) (omega (arith, length-append out payload)))

move_payload-eq :
    (salt out payload tag : Bytes) (addr : Address)
    → (rest : Bytes) × (move_payload
          (length salt)
          (length (out ++ payload))
          (salt ++ ((out ++ payload) ++ tag))
          (ok (length out, addr))
        ≡ ok (length payload, addr, payload ++ rest))
unfolding move_payload
move_payload-eq salt out payload tag addr =
    let buf = salt ++ ((out ++ payload) ++ tag) in
    let n : length (out ++ payload) - length out ≡ length payload =
      omega (arith, length-append out payload) in
    let parts : buf ≡ (salt ++ out) ++ (payload ++ tag) =
      ap (λ l. salt ++ l) (append_assoc out payload tag)
      ∙ sym (append_assoc salt out (payload ++ tag)) in
    let tail : drop (length salt + length out) buf ≡ payload ++ tag =
      ap (drop (length salt + length out)) parts
      ∙ drop-length (salt ++ out) (payload ++ tag) (length salt + length out)
          (omega (arith, length-append salt out)) in
    (drop (length payload) buf, rw (n, tail, take-length payload tag (length payload) refl))

long_enough : (salt body : Bytes) → ltb (length (salt ++ body)) (length salt) ≡ false
long_enough salt body = ground (arith, length-append salt body)

module _ (p : Primitives) (a : IsAead p) (kind : CipherKind) (key salt payload : Bytes) where
  encrypt-eq :
      (addr : Address) (out : Bytes) (c : Cipher)
      → new p kind key salt ≡ some c
      → tag_len kind ≡ some 16
      → write_to_buf addr [] ≡ some out
      → encrypt_payload_aead p kind key salt addr payload
        ≡ some (salt ++ sealed p c (out ++ payload))
  unfolding encrypt_payload_aead
  encrypt-eq addr out c n t w =
      let room = replicate 16 0 in
      let parts : ((salt ++ out) ++ payload) ++ room ≡ salt ++ ((out ++ payload) ++ room) =
        ap (λ l. l ++ room) (append_assoc salt out payload)
        ∙ append_assoc salt (out ++ payload) room in
      let cut : drop (length salt) (((salt ++ out) ++ payload) ++ room) ≡ (out ++ payload) ++ room =
        ap (drop (length salt)) parts
        ∙ drop-length salt ((out ++ payload) ++ room) (length salt) refl in
      rw (
        n,
        write_to_buf-append addr salt out w,
        t,
        cut,
        encrypt-sealed p a c (out ++ payload) room refl,
      )

  decrypt_data-eq :
      (addr : Address) (out : Bytes) (c : Cipher)
      → IsValid addr
      → tag_len kind ≡ some 16
      → write_to_buf addr [] ≡ some out
      → (rest : Bytes) × (decrypt_data p kind c salt (sealed p c (out ++ payload))
          ≡ some (ok (length payload, on_wire addr, payload ++ rest)))
  unfolding decrypt_data
  decrypt_data-eq addr out c v t w =
      let text = out ++ payload in
      let len = length-sealed p a c text in
      let (rest, moved) = move_payload-eq salt out payload (tag_of p c text) (on_wire addr) in
      let at : length (sealed p c text) - 16 ≡ length text = omega (arith, len) in
      (
        rest,
        rw
            (
              t,
              not_short (sealed p c text) (omega (arith, len)),
              decrypt-sealed p a c text,
              at,
              take-length text (tag_of p c text) (length text) refl,
              parse_packet-written addr out payload v w,
            )
            (ap some moved),
      )

  -- For a kind whose keys and salts are as long as the given ones, and an address that can be written, a packet
  -- is made without a panic, and it is decrypted to the length of the payload, the address up to
  -- the flow information and scope of an IPv6 address, and a buffer that begins with the payload.
  pub decrypt-encrypt :
      (addr : Address) (out : Bytes)
      → IsValid addr
      → salt_len kind ≡ some (length salt)
      → length key ≡ length salt
      → write_to_buf addr [] ≡ some out
      → (packet rest : Bytes) × (encrypt_payload_aead p kind key salt addr payload ≡ some packet)
        × (decrypt_payload_aead p kind key packet
            ≡ some (ok (length payload, on_wire addr, payload ++ rest)))
  unfolding decrypt_payload_aead
  decrypt-encrypt addr out v s l w =
      let (c, n) = new_known p key salt kind s l in
      let t = (new-IsFresh p key salt kind n).tag in
      let body = sealed p c (out ++ payload) in
      let (rest, opened) = decrypt_data-eq addr out c v t w in
      (
        salt ++ body,
        rest,
        encrypt-eq addr out c n t w,
        rw
            (
              s,
              long_enough salt body,
              take-length salt body (length salt) refl,
              drop-length salt body (length salt) refl,
              n,
            )
            opened,
      )
