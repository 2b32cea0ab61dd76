-- ===== src/Udp/Socket/Exchange.antt =====
-- A datagram from one socket to another.
use roxy.Base.{ℕ, ◌≡◌, refl, ap, ◌∙◌, some, [], ◌++◌, length, ok}
use roxy.Base.Bytes.{Bytes}
use roxy.Address.{Address, write_to_buf}
use roxy.Address.Wire.{IsValid, on_wire}
use roxy.Crypto.Kind.{CipherKind, CipherCategory, category, key_len, salt_len}
use roxy.Crypto.{Primitives, IsAead}
use roxy.Udp.Packet.{decrypt-encrypt}
use roxy.Udp.Socket.{
  ProxySocket, done, Answer, awaited, of_packet, handed, encrypt_client_payload,
  decrypt_server_payload, send, recv_with_ctrl,
}

aead_kinds :
    (kind : CipherKind) (n : ℕ) → salt_len kind ≡ some n → category kind ≡ CipherCategory.aead
unfolding salt_len key_len category
aead_kinds CipherKind.aes_128_gcm n h = refl
aead_kinds CipherKind.aes_256_gcm n h = refl
aead_kinds CipherKind.aead2022_blake3_aes_128_gcm n h = cc
aead_kinds CipherKind.aead2022_blake3_aes_256_gcm n h = cc
aead_kinds CipherKind.aead2022_blake3_chacha20_poly1305 n h = cc
aead_kinds CipherKind.aead2022_blake3_chacha8_poly1305 n h = cc

module _ (p : Primitives) (a : IsAead p) (s r : ProxySocket) (salt payload : Bytes) where
  -- For two sockets of the same kind and key, which is as long as the salts of the kind, and an
  -- authenticated cipher that opens what it sealed: the first one sends every payload to every
  -- address that can be written without a panic, as one packet, and returns what the operating
  -- system answers to it; and the second one, when it receives this packet, returns the length of
  -- the payload, the address up to the flow information and scope of an IPv6 address, and the length
  -- of the packet, with the payload in front of its buffer.
  pub recv_with_ctrl-send :
      (addr : Address) (out : Bytes)
      → r.kind ≡ s.kind
      → r.key ≡ s.key
      → IsValid addr
      → salt_len s.kind ≡ some (length salt)
      → length s.key ≡ length salt
      → write_to_buf addr [] ≡ some out
      → (packet rest : Bytes) × ((answer : Bytes → Answer ℕ)
          → send p s salt addr payload answer ≡ awaited s.send_timeout (answer packet))
        × (recv_with_ctrl p r (some (ok packet))
            ≡ done ((length payload, on_wire addr, length packet), payload ++ rest))
  unfolding send recv_with_ctrl
  recv_with_ctrl-send addr out same_kind same_key v l k w =
      let (packet, rest, sent, opened) =
        decrypt-encrypt p a s.kind s.key salt payload addr out v l k w in
      let aead = aead_kinds s.kind (length salt) l in
      let sends : encrypt_client_payload p s.kind s.key salt addr payload ≡ some packet =
        rw (encrypt_client_payload, aead) sent in
      let opens : decrypt_server_payload p s.kind s.key packet
          ≡ some (ok (length payload, on_wire addr, payload ++ rest)) =
        rw (decrypt_server_payload, aead) opened in
      (
        packet,
        rest,
        λ answer. ap (handed s.send_timeout answer) sends,
        ap (of_packet (length packet)) (
            ap (λ kind. decrypt_server_payload p kind r.key packet) same_kind
            ∙ ap (λ key. decrypt_server_payload p s.kind key packet) same_key
            ∙ opens),
      )
