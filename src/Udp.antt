-- ===== src/Udp.antt =====
-- lib/shadowsocks/src/udp/aead.rs: one datagram is a salt, and behind it the sealed address and
-- payload. A result of `none` is a panic; the salt that `generate_nonce` draws is an argument.
pub mod Packet
pub mod Socket
mod Tests
use roxy.Base.{
  ℕ, ◌+◌, ◌-◌, Bool, Option, none, some, List, [], ◌∷◌, ◌++◌, length, take, drop, replicate, ltb,
  if◌then◌else◌, Result, ok, err,
}
use roxy.Base.Options.{◌>>=◌}
use roxy.Base.Bytes.{Bytes}
use roxy.Socks5
use roxy.Address.{Address, write_to_buf, read_from}
use roxy.Crypto.Kind.{CipherKind, salt_len, tag_len}
use roxy.Crypto.{Primitives, Cipher, new, encrypt, decrypt}

pub data ProtocolError : Type 0 where
  packet_too_short_for_salt packet_too_short_for_tag : ℕ → ℕ → ProtocolError
  invalid_address : Socks5.Error → ProtocolError
  decrypt_payload_error : ProtocolError

-- The position of the cursor is what `read_from` took, and the address.
unfoldable pub parse_packet : Bytes → Result ProtocolError (ℕ × Address)
parse_packet buf = elim (read_from buf) [
  | ok (address, rest) ↦ ok (length buf - length rest, address)
  | err e ↦ err (invalid_address e)
]

-- The end of `decrypt_payload_aead`: `buf` is the whole packet, opened in place, and its text stands
-- at `salt_len .. salt_len + data_len`. The result has the buffer with the payload moved to the front.
unfoldable pub move_payload :
    ℕ → ℕ → Bytes → Result ProtocolError (ℕ × Address) → Result ProtocolError (ℕ × Address × Bytes)
move_payload salt_len data_len buf (err e) = err e
move_payload salt_len data_len buf (ok (dn, addr)) =
    let data_length = data_len - dn in
    let moved = take data_length (drop (salt_len + dn) buf) in
    ok (data_length, addr, moved ++ drop data_length buf)

module _ (p : Primitives) where
  -- Whatever `dst` held, it is the packet afterwards: `resize` keeps no more than room for the salt,
  -- which is overwritten.
  unfoldable pub encrypt_payload_aead : CipherKind → Bytes → Bytes → Address → Bytes → Option Bytes
  encrypt_payload_aead kind key salt addr payload = do
    cipher ← new p kind key salt
    head ← write_to_buf addr salt
    tag ← tag_len kind
    let dst = (head ++ payload) ++ replicate tag 0
    (sealed_text, _) ← encrypt p cipher (drop (length salt) dst)
    some (salt ++ sealed_text)

  -- The packet behind the salt, with the cipher of that salt.
  unfoldable pub decrypt_data :
      CipherKind → Cipher → Bytes → Bytes → Option (Result ProtocolError (ℕ × Address × Bytes))
  unfolding move_payload parse_packet
  decrypt_data kind cipher salt packet_data = do
    tag ← tag_len kind
    if ltb (length packet_data) tag
        then some (err (packet_too_short_for_tag tag (length packet_data)))
        else do
          (good, opened, _) ← decrypt p cipher packet_data
          let data_len = length packet_data - tag
          let parsed = parse_packet (take data_len opened)
          if good
              then some (move_payload (length salt) data_len (salt ++ opened) parsed)
              else some (err decrypt_payload_error)

  -- The length and the address of the payload, and the buffer, which holds it in front.
  unfoldable pub decrypt_payload_aead :
      CipherKind → Bytes → Bytes → Option (Result ProtocolError (ℕ × Address × Bytes))
  unfolding decrypt_data
  decrypt_payload_aead kind key payload = do
    n ← salt_len kind
    if ltb (length payload) n then some (err (packet_too_short_for_salt n (length payload))) else do
      cipher ← new p kind key (take n payload)
      decrypt_data kind cipher (take n payload) (drop n payload)
