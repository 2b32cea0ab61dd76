-- ===== src/Udp/Tests.antt =====
-- A datagram there and back.
use roxy.Base.{ℕ, length, none, ◌≡◌, refl, arith, some, [], ◌∷◌, Bool, ok, err, replicate}
use roxy.Base.Bytes.{Bytes, codes}
use roxy.Address.{Address, domain_name_address, write_to_buf}
use roxy.Address.Utf8.{is_utf8}
use roxy.Address.Wire.{on_wire}
use roxy.Crypto.Kind.{CipherKind, salt_len, key_len, tag_len}
use roxy.Crypto.{new, nonce_size}
use roxy.Crypto.Tests.{toy, toy-IsAead, key, salt}
use roxy.Udp.{ProtocolError, decrypt_payload_aead}
use roxy.Socks5.{timed_out}
use roxy.Udp.Socket.{
  ProxySocket, Answer, awaited, io_error, protocol_error, waiting, fail, done, set_timeouts, send,
  recv_with_ctrl,
}
use roxy.Udp.Socket.Exchange.{recv_with_ctrl-send}

abbrev site : Address
site = domain_name_address (codes "a.io") 443

abbrev site_bytes : Bytes
site_bytes = 3 ∷ 4 ∷ 97 ∷ 46 ∷ 105 ∷ 111 ∷ 1 ∷ 187 ∷ []

site_is_utf8 : is_utf8 (codes "a.io") ≡ Bool.true
unfolding is_utf8
site_is_utf8 = refl

write_site : write_to_buf site [] ≡ some site_bytes
unfolding write_to_buf
write_site = refl

short_packets :
    (decrypt_payload_aead toy CipherKind.aes_128_gcm key (replicate 15 0)
      ≡ some (err (ProtocolError.packet_too_short_for_salt 16 15)))
    × (decrypt_payload_aead toy CipherKind.aes_128_gcm key (replicate 31 0)
        ≡ some (err (ProtocolError.packet_too_short_for_tag 16 15)))
unfolding decrypt_payload_aead salt_len key_len new nonce_size tag_len
short_packets = (refl, refl)

salt_of_kind : salt_len CipherKind.aes_128_gcm ≡ some 16
unfolding salt_len key_len
salt_of_kind = refl

abbrev client : ProxySocket
client = record {
  kind = CipherKind.aes_128_gcm;
  key = key;
  send_timeout = some 5;
  recv_timeout = none;
}

abbrev server : ProxySocket
server = record {
  kind = CipherKind.aes_128_gcm;
  key = key;
  send_timeout = none;
  recv_timeout = none;
}

-- What a socket does where nothing comes, or a packet that is too short.
silence :
    (recv_with_ctrl toy server none ≡ waiting)
    × (recv_with_ctrl toy (set_timeouts none (some 5) server) none ≡ fail (io_error timed_out))
    × (recv_with_ctrl toy server (some (ok (replicate 15 0)))
        ≡ fail (protocol_error (ProtocolError.packet_too_short_for_salt 16 15)))
unfolding recv_with_ctrl set_timeouts salt_len key_len
silence = (refl, refl, refl)

recv_with_ctrl-send_example :
    (packet rest : Bytes) × ((answer : Bytes → Answer ℕ)
      → send toy client salt site (5 ∷ 6 ∷ []) answer ≡ awaited (some 5) (answer packet))
    × (recv_with_ctrl toy server (some (ok packet))
        ≡ done ((2, on_wire site, length packet), 5 ∷ 6 ∷ rest))
recv_with_ctrl-send_example =
    recv_with_ctrl-send toy toy-IsAead client server salt (5 ∷ 6 ∷ []) site site_bytes refl refl
      (site_is_utf8, omega arith) salt_of_kind refl write_site
