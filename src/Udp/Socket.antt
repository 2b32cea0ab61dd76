-- ===== src/Udp/Socket.antt =====
-- lib/shadowsocks/src/udp/proxy_socket.rs, a socket towards a server, and the dispatch of
-- lib/shadowsocks/src/udp/crypto.rs. What the operating system answers is an argument. The functions of
-- AEAD-2022 ask for `tag_len` before anything can return, which is `todo!()` for their kinds.
pub mod Exchange
use roxy.Base.{ℕ, Bool, true, false, Option, none, some, List, [], ◌∷◌, length, Result, ok, err}
use roxy.Base.Bytes.{Bytes}
use roxy.Socks5.{ErrorKind, timed_out}
use roxy.Address.{Address, SocketAddr}
use roxy.Crypto.Kind.{CipherKind, CipherCategory, category}
use roxy.Crypto.{Primitives}
use roxy.Udp.{ProtocolError, encrypt_payload_aead, decrypt_payload_aead}

-- The error of the resolver is an `ErrorKind` here. Of `ProtocolError` of crypto.rs only the errors
-- of an AEAD packet are ever made.
pub data ProxySocketError : Type 0 where
  io_error resolve : ErrorKind → ProxySocketError
  protocol_error : ProtocolError → ProxySocketError
  protocol_error_with_peer : SocketAddr → ProtocolError → ProxySocketError
  invalid_server_user : Bytes → ProxySocketError

-- The socket of the operating system and the identity keys, which only AEAD-2022 reads, are left out.
pub record ProxySocket : Type 0 where
  pub kind : CipherKind
  pub key : Bytes
  pub send_timeout : Option ℕ
  pub recv_timeout : Option ℕ

unfoldable pub set_timeouts : Option ℕ → Option ℕ → ProxySocket → ProxySocket
set_timeouts send recv s = record s { send_timeout = send; recv_timeout = recv }

-- How a call ends; `waiting` is a call without a limit that the operating system never answers.
pub data Outcome (A : Type 0) : Type 0 where
  panic waiting : Outcome A
  fail : ProxySocketError → Outcome A
  done : A → Outcome A

-- The answer of the operating system: `none` is one that does not come in time, or at all.
abbrev pub Answer : Type 0 → Type 0
Answer A = Option (Result ErrorKind A)

abbrev pub awaited : {A : Type 0} → Option ℕ → Answer A → Outcome A
awaited limit (some (ok a)) = done a
awaited limit (some (err e)) = fail (io_error e)
awaited none none = waiting
awaited (some d) none = fail (io_error timed_out)

-- The result for a packet of `recv_n` bytes.
abbrev pub of_packet :
    ℕ → Option (Result ProtocolError (ℕ × Address × Bytes)) → Outcome ((ℕ × Address × ℕ) × Bytes)
of_packet recv_n none = panic
of_packet recv_n (some (err e)) = fail (protocol_error e)
of_packet recv_n (some (ok (n, addr, recv_buf))) = done ((n, addr, recv_n), recv_buf)

-- What becomes of a packet, made or not.
abbrev pub handed : Option ℕ → (Bytes → Answer ℕ) → Option Bytes → Outcome ℕ
handed limit answer none = panic
handed limit answer (some send_buf) = awaited limit (answer send_buf)

module _ (p : Primitives) where
  unfoldable pub encrypt_client_payload :
      CipherKind → Bytes → Bytes → Address → Bytes → Option Bytes
  unfolding encrypt_payload_aead category
  encrypt_client_payload kind key salt addr payload = elim (category kind) [
    | CipherCategory.aead ↦ encrypt_payload_aead p kind key salt addr payload
    | CipherCategory.aead2022 ↦ none
  ]

  unfoldable pub decrypt_server_payload :
      CipherKind → Bytes → Bytes → Option (Result ProtocolError (ℕ × Address × Bytes))
  unfolding decrypt_payload_aead category
  decrypt_server_payload kind key payload = elim (category kind) [
    | CipherCategory.aead ↦ decrypt_payload_aead p kind key payload
    | CipherCategory.aead2022 ↦ none
  ]

  -- The packet that is handed to the operating system, which answers with what it sent of it.
  unfoldable pub send : ProxySocket → Bytes → Address → Bytes → (Bytes → Answer ℕ) → Outcome ℕ
  unfolding encrypt_client_payload
  send s salt addr payload answer =
      handed s.send_timeout answer (encrypt_client_payload s.kind s.key salt addr payload)

  abbrev pub received : ProxySocket → Outcome Bytes → Outcome ((ℕ × Address × ℕ) × Bytes)
  received s panic = panic
  received s waiting = waiting
  received s (fail e) = fail e
  received s (done packet) = of_packet (length packet) (decrypt_server_payload s.kind s.key packet)

  -- The result, and the part of the buffer that the packet took. The control data is none for every
  -- kind that has a result.
  unfoldable pub recv_with_ctrl : ProxySocket → Answer Bytes → Outcome ((ℕ × Address × ℕ) × Bytes)
  unfolding decrypt_server_payload
  recv_with_ctrl s answer = received s (awaited s.recv_timeout answer)
