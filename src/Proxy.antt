-- ===== src/Proxy.antt =====
-- lib/shadowsocks/src/tcp: the encrypted stream of crypto.rs (Proxy/Channel), the socket of a
-- connection and its options (Proxy/Socket) and, here, `ProxyStream` of proxy.rs, which sends the
-- address of the target ahead of the first bytes. `none` is a panic.
pub mod Channel
pub mod Socket
pub mod First
pub mod Session
mod Tests
use roxy.Base.{
  ℕ, ◌+◌, ◌%◌, Bool, true, false, not, ◌&&◌, Option, none, some, List, [], ◌∷◌, ◌++◌, length, take,
  ltb, ◌==◌, if◌then◌else◌, Result, ok, err,
}
use roxy.Base.Options.{◌>>=◌}
use roxy.Base.Bytes.{Bytes, be16}
use roxy.Socks5.{ErrorKind}
use roxy.Address.{Address, SocketAddr, socket_address, domain_name_address, write_to_buf}
use roxy.Crypto.Kind.{CipherKind, is_aead2022}
use roxy.Crypto.{Primitives}
use roxy.Aead.Frames.{Poll, pending, panic, ready, fail, ProtocolError}
use roxy.Aead.Writer.{Answer, Polled}
use roxy.Aead.Reader.{Arrival}
use roxy.Proxy.Channel.{CryptoStream, from_stream, poll_write_encrypted, poll_read_decrypted}

pub data WriteState : Type 0 where
  connect : Address → WriteState
  connecting : Bytes → WriteState
  connected : WriteState

pub data ReadState : Type 0 where
  established check_request_nonce : ReadState

pub record ProxyStream : Type 0 where
  pub stream : CryptoStream
  pub read_state : ReadState
  pub write_state : WriteState

-- `ServerConfig`, as far as a connection needs it.
pub record Endpoint : Type 0 where
  pub addr : Address
  pub kind : CipherKind
  pub key : Bytes

-- `get_aead_2022_padding_size`, with the random number that it draws.
unfoldable pub padding_size : ℕ → Bytes → ℕ
padding_size drawn [] = drawn % 900
padding_size drawn (b ∷ payload) = 0

-- The padding is memory that was not written: `memory n` is what it holds.
unfoldable pub make_first_packet_buffer :
    ℕ → (ℕ → Bytes) → CipherKind → Address → Bytes → Option Bytes
unfolding write_to_buf padding_size
make_first_packet_buffer drawn memory kind addr buf = do
  buffer ← write_to_buf addr []
  let padding = padding_size drawn buf
  let header = if is_aead2022 kind then buffer ++ (be16 padding ++ memory padding) else buffer
  some (header ++ buf)

-- The connection of the socket is the argument `dial`, the resolver `resolve`, and `random n` a salt
-- of `n` bytes.
abbrev pub dialled :
    (SocketAddr → Result {0} ErrorKind Unit)
    → (Bytes → ℕ → Result ErrorKind SocketAddr)
    → Address
    → Result {0} ErrorKind Unit
dialled dial resolve (socket_address addr) = dial addr
dialled dial resolve (domain_name_address domain port) = elim (resolve domain port) [
  | err e ↦ err e
  | ok addr ↦ dial addr
]

-- The result of a poll, the proxy, the bytes that the socket took, its answers left.
pub record Sent : Type 0 where
  pub poll : Poll ErrorKind ℕ
  pub proxy : ProxyStream
  pub sent : Bytes

-- What a poll of the stream in the state `Connecting` comes to, for `buf`; `debug` is whether
-- `debug_assert!` is compiled in.
unfoldable pub after_first :
    Bool → ProxyStream → Bytes → Bytes → CryptoStream × Polled → Option Sent
after_first debug s buffer buf (stream, o) = elim o.poll [
  | pending ↦ some (record {
    poll = pending;
    proxy = record s { stream = stream; write_state = connecting buffer };
    sent = o.sent;
  })
  | panic ↦ none
  | fail e ↦ some (record {
    poll = fail e;
    proxy = record s { stream = stream; write_state = connecting buffer };
    sent = o.sent;
  })
  | ready n ↦
      if debug && not (n == length buffer)
      then none
      else some (record {
        poll = ready (length buf);
        proxy = record s { stream = stream; write_state = connected };
        sent = o.sent;
      })
]

unfoldable pub after_connected : ProxyStream → CryptoStream × Polled → Option Sent
after_connected s (stream, o) =
    some (record { poll = o.poll; proxy = record s { stream = stream }; sent = o.sent })

module _ (p : Primitives) where
  unfoldable pub connect_to :
      (SocketAddr → Result {0} ErrorKind Unit)
      → (Bytes → ℕ → Result ErrorKind SocketAddr)
      → (ℕ → Bytes)
      → Endpoint
      → Address
      → Option (Result ErrorKind ProxyStream)
  unfolding from_stream
  connect_to dial resolve random conf target = elim (dialled dial resolve conf.addr) [
    | err e ↦ some (err e)
    | ok _ ↦ do
      stream ← from_stream p conf.kind conf.key random
      some (
          ok (record {
            stream = stream;
            read_state = if is_aead2022 conf.kind then check_request_nonce else established;
            write_state = connect target;
          }))
  ]

  module _ (debug : Bool) (drawn : ℕ) (memory : ℕ → Bytes) where
    poll_connection : WriteState → ProxyStream → Bytes → List Answer → Option Sent
    unfolding make_first_packet_buffer after_first after_connected poll_write_encrypted
    poll_connection (connect addr) s buf answers = do
      buffer ← make_first_packet_buffer drawn memory s.stream.kind addr buf
      o ← poll_write_encrypted p s.stream buffer answers
      after_first debug s buffer buf o
    poll_connection (connecting buffer) s buf answers = do
      o ← poll_write_encrypted p s.stream buffer answers
      after_first debug s buffer buf o
    poll_connection connected s buf answers = do
      o ← poll_write_encrypted p s.stream buf answers
      after_connected s o

    unfoldable pub poll_write : ProxyStream → Bytes → List Answer → Option Sent
    unfolding poll_connection
    poll_write s buf answers = poll_connection s.write_state s buf answers

  read_state_of :
      ReadState
      → ℕ
      → ProxyStream
      → Bytes
      → List Arrival
      → Option (Poll ProtocolError Unit × Bytes × ProxyStream × Bytes × List Arrival)
  unfolding poll_read_decrypted
  read_state_of established room s wire arrivals = do
    (poll, out, stream, wire', arrivals') ← poll_read_decrypted p room s.stream wire arrivals
    some (poll, out, record s { stream = stream }, wire', arrivals')
  read_state_of check_request_nonce room s wire arrivals = do
    (poll, out, stream, wire', arrivals') ← poll_read_decrypted p room s.stream wire arrivals
    elim poll [
      | ready _ ↦ none
      | pending ↦ some (pending, out, record s { stream = stream }, wire', arrivals')
      | panic ↦ none
      | fail e ↦ some (fail e, out, record s { stream = stream }, wire', arrivals')
    ]

  -- A chunk counter, which `CheckRequestNonce` asks for, is not there on an AEAD stream: it panics.
  unfoldable pub poll_read :
      ℕ
      → ProxyStream
      → Bytes
      → List Arrival
      → Option (Poll ProtocolError Unit × Bytes × ProxyStream × Bytes × List Arrival)
  unfolding read_state_of
  poll_read room s wire arrivals = read_state_of s.read_state room s wire arrivals
