-- ===== src/Proxy/Channel.antt =====
-- `CryptoStream` of lib/shadowsocks/src/tcp/crypto.rs. `from_stream` panics in `salt_len` for every
-- AEAD-2022 kind, before it makes their reader and writer, so the variants are those of AEAD. `none`
-- is a panic.
use roxy.Base.{ℕ, Bool, false, ◌||◌, Option, some, List}
use roxy.Base.Options.{◌>>=◌}
use roxy.Base.Bytes.{Bytes}
use roxy.Crypto.Kind.{CipherKind, salt_len}
use roxy.Crypto.{Primitives}
use roxy.Aead.Frames.{Poll, ready, ProtocolError}
use roxy.Aead.Writer
use roxy.Aead.Writer.{EncryptedWriter, Answer, Polled}
use roxy.Aead.Reader
use roxy.Aead.Reader.{DecryptedReader, World, Arrival}
use roxy.Aead.Reader.Loop

pub record CryptoStream : Type 0 where
  pub dec : DecryptedReader
  pub enc : EncryptedWriter
  pub kind : CipherKind
  pub handshaked : Bool

module _ (p : Primitives) where
  -- `random n` is what `generate_nonce` leaves in a buffer of `n` bytes.
  unfoldable pub from_stream : CipherKind → Bytes → (ℕ → Bytes) → Option CryptoStream
  from_stream kind key random = do
    prev_len ← salt_len kind
    enc ← Writer.new p kind key (random prev_len)
    some (record { dec = Reader.new kind key; enc = enc; kind = kind; handshaked = false })

  unfoldable pub poll_write_encrypted :
      CryptoStream → Bytes → List Answer → Option (CryptoStream × Polled)
  poll_write_encrypted s buf answers = do
    o ← Writer.poll_write_encrypted p s.enc buf answers
    some (record s { enc = o.writer }, o)

  -- An AEAD reader has no user key, so the writer keeps its cipher.
  unfoldable pub poll_read_decrypted :
      ℕ
      → CryptoStream
      → Bytes
      → List Arrival
      → Option (Poll ProtocolError Unit × Bytes × CryptoStream × Bytes × List Arrival)
  poll_read_decrypted room s wire arrivals = do
    (poll, out, w) ←
        Loop.poll_read_decrypted p room
          (record { reader = s.dec; wire = wire; arrivals = arrivals })
    let shaken : Bool = elim poll [
      | ready _ ↦ s.handshaked || w.reader.handshaked
      | _ ↦ s.handshaked
    ]
    some (poll, out, record s { dec = w.reader; handshaked = shaken }, w.wire, w.arrivals)
