-- ===== src/Aead/Writer.antt =====
-- `EncryptedWriter` of lib/shadowsocks/src/tcp/aead.rs. The stream is the list of the answers that
-- its `poll_write` gives, one for each call; without an answer left it is pending.
pub mod Wire
pub mod Session
use roxy.Base.{
  ℕ, zero, suc, ◌+◌, ◌-◌, min, Bool, true, false, Option, none, some, List, [], ◌∷◌, ◌++◌, length,
  take, drop, replicate, ltb, ◌==◌, if◌then◌else◌,
}
use roxy.Base.Options.{◌>>=◌}
use roxy.Base.Bytes.{Bytes, be16}
use roxy.Socks5.{ErrorKind}
use roxy.Crypto.Kind.{CipherKind, tag_len}
use roxy.Crypto.{Primitives, Cipher, encrypt}
use roxy.Crypto
use roxy.Aead.Frames.{max_packet_size, Poll, pending, panic, ready, fail}

pub data EncryptWriteState : Type 0 where
  assemble_packet : EncryptWriteState
  writing : ℕ → EncryptWriteState

pub record EncryptedWriter : Type 0 where
  pub cipher : Cipher
  pub buffer : Bytes
  pub state : EncryptWriteState
  pub salt : Bytes

-- What `poll_write` answers: it takes up to `n` of the bytes offered.
pub data Answer : Type 0 where
  later : Answer
  takes : ℕ → Answer
  breaks : ErrorKind → Answer

-- How far a write came: its result, the position reached, the bytes taken, the answers left.
pub record Written : Type 0 where
  pub poll : Poll ErrorKind Unit
  pub pos : ℕ
  pub sent : Bytes
  pub answers : List Answer

-- The loop of the state `Writing`.
unfoldable pub write_out : Bytes → ℕ → List Answer → Written
write_out buffer pos [] = record {
  poll = if ltb pos (length buffer) then pending else ready tt;
  pos = pos;
  sent = [];
  answers = [];
}
write_out buffer pos (x ∷ xs) = elim (ltb pos (length buffer)) [
  | false ↦ record { poll = ready tt; pos = pos; sent = []; answers = x ∷ xs }
  | true ↦ elim x [
    | later ↦ record { poll = pending; pos = pos; sent = []; answers = xs }
    | breaks e ↦ record { poll = fail e; pos = pos; sent = []; answers = xs }
    | takes k ↦
        let n = min k (length buffer - pos) in
        elim n [
          | zero ↦ record {
            poll = fail ErrorKind.unexpected_eof;
            pos = pos;
            sent = [];
            answers = xs;
          }
          | suc m ↦
              let rest = write_out buffer (pos + suc m) xs in
              record rest { sent = take (suc m) (drop pos buffer) ++ rest.sent }
        ]
  ]
]

-- The result of a poll, the writer, the bytes taken by the stream, the answers left.
pub record Polled : Type 0 where
  pub poll : Poll ErrorKind ℕ
  pub writer : EncryptedWriter
  pub sent : Bytes
  pub answers : List Answer

-- What the state `Writing` makes of the outcome of its loop, for `n` bytes of data.
unfoldable pub after_write : EncryptedWriter → ℕ → Written → Polled
after_write w n o =
    let stopped = record w { state = writing o.pos } in
    elim o.poll [
      | pending ↦ record { poll = pending; writer = stopped; sent = o.sent; answers = o.answers }
      | panic ↦ record { poll = panic; writer = stopped; sent = o.sent; answers = o.answers }
      | fail e ↦ record { poll = fail e; writer = stopped; sent = o.sent; answers = o.answers }
      | ready _ ↦ record {
        poll = ready n;
        writer = record w { state = assemble_packet; buffer = [] };
        sent = o.sent;
        answers = o.answers;
      }
    ]

module _ (p : Primitives) where
  unfoldable pub new : CipherKind → Bytes → Bytes → Option EncryptedWriter
  new kind key nonce = do
    c ← Crypto.new p kind key nonce
    some (record { cipher = c; buffer = nonce; state = assemble_packet; salt = nonce })

  -- The state `AssemblePacket`: the sealed length and the sealed data are appended to the buffer.
  unfoldable pub assemble : EncryptedWriter → Bytes → Option EncryptedWriter
  assemble w data_bytes = do
    tag ← tag_len w.cipher.kind
    (length_out, c1) ← encrypt p w.cipher (be16 (length data_bytes) ++ replicate tag 0)
    (data_out, c2) ← encrypt p c1 (data_bytes ++ replicate tag 0)
    some
        (record w { cipher = c2; buffer = (w.buffer ++ length_out) ++ data_out; state = writing 0 })

  unfoldable pub poll_state :
      EncryptWriteState → EncryptedWriter → Bytes → List Answer → Option Polled
  unfolding assemble write_out after_write
  poll_state assemble_packet w data_bytes answers = do
    w' ← assemble w data_bytes
    some (after_write w' (length data_bytes) (write_out w'.buffer 0 answers))
  poll_state (writing pos) w data_bytes answers =
      some (after_write w (length data_bytes) (write_out w.buffer pos answers))

  -- At most `MAX_PACKET_SIZE` bytes are taken in one chunk.
  unfoldable pub poll_write_encrypted : EncryptedWriter → Bytes → List Answer → Option Polled
  unfolding poll_state
  poll_write_encrypted w buf answers = poll_state w.state w (take max_packet_size buf) answers
