-- ===== src/Aead/Reader.antt =====
-- `DecryptedReader` of lib/shadowsocks/src/tcp/aead.rs. The stream is the bytes that it has yet to
-- deliver before it ends and the list of the answers of its `poll_read`, one for each call; without
-- an answer left it is pending. The buffer's capacity, which is reserved ahead of each read, is left out.
pub mod Loop
pub mod Fill
pub mod Opens
pub mod Owes
pub mod Steps
pub mod SaltRound
pub mod ChunkRounds
pub mod Rounds
pub mod Polls
use roxy.Base.{
  ℕ, zero, suc, ◌+◌, ◌-◌, min, Bool, true, false, Option, none, some, List, [], ◌∷◌, ◌++◌, length,
  take, drop, ltb, ◌==◌, if◌then◌else◌,
}
use roxy.Base.Bytes.{Bytes, from_be16}
use roxy.Socks5.{ErrorKind}
use roxy.Crypto.Kind.{CipherKind, salt_len, tag_len}
use roxy.Crypto.{Primitives, Cipher, decrypt}
use roxy.Crypto
use roxy.Aead.Frames.{
  max_packet_size, Poll, pending, panic, ready, fail, ProtocolError, io, decrypt_data_error,
  decrypt_length_error, data_too_long,
}

pub data DecryptReadState : Type 0 where
  wait_salt : Bytes → DecryptReadState
  read_length : DecryptReadState
  read_data : ℕ → DecryptReadState
  buffered_data : ℕ → DecryptReadState

pub record DecryptedReader : Type 0 where
  pub state : DecryptReadState
  pub kind : CipherKind
  pub cipher : Option Cipher
  pub buffer : Bytes
  pub salt : Option Bytes
  pub handshaked : Bool

unfoldable pub new : CipherKind → Bytes → DecryptedReader
new kind key = record {
  state = wait_salt key;
  kind = kind;
  cipher = none;
  buffer = [];
  salt = none;
  handshaked = false;
}

-- What `poll_read` answers: up to `n + 1` bytes, as far as there is room and the stream has not
-- ended; after its end, none.
pub data Arrival : Type 0 where
  later : Arrival
  arrived : ℕ → Arrival
  breaks : ErrorKind → Arrival

pub record Filled : Type 0 where
  pub poll : Poll ErrorKind ℕ
  pub buffer : Bytes
  pub wire : Bytes
  pub arrivals : List Arrival

-- `pool_read_exact` behind its `assert!`.
unfoldable pub fill : ℕ → Bytes → Bytes → List Arrival → Filled
fill size buffer wire [] = record {
  poll = if ltb (length buffer) size then pending else ready size;
  buffer = buffer;
  wire = wire;
  arrivals = [];
}
fill size buffer wire (x ∷ xs) = elim (ltb (length buffer) size) [
  | false ↦ record { poll = ready size; buffer = buffer; wire = wire; arrivals = x ∷ xs }
  | true ↦ elim x [
    | later ↦ record { poll = pending; buffer = buffer; wire = wire; arrivals = xs }
    | breaks e ↦ record { poll = fail e; buffer = buffer; wire = wire; arrivals = xs }
    | arrived k ↦
        let n = min (suc k) (size - length buffer) in
        elim (take n wire) [
          | [] ↦ record {
            poll = elim buffer [ [] ↦ ready 0 | _ ∷ _ ↦ fail ErrorKind.unexpected_eof ];
            buffer = buffer;
            wire = wire;
            arrivals = xs;
          }
          | b ∷ bs ↦ fill size (buffer ++ (b ∷ bs)) (drop n wire) xs
        ]
  ]
]

-- The reader and its stream.
pub record World : Type 0 where
  pub reader : DecryptedReader
  pub wire : Bytes
  pub arrivals : List Arrival

-- `ready!(...)?`
infixl 5 ◌>>=◌
abbrev pub ◌>>=◌ :
    {A B : Type 0}
    → Poll ProtocolError A × World
    → (A → World → Poll ProtocolError B × World)
    → Poll ProtocolError B × World
(pending, w) >>= next = (pending, w)
(panic, w) >>= next = (panic, w)
(fail e, w) >>= next = (fail e, w)
(ready a, w) >>= next = next a w

abbrev pub with_io : Poll ErrorKind ℕ → Poll ProtocolError ℕ
with_io pending = pending
with_io panic = panic
with_io (fail e) = fail (io e)
with_io (ready n) = ready n

abbrev pub filled : World → Filled → Poll ProtocolError ℕ × World
filled w o = (
  with_io o.poll,
  record { reader = record w.reader { buffer = o.buffer }; wire = o.wire; arrivals = o.arrivals },
)

-- `pool_read_exact`
unfoldable pub read_exact : ℕ → World → Poll ProtocolError ℕ × World
unfolding fill
read_exact size w =
    if size == 0 then (panic, w) else filled w (fill size w.reader.buffer w.wire w.arrivals)

abbrev pub with_reader : World → DecryptedReader → World
with_reader w r = record w { reader = r }

-- The bytes of `m` are opened in place.
abbrev pub opened_in : World → Bytes → ℕ → Cipher → World
opened_in w m size c =
    with_reader w (record w.reader { cipher = some c; buffer = m ++ drop size w.reader.buffer })

-- `u16::from_be_bytes([m[0], m[1]])`
abbrev pub first_be16 : Bytes → Option ℕ
first_be16 (a ∷ b ∷ rest) = some (from_be16 a b)
first_be16 _ = none

-- `decrypt_length`, given what `decrypt` said of `m`; the length is not looked at in a bad buffer.
unfoldable pub length_of : Bool → Bytes → Poll ProtocolError ℕ
length_of good m = elim good [
  | false ↦ fail decrypt_length_error
  | true ↦ elim (first_be16 m) [
    | none ↦ panic
    | some plen ↦ if ltb max_packet_size plen then fail (data_too_long plen) else ready plen
  ]
]

module _ (p : Primitives) where
  unfoldable pub take_salt : Bytes → ℕ → ℕ → World → Poll ProtocolError Unit × World
  take_salt key size n w = elim (ltb n size) [
    | true ↦ (fail (io ErrorKind.unexpected_eof), w)
    | false ↦
        let salt = take size w.reader.buffer in
        elim (Crypto.new p w.reader.kind key salt) [
          | none ↦ (panic, with_reader w (record w.reader { salt = some salt }))
          | some c ↦
              (ready tt, with_reader w (record w.reader { salt = some salt; cipher = some c }))
        ]
  ]

  unfoldable pub poll_read_salt : Bytes → World → Poll ProtocolError Unit × World
  unfolding read_exact take_salt
  poll_read_salt key w = elim (salt_len w.reader.kind) [
    | none ↦ (panic, w)
    | some size ↦ read_exact size w >>= take_salt key size
  ]

  unfoldable pub take_length : ℕ → ℕ → World → Poll ProtocolError (Option ℕ) × World
  unfolding length_of
  take_length size zero w = (ready none, w)
  take_length size (suc n) w = elim w.reader.cipher [
    | none ↦ (panic, w)
    | some c ↦ elim (decrypt p c (take size w.reader.buffer)) [
      | none ↦ (panic, w)
      | some (good, m, c') ↦
          (length_of good m, opened_in w m size c') >>= λ plen w'. (ready (some plen), w')
    ]
  ]

  unfoldable pub poll_read_length : World → Poll ProtocolError (Option ℕ) × World
  unfolding read_exact take_length
  poll_read_length w = elim (tag_len w.reader.kind) [
    | none ↦ (panic, w)
    | some tag ↦ read_exact (2 + tag) w >>= take_length (2 + tag)
  ]

  -- `truncate` cuts the tag off.
  unfoldable pub take_data : ℕ → ℕ → ℕ → World → Poll ProtocolError Unit × World
  take_data length_read size zero w = (fail (io ErrorKind.unexpected_eof), w)
  take_data length_read size (suc n) w = elim w.reader.cipher [
    | none ↦ (panic, w)
    | some c ↦ elim (decrypt p c (take size w.reader.buffer)) [
      | none ↦ (panic, w)
      | some (good, m, c') ↦
          let w' = opened_in w m size c' in
          elim good [
            | false ↦ (fail decrypt_data_error, w')
            | true ↦ (
              ready tt,
              with_reader w' (record w'.reader { buffer = take length_read w'.reader.buffer }),
            )
          ]
    ]
  ]

  unfoldable pub poll_read_data : ℕ → World → Poll ProtocolError Unit × World
  unfolding read_exact take_data
  poll_read_data size w = elim (tag_len w.reader.kind) [
    | none ↦ (panic, w)
    | some tag ↦ read_exact (size + tag) w >>= take_data size (size + tag)
  ]
