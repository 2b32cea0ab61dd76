-- ===== src/Copy.antt =====
-- lib/shadowsocks/src/tcp/utils.rs: the loop that copies from a reader to a writer. The reader is
-- the bytes that it has yet to give before it ends and the answers of its `poll_read`, the writer the
-- answers of its `poll_write`, one for each call; without an answer left they are pending.
pub mod Kept
pub mod Turns
pub mod Whole
pub mod Finish
mod Tests
use roxy.Base.{
  ℕ, zero, suc, ◌+◌, ◌-◌, ◌%◌, ◌^◌, min, Bool, true, false, not, ◌&&◌, Option, none, some, List, [],
  ◌∷◌, ◌++◌, length, take, drop, replicate, ltb, ◌==◌, if◌then◌else◌,
}
use roxy.Base.Options.{◌>>=◌}
use roxy.Base.Bytes.{Bytes}
use roxy.Socks5.{ErrorKind}
use roxy.Crypto.Kind.{CipherKind, CipherCategory, category, tag_len}
use roxy.Aead.Frames.{Poll, pending, panic, ready, fail, max_packet_size}
use roxy.Aead.Writer.{Answer}
use roxy.Aead.Reader.{Arrival}

pub record CopyBuffer : Type 0 where
  pub read_done : Bool
  pub pos : ℕ
  pub cap : ℕ
  pub amt : ℕ
  pub buf : Bytes

unfoldable pub new : ℕ → CopyBuffer
new buffer_size = record {
  read_done = false;
  pos = 0;
  cap = 0;
  amt = 0;
  buf = replicate buffer_size 0;
}

-- The buffer, what the reader has yet to give, the answers to come, and what the writer took.
pub record World : Type 0 where
  pub copy : CopyBuffer
  pub source : Bytes
  pub arrivals : List Arrival
  pub answers : List Answer
  pub sent : Bytes

-- A part of the loop goes on, or ends the poll.
pub data Step : Type 0 where
  go : World → Step
  stop : Poll ErrorKind ℕ → World → Step

-- `poll_read` into the whole buffer; `got` is what it filled.
abbrev pub filled : Bytes → World → World
filled got w =
    if length got == 0 then record w { copy = record w.copy { read_done = true } } else record w {
      copy = record w.copy { pos = 0; cap = length got; buf = got ++ drop (length got) w.copy.buf };
      source = drop (length got) w.source;
    }

abbrev pub read_from : List Arrival → World → Step
read_from [] w = stop pending w
read_from (Arrival.later ∷ xs) w = stop pending (record w { arrivals = xs })
read_from (Arrival.breaks e ∷ xs) w = stop (fail e) (record w { arrivals = xs })
read_from (Arrival.arrived n ∷ xs) w =
    go (filled (take (min (suc n) (length w.copy.buf)) w.source) (record w { arrivals = xs }))

-- An empty buffer is filled, unless the reader has ended.
unfoldable pub fill_buffer : World → Step
fill_buffer w =
    if (w.copy.pos == w.copy.cap) && not w.copy.read_done then read_from w.arrivals w else go w

-- `n` bytes go from the buffer to the writer.
abbrev pub advanced : ℕ → World → World
advanced n w = record w {
  copy = record w.copy { pos = w.copy.pos + n; amt = (w.copy.amt + n) % 2 ^ 64 };
  sent = w.sent ++ take n (drop w.copy.pos w.copy.buf);
}

-- The inner loop: what is in the buffer is written out.
unfoldable pub write_out : List Answer → World → Step
write_out [] w =
    let w' = record w { answers = [] } in
    if ltb w.copy.pos w.copy.cap then stop pending w' else go w'
write_out (x ∷ xs) w = elim (ltb w.copy.pos w.copy.cap) [
  | false ↦ go (record w { answers = x ∷ xs })
  | true ↦ elim x [
    | Answer.later ↦ stop pending (record w { answers = xs })
    | Answer.breaks e ↦ stop (fail e) (record w { answers = xs })
    | Answer.takes k ↦ elim (min k (w.copy.cap - w.copy.pos)) [
      | zero ↦ stop (fail ErrorKind.write_zero) (record w { answers = xs })
      | suc m ↦ write_out xs (advanced (suc m) w)
    ]
  ]
]

-- What `poll_flush` answers.
pub data Flush : Type 0 where
  later flushes : Flush
  breaks : ErrorKind → Flush

abbrev pub flushed : Flush → World → Step
flushed later w = stop pending w
flushed (breaks e) w = stop (fail e) w
flushed flushes w = stop (ready w.copy.amt) w

unfoldable pub finish : Flush → World → Step
finish flush w = if (w.copy.pos == w.copy.cap) && w.copy.read_done then flushed flush w else go w

abbrev pub and_then : Step → (World → Step) → Step
and_then (go w) next = next w
and_then (stop p w) next = stop p w

-- One round of the loop.
unfoldable pub turn : Flush → World → Step
unfolding fill_buffer write_out finish
turn flush w = and_then (and_then (fill_buffer w) (λ v. write_out v.answers v)) (finish flush)

-- The loop, for at most `fuel` rounds; `none` where they do not suffice.
unfoldable pub rounds : ℕ → Flush → World → Option (Poll ErrorKind ℕ × World)
unfolding turn
rounds zero flush w = none
rounds (suc fuel) flush w = elim (turn flush w) [
  | stop p v ↦ some (p, v)
  | go v ↦ rounds fuel flush v
]

unfoldable pub poll_copy : Flush → World → Option (Poll ErrorKind ℕ × World)
unfolding rounds
poll_copy flush w = rounds (length w.arrivals + 2) flush w

-- The sizes of the buffers; `none` is the panic of `tag_len`.
unfoldable pub size_from_encrypted : CipherKind → Option ℕ
unfolding category tag_len
size_from_encrypted kind = do
  tag ← tag_len kind
  elim (category kind) [
    | CipherCategory.aead ↦ some (max_packet_size + tag)
    | CipherCategory.aead2022 ↦ some (0xffff + tag)
  ]

unfoldable pub size_to_encrypted : CipherKind → ℕ
unfolding category
size_to_encrypted kind = elim (category kind) [
  | CipherCategory.aead ↦ max_packet_size
  | CipherCategory.aead2022 ↦ 0xffff
]

-- What a poll of the future finds: the answers of the reader, of the writer and of its flush.
pub record Wake : Type 0 where
  pub arrivals : List Arrival
  pub answers : List Answer
  pub flush : Flush

-- `Copy` is polled until it is no longer pending, or for as long as it is woken.
unfoldable pub copy : List Wake → World → Option (Poll ErrorKind ℕ × World)
unfolding poll_copy
copy [] w = some (pending, w)
copy (x ∷ xs) w =
    elim (poll_copy x.flush (record w { arrivals = x.arrivals; answers = x.answers })) [
      | none ↦ none
      | some (p, v) ↦ elim p [
        | pending ↦ copy xs v
        | panic ↦ some (panic, v)
        | fail e ↦ some (fail e, v)
        | ready n ↦ some (ready n, v)
      ]
    ]

abbrev pub start : ℕ → Bytes → World
start size source = record {
  copy = new size;
  source = source;
  arrivals = [];
  answers = [];
  sent = [];
}

unfoldable pub copy_from_encrypted :
    CipherKind → Bytes → List Wake → Option (Poll ErrorKind ℕ × World)
unfolding size_from_encrypted copy
copy_from_encrypted kind source wakes = do
  size ← size_from_encrypted kind
  copy wakes (start size source)

unfoldable pub copy_to_encrypted :
    CipherKind → Bytes → List Wake → Option (Poll ErrorKind ℕ × World)
unfolding size_to_encrypted copy
copy_to_encrypted kind source wakes = copy wakes (start (size_to_encrypted kind) source)
