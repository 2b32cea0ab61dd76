-- ===== src/Aead/Frames.antt =====
-- The errors of lib/shadowsocks/src/tcp/aead.rs, and the wire form of a stream: a sequence of chunks,
-- each a sealed length and the sealed data.
use roxy.Base.{ℕ, ◌≤◌, List, [], ◌∷◌, ◌++◌, length}
use roxy.Base.Bytes.{Bytes, be16}
use roxy.Socks5.{ErrorKind}
use roxy.Crypto.{Primitives, Cipher, increase_nonce}
use roxy.Crypto.Seal.{sealed}

abbrev pub max_packet_size : ℕ
max_packet_size = 0x3fff

pub data ProtocolError : Type 0 where
  io : ErrorKind → ProtocolError
  header_too_short : ℕ → ℕ → ProtocolError
  decrypt_data_error decrypt_length_error : ProtocolError
  data_too_long : ℕ → ProtocolError

-- `Poll<Result<A, E>>`; `panic` is a failed `expect`, `todo!` or slice.
pub data Poll (E A : Type 0) : Type 0 where
  pending panic : Poll E A
  ready : A → Poll E A
  fail : E → Poll E A

-- Every chunk fits its length field.
abbrev pub Fit : List Bytes → Type 0
Fit [] = Unit
Fit (d ∷ ds) = (length d ≤ max_packet_size) × Fit ds

-- The data of all the chunks.
abbrev pub concat : List Bytes → Bytes
concat [] = []
concat (d ∷ ds) = d ++ concat ds

-- A chunk is two messages.
abbrev pub after_frame : Cipher → Cipher
after_frame c = increase_nonce (increase_nonce c)

module _ (p : Primitives) where
  -- A chunk, from the cipher's present nonce on.
  unfoldable pub frame : Cipher → Bytes → Bytes
  frame c data_bytes =
      sealed p c (be16 (length data_bytes)) ++ sealed p (increase_nonce c) data_bytes

  unfoldable pub frames : Cipher → List Bytes → Bytes
  unfolding frame
  frames c [] = []
  frames c (d ∷ ds) = frame c d ++ frames (after_frame c) ds
