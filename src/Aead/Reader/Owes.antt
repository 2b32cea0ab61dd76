-- ===== src/Aead/Reader/Owes.antt =====
-- What a reader has still to deliver, on a stream that a writer filled.
use roxy.Base.{ℕ, ◌+◌, ◌*◌, ◌<◌, ◌≡◌, some, List, [], ◌++◌, length, drop}
use roxy.Base.Bytes.{Bytes}
use roxy.Socks5.{ErrorKind}
use roxy.Crypto.Kind.{salt_len, tag_len}
use roxy.Crypto.{Primitives, Cipher, increase_nonce}
use roxy.Crypto
use roxy.Crypto.Seal.{sealed}
use roxy.Aead.Frames.{Fit, concat, Poll, pending, panic, ready, fail, ProtocolError, io, frames}
use roxy.Aead.Reader.{DecryptReadState, wait_salt, read_length, read_data, buffered_data, World}
use roxy.Aead.Reader.Fill.{Broke}
use roxy.Aead.Reader.Loop.{Turn, again, return}

-- The bytes read for the step under way, and those to come.
abbrev pub ahead : World → Bytes
ahead w = w.reader.buffer ++ w.wire

module _ (p : Primitives) where
  pub record OwesSalt (key : Bytes) (w : World) (plain : Bytes) : Type 0 where
    pub salt : Bytes
    pub cipher : Cipher
    pub chunks : List Bytes
    pub size : salt_len w.reader.kind ≡ some (length salt)
    pub made : Crypto.new p w.reader.kind key salt ≡ some cipher
    pub bytes : ahead w ≡ salt ++ frames p cipher chunks
    pub fit : Fit chunks
    pub text : plain ≡ concat chunks
    pub short : length w.reader.buffer < length salt

  pub record OwesLength (w : World) (plain : Bytes) : Type 0 where
    pub cipher : Cipher
    pub chunks : List Bytes
    pub cipher_is : w.reader.cipher ≡ some cipher
    pub tag : tag_len w.reader.kind ≡ some 16
    pub bytes : ahead w ≡ frames p cipher chunks
    pub fit : Fit chunks
    pub text : plain ≡ concat chunks
    pub short : length w.reader.buffer < 18

  pub record OwesData (size : ℕ) (w : World) (plain : Bytes) : Type 0 where
    pub cipher : Cipher
    pub chunk : Bytes
    pub chunks : List Bytes
    pub cipher_is : w.reader.cipher ≡ some cipher
    pub tag : tag_len w.reader.kind ≡ some 16
    pub size_is : length chunk ≡ size
    pub bytes : ahead w ≡ sealed p cipher chunk ++ frames p (increase_nonce cipher) chunks
    pub fit : Fit chunks
    pub text : plain ≡ chunk ++ concat chunks
    pub short : length w.reader.buffer < size + 16

  pub record OwesBuffered (pos : ℕ) (w : World) (plain : Bytes) : Type 0 where
    pub cipher : Cipher
    pub chunks : List Bytes
    pub cipher_is : w.reader.cipher ≡ some cipher
    pub tag : tag_len w.reader.kind ≡ some 16
    pub bytes : w.wire ≡ frames p cipher chunks
    pub fit : Fit chunks
    pub text : plain ≡ drop pos w.reader.buffer ++ concat chunks

  -- In the state `s`, the stream owes the caller exactly the bytes `plain` before it ends.
  abbrev pub OwesIn : DecryptReadState → World → Bytes → Type 0
  OwesIn (wait_salt key) w plain = OwesSalt key w plain
  OwesIn read_length w plain = OwesLength w plain
  OwesIn (read_data size) w plain = OwesData size w plain
  OwesIn (buffered_data pos) w plain = OwesBuffered pos w plain

  abbrev pub Owes : World → Bytes → Type 0
  Owes w plain = OwesIn w.reader.state w plain

-- How a poll may end: pending, or with an error of the stream, or well; and if it has room and
-- delivers nothing, then nothing is owed any more and the stream has ended.
abbrev pub Ends : ℕ → World → Poll ProtocolError Unit → Bytes → Bytes → World → Type 0
Ends room w pending out plain' w' = out ≡ []
Ends room w panic out plain' w' = ⊥
Ends room w (fail e) out plain' w' = (out ≡ []) × (k : ErrorKind) × (e ≡ io k) × Broke k w.arrivals
Ends room w (ready _) out plain' w' = 0 < room → out ≡ [] → (plain' ≡ []) × (ahead w' ≡ [])

-- How many more rounds the loop may go.
abbrev pub weight : DecryptReadState → ℕ
weight (buffered_data pos) = 1
weight _ = 0

abbrev pub left : World → ℕ
left w = weight w.reader.state + 2 * length w.arrivals

module _ (p : Primitives) (room : ℕ) (w : World) (plain : Bytes) where
  -- A round goes on closer to its end, or ends with the right bytes.
  abbrev pub TurnOwes : Turn → Type 0
  TurnOwes (again w') =
      Owes p w' plain
      × (left w' < left w)
      × ((e : ErrorKind) → Broke e w'.arrivals → Broke e w.arrivals)
  TurnOwes (return poll out w') =
      (plain' : Bytes) × (plain ≡ out ++ plain') × Owes p w' plain' × Ends room w poll out plain' w'
