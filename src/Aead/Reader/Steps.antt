-- ===== src/Aead/Reader/Steps.antt =====
-- A step of the reader that reads: it stops with the stream, or goes on with a full buffer.
use mathlib.Core.Option.{some-injective}
use mathlib.Core.Path.{ap₂}
use roxy.Base.{ℕ, ◌+◌, ◌≤◌, ◌<◌, ◌≡◌, refl, false, some, [], ◌++◌, length, ◌==◌, arith}
use roxy.Base.Bytes.{Bytes}
use roxy.Socks5.{ErrorKind}
use roxy.Crypto.Kind.{CipherKind, salt_len, tag_len, key_len}
use roxy.Crypto.{Primitives, IsAead}
use roxy.Aead.Frames.{Poll, ready, ProtocolError}
use roxy.Aead.Reader.{
  World, Filled, filled, fill, ◌>>=◌, read_exact, take_salt, take_length, take_data, poll_read_salt,
  poll_read_length, poll_read_data,
}
use roxy.Aead.Reader.Fill.{Broke, Reads, waits, broke, full, closed, cut}
use roxy.Aead.Reader.Owes.{ahead, Owes, TurnOwes}
use roxy.Aead.Reader.Loop.{Turn, or_return}

-- The reader after a read of the stream.
abbrev pub refilled : World → Filled → World
refilled w o = (filled w o).1

module _ (p : Primitives) (a : IsAead p) (room : ℕ) (w : World) (plain : Bytes) where
  -- A step that reads `size` bytes: it stops with the stream, or goes on with a full buffer.
  pub fill_then :
      {A : Type 0} (size : ℕ) (o : Filled) (next : ℕ → World → Poll ProtocolError A × World)
      (k : A → World → Turn)
      → Reads size w.reader.buffer w.wire w.arrivals o
      → (ahead (refilled w o) ≡ ahead w → length o.buffer < size → Owes p (refilled w o) plain)
      → (o.poll ≡ ready size
          → length o.buffer ≡ size
          → ahead (refilled w o) ≡ ahead w
          → length o.arrivals < length w.arrivals
          → ((e : ErrorKind) → Broke e o.arrivals → Broke e w.arrivals)
          → TurnOwes p room w plain (or_return (next size (refilled w o)) k))
      → (ahead w ≡ []
          → ahead (refilled w o) ≡ []
          → o.buffer ≡ []
          → TurnOwes p room w plain (or_return (next 0 (refilled w o)) k))
      → (0 < length (ahead w) → size ≤ length (ahead w))
      → length w.reader.buffer < size
      → TurnOwes p room w plain (or_return (filled w o >>= next) k)
  fill_then size o next k (waits e lt same fewer) keep go stop enough short =
      rw e (plain, refl, keep same lt, refl)
  fill_then size o next k (broke x e m lt same fewer) keep go stop enough short =
      rw e (plain, refl, keep same lt, (refl, x, refl, m))
  fill_then size o next k (full e l same fewer less m) keep go stop enough short =
      rw e (go e l same (less short) m)
  fill_then size o next k (closed e b wi b' wi') keep go stop enough short =
      rw e (stop (ap₂ ◌++◌ b wi) (ap₂ ◌++◌ b' wi') b')
  fill_then size o next k (cut e some_left lt) keep go stop enough short =
      absurd (omega (arith, enough some_left))

pub salt_positive : (kind : CipherKind) {n : ℕ} → salt_len kind ≡ some n → 0 < n
unfolding salt_len key_len
salt_positive CipherKind.aes_128_gcm e = omega (arith, some-injective _ _ e)
salt_positive CipherKind.aes_256_gcm e = omega (arith, some-injective _ _ e)
salt_positive _ e = cc

read_exact-eq :
    (size : ℕ) (w : World)
    → 0 < size
    → read_exact size w ≡ filled w (fill size w.reader.buffer w.wire w.arrivals)
unfolding read_exact
read_exact-eq size w positive =
    let nonzero : (size == 0) ≡ false = ground arith in rw (nonzero, read_exact) refl

module _ (p : Primitives) (w : World) where
  pub poll_read_salt-eq :
      (key : Bytes) (size : ℕ)
      → salt_len w.reader.kind ≡ some size
      → 0 < size
      → poll_read_salt p key w
        ≡ (filled w (fill size w.reader.buffer w.wire w.arrivals) >>= take_salt p key size)
  unfolding poll_read_salt
  poll_read_salt-eq key size e positive = rw (e, poll_read_salt, read_exact-eq size w positive) refl

  pub poll_read_length-eq :
      tag_len w.reader.kind ≡ some 16
      → poll_read_length p w
        ≡ (filled w (fill 18 w.reader.buffer w.wire w.arrivals) >>= take_length p 18)
  unfolding poll_read_length
  poll_read_length-eq e = rw (e, poll_read_length, read_exact-eq 18 w (omega arith)) refl

  pub poll_read_data-eq :
      (size : ℕ)
      → tag_len w.reader.kind ≡ some 16
      → poll_read_data p size w ≡ (
          filled w (fill (size + 16) w.reader.buffer w.wire w.arrivals)
          >>= take_data p size (size + 16))
  unfolding poll_read_data
  poll_read_data-eq size e = rw (e, poll_read_data, read_exact-eq (size + 16) w (omega arith)) refl
