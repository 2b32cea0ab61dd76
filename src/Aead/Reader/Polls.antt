-- ===== src/Aead/Reader/Polls.antt =====
-- A poll of a reader, and any sequence of them.
use roxy.Base.{
  ℕ, zero, suc, ◌+◌, ◌*◌, ◌≤◌, ◌<◌, ◌≡◌, refl, sym, ap, ◌∙◌, Option, some, List, [], ◌∷◌, ◌++◌,
  append_assoc, length, arith,
}
use roxy.Base.Options.{◌>>=◌}
use roxy.Base.Bytes.{Bytes}
use roxy.Socks5.{ErrorKind}
use roxy.Crypto.Kind.{CipherKind, salt_len}
use roxy.Crypto.{Primitives, IsAead, Cipher}
use roxy.Crypto
use roxy.Aead.Frames.{Fit, concat, Poll, pending, panic, ready, fail, ProtocolError, frames}
use roxy.Aead.Reader.{
  Arrival, World, new, DecryptReadState, wait_salt, read_length, read_data, buffered_data,
}
use roxy.Aead.Reader.Fill.{Broke}
use roxy.Aead.Reader.Owes.{Owes, OwesIn, Ends, left, weight, TurnOwes}
use roxy.Aead.Reader.Loop.{Turn, again, return, turn, rounds, poll_read_decrypted}
use roxy.Aead.Reader.Rounds.{turn-TurnOwes}

-- A poll that ends as `Ends` says, and owes the rest of the bytes.
pub record Delivers (p : Primitives) (room : ℕ) (w : World) (plain : Bytes)
    (found : Option (Poll ProtocolError Unit × Bytes × World)) : Type 0 where
  pub poll : Poll ProtocolError Unit
  pub out : Bytes
  pub world : World
  pub rest : Bytes
  pub is : found ≡ some (poll, out, world)
  pub text : plain ≡ out ++ rest
  pub owes : Owes p world rest
  pub ends : Ends room w poll out rest world

-- The errors of the stream in a later round are errors of the stream.
Ends-earlier :
    (room : ℕ) (w w1 : World) (poll : Poll ProtocolError Unit) (out rest : Bytes) (w' : World)
    → ((e : ErrorKind) → Broke e w1.arrivals → Broke e w.arrivals)
    → Ends room w1 poll out rest w'
    → Ends room w poll out rest w'
Ends-earlier room w w1 pending out rest w' m h = h
Ends-earlier room w w1 panic out rest w' m h = h
Ends-earlier room w w1 (fail e) out rest w' m h =
    let (nothing, k, is, b) = h in (nothing, k, is, m k b)
Ends-earlier room w w1 (ready _) out rest w' m h = h

weight-le : (s : DecryptReadState) → weight s ≤ 1
weight-le (wait_salt key) = omega arith
weight-le read_length = omega arith
weight-le (read_data size) = omega arith
weight-le (buffered_data pos) = omega arith

module _ (p : Primitives) (a : IsAead p) (room : ℕ) where
  rounds-Delivers :
      (fuel : ℕ) (w : World) (plain : Bytes)
      → left w < fuel
      → Owes p w plain
      → Delivers p room w plain (rounds p fuel room w)
  unfolding rounds
  rounds-Delivers zero w plain lt h = absurd (omega (arith, lt))
  rounds-Delivers (suc fuel) w plain lt h =
      by_turn (λ w'. rounds-Delivers fuel w' plain) (turn p room w.reader.state w)
        (turn-TurnOwes p a room w plain h)
    where
      by_turn :
          ((w' : World)
            → left w' < fuel
            → Owes p w' plain
            → Delivers p room w' plain (rounds p fuel room w'))
          → (t : Turn) → TurnOwes p room w plain t
          → Delivers p room w plain (elim t [
            | return poll out w' ↦ some (poll, out, w')
            | again w' ↦ rounds p fuel room w'
          ])
      by_turn later_rounds (return poll out w') (rest, text, owes, ends) = record {
        poll = poll;
        out = out;
        world = w';
        rest = rest;
        is = refl;
        text = text;
        owes = owes;
        ends = ends;
      }
      by_turn later_rounds (again w') (owes, closer, m) =
          let d = later_rounds w' (omega (arith, lt, closer)) owes in
          record {
            poll = d.poll;
            out = d.out;
            world = d.world;
            rest = d.rest;
            is = d.is;
            text = d.text;
            owes = d.owes;
            ends = Ends-earlier room w w' d.poll d.out d.rest d.world m d.ends;
          }

  -- A reader that owes the bytes `plain` always comes to the end of a poll, without a panic and
  -- without an error of decryption: it delivers the first of those bytes and owes the others. It
  -- is pending, or fails with an error of the stream, and then delivers nothing; or it ends well,
  -- and if it then delivers nothing though there was room, nothing is owed and the stream has ended.
  pub poll_read_decrypted-Delivers :
      (w : World) (plain : Bytes)
      → Owes p w plain
      → Delivers p room w plain (poll_read_decrypted p room w)
  unfolding poll_read_decrypted
  poll_read_decrypted-Delivers w plain h =
      rounds-Delivers (2 * length w.arrivals + 2) w plain (omega (arith, weight-le w.reader.state))
        h

-- Polls one after the other, each with its room and the answers of the stream: the bytes delivered.
unfoldable pub read_all : Primitives → World → List (ℕ × List Arrival) → Option (Bytes × World)
read_all p w [] = some ([], w)
read_all p w ((room, arrivals) ∷ calls) = do
  (_, out, w1) ← poll_read_decrypted p room (record w { arrivals = arrivals })
  (more, w2) ← read_all p w1 calls
  some (out ++ more, w2)

-- A reader with the writer's key, in front of what the writer's stream took.
abbrev pub start : CipherKind → Bytes → Bytes → World
start kind key wire = record { reader = new kind key; wire = wire; arrivals = [] }

module _ (p : Primitives) (a : IsAead p) where
  -- The answers of the stream do not change what is owed.
  Owes-arrivals :
      (w : World) (plain : Bytes) (arrivals : List Arrival)
      → Owes p w plain
      → Owes p (record w { arrivals = arrivals }) plain
  Owes-arrivals w plain arrivals h = by_state w.reader.state h
    where
      w' : World
      w' = record w { arrivals = arrivals }

      by_state : (s : DecryptReadState) → OwesIn p s w plain → OwesIn p s w' plain
      by_state (wait_salt key) h = record {
        salt = h.salt;
        cipher = h.cipher;
        chunks = h.chunks;
        size = h.size;
        made = h.made;
        bytes = h.bytes;
        fit = h.fit;
        text = h.text;
        short = h.short;
      }
      by_state read_length h = record {
        cipher = h.cipher;
        chunks = h.chunks;
        cipher_is = h.cipher_is;
        tag = h.tag;
        bytes = h.bytes;
        fit = h.fit;
        text = h.text;
        short = h.short;
      }
      by_state (read_data size) h = record {
        cipher = h.cipher;
        chunk = h.chunk;
        chunks = h.chunks;
        cipher_is = h.cipher_is;
        tag = h.tag;
        size_is = h.size_is;
        bytes = h.bytes;
        fit = h.fit;
        text = h.text;
        short = h.short;
      }
      by_state (buffered_data pos) h = record {
        cipher = h.cipher;
        chunks = h.chunks;
        cipher_is = h.cipher_is;
        tag = h.tag;
        bytes = h.bytes;
        fit = h.fit;
        text = h.text;
      }

  pub read_all-Owes :
      (calls : List (ℕ × List Arrival)) (w : World) (plain : Bytes)
      → Owes p w plain
      → (out : Bytes) × (w' : World) × (rest : Bytes) × (read_all p w calls ≡ some (out, w'))
        × (plain ≡ out ++ rest)
        × Owes p w' rest
  unfolding read_all
  read_all-Owes [] w plain h = ([], w, plain, refl, refl, h)
  read_all-Owes ((room, arrivals) ∷ calls) w plain h =
      let d =
        poll_read_decrypted-Delivers p a room (record w { arrivals = arrivals }) plain
          (Owes-arrivals w plain arrivals h) in
      let (more, w', rest, ran, text, owes) = read_all-Owes calls d.world d.rest d.owes in
      (
        d.out ++ more,
        w',
        rest,
        rw (d.is, read_all, ran) refl,
        d.text ∙ ap (λ l. d.out ++ l) text ∙ sym (append_assoc d.out more rest),
        owes,
      )

module _ (p : Primitives) where
  pub start-Owes :
      (kind : CipherKind) (key salt : Bytes) (c : Cipher) (ds : List Bytes) (wire : Bytes)
      → Crypto.new p kind key salt ≡ some c
      → salt_len kind ≡ some (length salt)
      → 0 < length salt
      → Fit ds
      → wire ≡ salt ++ frames p c ds
      → Owes p (start kind key wire) (concat ds)
  unfolding new
  start-Owes kind key salt c ds wire made size positive fit bytes = record {
    salt = salt;
    cipher = c;
    chunks = ds;
    size = size;
    made = made;
    bytes = bytes;
    fit = fit;
    text = refl;
    short = positive;
  }
