-- ===== src/Copy/Tests.antt =====
-- A short text that is copied in pieces.
use roxy.Base.{◌≡◌, refl, inl, false, some, List, [], ◌∷◌, arith}
use roxy.Base.Bytes.{Bytes}
use roxy.Crypto.Kind.{CipherKind}
use roxy.Aead.Frames.{ready}
use roxy.Aead.Writer.{Answer}
use roxy.Aead.Reader.{Arrival}
use roxy.Copy.{World, Wake, Flush, poll_copy, copy_to_encrypted}
use roxy.Copy.Kept.{Copying}
use roxy.Copy.Turns.{Polled}
use roxy.Copy.Whole.{copy_to_encrypted-Polled}
use roxy.Copy.Finish.{IsServed, poll_copy_finishes}

abbrev text : Bytes
text = 1 ∷ 2 ∷ 3 ∷ []

-- The reader gives two bytes, the writer takes one; then the rest.
abbrev wakes : List Wake
wakes =
    record {
      arrivals = Arrival.arrived 1 ∷ [];
      answers = Answer.takes 1 ∷ Answer.later ∷ [];
      flush = Flush.later;
    }
    ∷ record {
      arrivals = Arrival.arrived 9 ∷ Arrival.arrived 0 ∷ [];
      answers = Answer.takes 5 ∷ Answer.takes 5 ∷ [];
      flush = Flush.flushes;
    }
    ∷ []

copy_to_encrypted-Polled_example : Polled text (copy_to_encrypted CipherKind.aes_128_gcm text wakes)
copy_to_encrypted-Polled_example = copy_to_encrypted-Polled CipherKind.aes_128_gcm text wakes

abbrev world : World
world = record {
  copy = record { read_done = false; pos = 0; cap = 0; amt = 0; buf = 0 ∷ 0 ∷ [] };
  source = text;
  arrivals = Arrival.arrived 0 ∷ Arrival.arrived 5 ∷ Arrival.arrived 5 ∷ Arrival.arrived 5 ∷ [];
  answers = Answer.takes 1 ∷ Answer.takes 1 ∷ Answer.takes 7 ∷ [];
  sent = [];
}

world-Copying : Copying text world
world-Copying = record {
  bytes = refl;
  counted = refl;
  inside = (omega arith, omega arith);
  room = omega arith;
  ended = λ q. cc;
}

world-IsServed : IsServed world
world-IsServed = record {
  arrive = tt;
  taken = (omega arith, (omega arith, (omega arith, tt)));
  reads = inl (omega arith);
  writes = omega arith;
  room = omega arith;
}

poll_copy_finishes_example :
    (v : World) × (poll_copy Flush.flushes world ≡ some (ready 3, v)) × (v.sent ≡ text)
poll_copy_finishes_example = poll_copy_finishes text world world-Copying world-IsServed
