-- ===== src/Copy/Whole.antt =====
-- A copy that is woken again and again.
use roxy.Base.{length-replicate, ℕ, ◌<◌, ◌≡◌, refl, some, List, [], ◌∷◌, arith}
use roxy.Base.Bytes.{Bytes}
use roxy.Socks5.{ErrorKind}
use roxy.Aead.Frames.{Poll, pending, panic, ready, fail}
use roxy.Crypto.Kind.{CipherKind}
use roxy.Copy.{Wake, copy, start, copy_to_encrypted, size_to_encrypted, new, World, poll_copy}
use roxy.Copy.Kept.{Copying, Ends}
use roxy.Copy.Turns.{Polled, poll_copy-Polled}

copy-Polled : (text : Bytes) (xs : List Wake) (w : World) → Copying text w → Polled text (copy xs w)
unfolding copy
copy-Polled text [] w k = record { poll = pending; world = w; is = refl; copying = k; ends = tt }
copy-Polled text (x ∷ xs) w k =
    let r =
      poll_copy-Polled text x.flush (record w { arrivals = x.arrivals; answers = x.answers }) k in
    by_poll r.poll r.world r.is r.copying r.ends (copy-Polled text xs r.world r.copying)
  where
    by_poll :
        (p : Poll ErrorKind ℕ) (v : World)
        → poll_copy x.flush (record w { arrivals = x.arrivals; answers = x.answers }) ≡ some (p, v)
        → Copying text v
        → Ends text p v
        → Polled text (copy xs v)
        → Polled text (copy (x ∷ xs) w)
    by_poll pending v e c h rest = record {
      poll = rest.poll;
      world = rest.world;
      is = rw (e, copy) rest.is;
      copying = rest.copying;
      ends = rest.ends;
    }
    by_poll panic v e c h rest = cc
    by_poll (fail x') v e c h rest = record {
      poll = fail x';
      world = v;
      is = rw (e, copy) refl;
      copying = c;
      ends = h;
    }
    by_poll (ready n) v e c h rest = record {
      poll = ready n;
      world = v;
      is = rw (e, copy) refl;
      copying = c;
      ends = h;
    }

-- A new buffer with some room copies what the reader gives.
new-Copying : (size : ℕ) (text : Bytes) → 0 < size → Copying text (start size text)
unfolding new
new-Copying size text h = record {
  bytes = refl;
  counted = refl;
  inside = (omega arith, omega arith);
  room = omega (arith, h, length-replicate {A = ℕ} size 0);
  ended = λ q. cc;
}

size_pos : (kind : CipherKind) → 0 < size_to_encrypted kind
unfolding size_to_encrypted
size_pos CipherKind.aes_128_gcm = omega arith
size_pos CipherKind.aes_256_gcm = omega arith
size_pos CipherKind.aead2022_blake3_aes_128_gcm = omega arith
size_pos CipherKind.aead2022_blake3_aes_256_gcm = omega arith
size_pos CipherKind.aead2022_blake3_chacha20_poly1305 = omega arith
size_pos CipherKind.aead2022_blake3_chacha8_poly1305 = omega arith

-- Woken any number of times, whatever the reader, the writer and its flush answer, a copy to an
-- encrypted stream does not panic; what the writer took, the buffer and what the reader has yet to
-- give stay the text in order, `amt` counts what the writer took modulo 2^64, and a copy that is ready
-- has copied the whole text and returns its length modulo 2^64.
pub copy_to_encrypted-Polled :
    (kind : CipherKind) (text : Bytes) (wakes : List Wake)
    → Polled text (copy_to_encrypted kind text wakes)
unfolding copy_to_encrypted
copy_to_encrypted-Polled kind text wakes =
    copy-Polled text wakes (start (size_to_encrypted kind) text)
      (new-Copying (size_to_encrypted kind) text (size_pos kind))
