-- ===== src/Aead/Reader/ChunkRounds.antt =====
-- The rounds of the loop that read the length and the data of a chunk.
use mathlib.Core.Path.{subst}
use roxy.Base.{
  ℕ, suc, ◌+◌, ◌≤◌, ◌<◌, ◌≡◌, refl, sym, ap, ◌∙◌, List, [], ◌∷◌, ◌++◌, append_assoc, length, arith,
  length-append, split_same,
}
use roxy.Base.Bytes.{Bytes, be16}
use roxy.Crypto.{Primitives, IsAead, increase_nonce}
use roxy.Crypto.Seal.{sealed, length-sealed}
use roxy.Aead.Frames.{Fit, concat, frame, frames}
use roxy.Aead.Reader.{
  read_length, read_data, buffered_data, World, with_reader, Filled, filled, fill, ◌>>=◌,
  take_length, take_data,
}
use roxy.Aead.Reader.Fill.{Reads, fill-Reads}
use roxy.Aead.Reader.Opens.{take_length-eq, take_data-eq}
use roxy.Aead.Reader.Owes.{ahead, OwesLength, OwesData, OwesIn, Owes, TurnOwes}
use roxy.Aead.Reader.Steps.{refilled, fill_then, poll_read_length-eq, poll_read_data-eq}
use roxy.Aead.Reader.Loop.{again, or_return, after_length, turn}

module _ (p : Primitives) (a : IsAead p) (room : ℕ) (w : World) (plain : Bytes) where
  pub turn-read_length :
      w.reader.state ≡ read_length
      → OwesLength p w plain
      → TurnOwes p room w plain (turn p room read_length w)
  unfolding turn frames frame
  turn-read_length st h =
      subst (λ x. TurnOwes p room w plain (or_return x after_length))
        (sym (poll_read_length-eq p w h.tag)) (by_chunks h.chunks h.bytes h.fit h.text)
    where
      o : Filled
      o = fill 18 w.reader.buffer w.wire w.arrivals

      kept : ahead (refilled w o) ≡ ahead w → length o.buffer < 18 → Owes p (refilled w o) plain
      kept same lt =
          subst (λ s. OwesIn p s (refilled w o) plain) (sym st)
            (record {
              cipher = h.cipher;
              chunks = h.chunks;
              cipher_is = h.cipher_is;
              tag = h.tag;
              bytes = same ∙ h.bytes;
              fit = h.fit;
              text = h.text;
              short = lt;
            })

      reads : Reads 18 w.reader.buffer w.wire w.arrivals o
      reads = fill-Reads 18 w.reader.buffer w.wire w.arrivals (omega (arith, h.short))

      by_chunks :
          (ds : List Bytes)
          → ahead w ≡ frames p h.cipher ds
          → Fit ds
          → plain ≡ concat ds
          → TurnOwes p room w plain (or_return (filled w o >>= take_length p 18) after_length)
      by_chunks [] bytes fit text =
          fill_then p a room w plain 18 o (take_length p 18) after_length reads kept
            (λ e l same less m.
              absurd
                (omega (arith, l, length-append o.buffer o.wire, ap length same, ap length bytes)))
            (λ none_left none_now empty. (
              plain,
              refl,
              kept (none_now ∙ sym none_left) (omega (arith, ap length empty)),
              λ _ _. (text, none_now),
            ))
            (λ some_left. absurd (omega (arith, some_left, ap length bytes))) h.short
      by_chunks (d ∷ ds) bytes fit text =
          let c = h.cipher in
          let rest =
            sealed p (increase_nonce c) d ++ frames p (increase_nonce (increase_nonce c)) ds in
          let parts : ahead w ≡ sealed p c (be16 (length d)) ++ rest =
            bytes ∙ append_assoc (sealed p c (be16 (length d))) (sealed p (increase_nonce c) d) _ in
          let len = length-sealed p a c (be16 (length d)) in
          let enough : 18 ≤ length (ahead w) =
            omega
              (arith, ap length parts, length-append (sealed p c (be16 (length d))) rest, len) in
          fill_then p a room w plain 18 o (take_length p 18) after_length reads kept
            (λ e l same less m.
              let (b, behind) =
                split_same o.buffer o.wire (sealed p c (be16 (length d))) rest (same ∙ parts)
                  (omega (arith, l, len)) in
              subst (λ x. TurnOwes p room w plain (or_return x after_length))
                (sym (take_length-eq p a (refilled w o) c 18 17 d refl h.cipher_is b fit.0))
                (
                  record {
                    cipher = increase_nonce c;
                    chunk = d;
                    chunks = ds;
                    cipher_is = refl;
                    tag = h.tag;
                    size_is = refl;
                    bytes = behind;
                    fit = fit.1;
                    text = text;
                    short = omega arith;
                  },
                  omega (arith, less),
                  m,
                ))
            (λ none_left _ _. absurd (omega (arith, enough, ap length none_left))) (λ _. enough)
            h.short

  pub turn-read_data :
      (size : ℕ)
      → w.reader.state ≡ read_data size
      → OwesData p size w plain
      → TurnOwes p room w plain (turn p room (read_data size) w)
  unfolding turn
  turn-read_data size st h =
      let o = fill (size + 16) w.reader.buffer w.wire w.arrivals in
      let text = sealed p h.cipher h.chunk in
      let rest = frames p (increase_nonce h.cipher) h.chunks in
      let len = length-sealed p a h.cipher h.chunk in
      let enough : size + 16 ≤ length (ahead w) =
        omega (arith, ap length h.bytes, length-append text rest, len, h.size_is) in
      let next = λ (_ : Unit) (w' : World).
        again (with_reader w' (record w'.reader { state = buffered_data 0 })) in
      subst (λ x. TurnOwes p room w plain (or_return x next))
        (sym (poll_read_data-eq p w size h.tag))
        (fill_then p a room w plain (size + 16) o (take_data p size (size + 16)) next
          (fill-Reads (size + 16) w.reader.buffer w.wire w.arrivals (omega (arith, h.short)))
          (λ same lt.
            subst (λ s. OwesIn p s (refilled w o) plain) (sym st)
              (record {
                cipher = h.cipher;
                chunk = h.chunk;
                chunks = h.chunks;
                cipher_is = h.cipher_is;
                tag = h.tag;
                size_is = h.size_is;
                bytes = same ∙ h.bytes;
                fit = h.fit;
                text = h.text;
                short = lt;
              }))
          (λ e l same less m.
            let (b, behind) =
              split_same o.buffer o.wire text rest (same ∙ h.bytes)
                (omega (arith, l, len, h.size_is)) in
            let more : size + 16 ≡ suc (size + 15) = omega arith in
            let opened =
              ap (λ n. take_data p size (size + 16) n (refilled w o)) more
              ∙ take_data-eq p a (refilled w o) h.cipher size (size + 15) h.chunk h.size_is
                  h.cipher_is b in
            subst (λ x. TurnOwes p room w plain (or_return x next)) (sym opened)
              (
                record {
                  cipher = increase_nonce h.cipher;
                  chunks = h.chunks;
                  cipher_is = refl;
                  tag = h.tag;
                  bytes = behind;
                  fit = h.fit;
                  text = h.text;
                },
                omega (arith, less),
                m,
              ))
          (λ none_left _ _. absurd (omega (arith, enough, ap length none_left))) (λ _. enough)
          h.short)
