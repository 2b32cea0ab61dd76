-- ===== src/Aead/Reader/Rounds.antt =====
-- One round of the loop, in each state of the reader.
use roxy.Base.{
  ℕ, ◌+◌, ◌-◌, min, ◌≡◌, refl, sym, ap, ◌∙◌, Bool-cases, inl, inr, ◌++◌, append_assoc, length, take,
  drop, ltb, arith, length-take, length-drop, drop-add, take-append-drop, drop_all,
}
use roxy.Base.Bytes.{Bytes}
use roxy.Crypto.{Primitives, IsAead}
use roxy.Aead.Frames.{concat}
use roxy.Aead.Reader.{DecryptReadState, wait_salt, read_length, read_data, buffered_data, World}
use roxy.Aead.Reader.Owes.{OwesBuffered, OwesIn, Owes, weight, TurnOwes}
use roxy.Aead.Reader.Loop.{turn}
use roxy.Aead.Reader.SaltRound.{turn-wait_salt}
use roxy.Aead.Reader.ChunkRounds.{turn-read_length, turn-read_data}

module _ (p : Primitives) (a : IsAead p) (room : ℕ) (w : World) (plain : Bytes) where
  turn-buffered_data :
      (pos : ℕ)
      → w.reader.state ≡ buffered_data pos
      → OwesBuffered p pos w plain
      → TurnOwes p room w plain (turn p room (buffered_data pos) w)
  unfolding turn
  turn-buffered_data pos st h = elim (Bool-cases (ltb pos (length buffer))) [
    | inr done ↦
        rw (done, turn)
          (
            record {
              cipher = h.cipher;
              chunks = h.chunks;
              cipher_is = h.cipher_is;
              tag = h.tag;
              bytes = h.bytes;
              fit = h.fit;
              text = h.text ∙ ap (λ l. l ++ concat h.chunks) (drop_all pos buffer (ground arith));
              short = omega arith;
            },
            omega (arith, ap weight st),
            λ e m. m,
          )
    | inl more ↦
        let n = min (length buffer - pos) room in
        let out = take n (drop pos buffer) in
        let len : length out ≡ min n (length buffer - pos) =
          length-take n (drop pos buffer) ∙ ap (min n) (length-drop pos buffer) in
        rw (more, turn)
          (
            drop (pos + n) buffer ++ concat h.chunks,
            h.text
                ∙ ap (λ l. l ++ concat h.chunks)
                    (sym (take-append-drop n (drop pos buffer))
                      ∙ ap (λ l. out ++ l) (drop-add n pos buffer))
                ∙ append_assoc out (drop (pos + n) buffer) (concat h.chunks),
            record {
              cipher = h.cipher;
              chunks = h.chunks;
              cipher_is = h.cipher_is;
              tag = h.tag;
              bytes = h.bytes;
              fit = h.fit;
              text = refl;
            },
            λ some_room nothing. absurd (ground (arith, len, ap length nothing)),
          )
  ]
    where
      buffer : Bytes
      buffer = w.reader.buffer

module _ (p : Primitives) (a : IsAead p) (room : ℕ) where
  -- Every round of the loop, whatever the state.
  pub turn-TurnOwes :
      (w : World) (plain : Bytes)
      → Owes p w plain
      → TurnOwes p room w plain (turn p room w.reader.state w)
  turn-TurnOwes w plain h = by_state w.reader.state refl h
    where
      by_state :
          (s : DecryptReadState)
          → w.reader.state ≡ s
          → OwesIn p s w plain
          → TurnOwes p room w plain (turn p room s w)
      by_state (wait_salt key) e h = turn-wait_salt p a room w plain key e h
      by_state read_length e h = turn-read_length p a room w plain e h
      by_state (read_data size) e h = turn-read_data p a room w plain size e h
      by_state (buffered_data pos) e h = turn-buffered_data p a room w plain pos e h
