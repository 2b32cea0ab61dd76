-- ===== src/Aead/Reader/SaltRound.antt =====
-- The round of the loop that reads the salt.
use mathlib.Core.Path.{subst}
use roxy.Base.{ℕ, ◌≤◌, ◌≡◌, refl, sym, ap, ◌∙◌, true, length, arith, length-append, split_same}
use roxy.Base.Bytes.{Bytes}
use roxy.Crypto.{Primitives, IsAead}
use roxy.Crypto.Fresh.{new-IsFresh}
use roxy.Aead.Frames.{frames}
use roxy.Aead.Reader.{wait_salt, World, fill, take_salt}
use roxy.Aead.Reader.Fill.{fill-Reads}
use roxy.Aead.Reader.Opens.{take_salt-eq}
use roxy.Aead.Reader.Owes.{ahead, OwesSalt, OwesIn, TurnOwes}
use roxy.Aead.Reader.Steps.{refilled, fill_then, salt_positive, poll_read_salt-eq}
use roxy.Aead.Reader.Loop.{again, or_return, start_length, turn}

module _ (p : Primitives) (a : IsAead p) (room : ℕ) (w : World) (plain : Bytes) where
  pub turn-wait_salt :
      (key : Bytes)
      → w.reader.state ≡ wait_salt key
      → OwesSalt p key w plain
      → TurnOwes p room w plain (turn p room (wait_salt key) w)
  unfolding turn
  turn-wait_salt key st h =
      let size = length h.salt in
      let o = fill size w.reader.buffer w.wire w.arrivals in
      let positive = salt_positive w.reader.kind h.size in
      let enough : size ≤ length (ahead w) =
        omega (arith, ap length h.bytes, length-append h.salt (frames p h.cipher h.chunks)) in
      subst (λ x. TurnOwes p room w plain (or_return x (λ _ w'. again (start_length true w'))))
        (sym (poll_read_salt-eq p w key size h.size positive))
        (fill_then p a room w plain size o (take_salt p key size) _
          (fill-Reads size w.reader.buffer w.wire w.arrivals (omega (arith, h.short)))
          (λ same lt.
            subst (λ s. OwesIn p s (refilled w o) plain) (sym st)
              (record {
                salt = h.salt;
                cipher = h.cipher;
                chunks = h.chunks;
                size = h.size;
                made = h.made;
                bytes = same ∙ h.bytes;
                fit = h.fit;
                text = h.text;
                short = lt;
              }))
          (λ e l same less m.
            let (b, rest) = split_same o.buffer o.wire h.salt _ (same ∙ h.bytes) l in
            subst
              (λ x. TurnOwes p room w plain (or_return x (λ _ w'. again (start_length true w'))))
              (sym (take_salt-eq p a (refilled w o) h.cipher key h.salt size refl b h.made))
              (
                record {
                  cipher = h.cipher;
                  chunks = h.chunks;
                  cipher_is = refl;
                  tag = (new-IsFresh p key h.salt w.reader.kind h.made).tag;
                  bytes = rest;
                  fit = h.fit;
                  text = h.text;
                  short = omega arith;
                },
                omega (arith, less),
                m,
              ))
          (λ none_left _ _. absurd (omega (arith, enough, ap length none_left, positive)))
          (λ _. enough) h.short)
