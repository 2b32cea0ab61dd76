-- ===== src/Aead/Writer/Wire.antt =====
-- What the stream has taken and what the buffer still holds make up the frames of the chunks.
use roxy.Base.{
  ℕ, zero, suc, ◌+◌, ◌-◌, min, ◌≡◌, ◌≢◌, refl, sym, ap, ◌∙◌, false, Bool-cases, some, List, [], ◌∷◌,
  ◌++◌, append-nil, append_assoc, length, take, drop, replicate, ltb, arith, inl, inr,
  take-append-drop, drop_all, drop-add,
}
use roxy.Base.Bytes.{Bytes, be16}
use roxy.Socks5.{ErrorKind}
use roxy.Crypto.Kind.{tag_len}
use roxy.Crypto.{Primitives, IsAead, Cipher, increase_nonce}
use roxy.Crypto.Seal.{sealed, encrypt-sealed}
use roxy.Aead.Frames.{Poll, pending, panic, ready, fail, frame, frames, after_frame}
use roxy.Aead.Writer.{
  EncryptWriteState, assemble_packet, writing, EncryptedWriter, Answer, later, takes, breaks,
  Written, write_out, after_write, assemble,
}

-- The bytes that the writer has assembled and not yet sent.
abbrev pub unsent_of : EncryptWriteState → Bytes → Bytes
unsent_of assemble_packet buffer = buffer
unsent_of (writing pos) buffer = drop pos buffer

abbrev pub unsent : EncryptedWriter → Bytes
unsent w = unsent_of w.state w.buffer

-- A loop of writes sends a prefix of what was left, and ends well only when nothing is left.
pub record IsPrefixSent (buffer : Bytes) (pos : ℕ) (o : Written) : Type 0 where
  pub split : o.sent ++ drop o.pos buffer ≡ drop pos buffer
  pub complete : o.poll ≡ ready tt → drop o.pos buffer ≡ []

module _ (buffer : Bytes) where
  unsent_kept :
      (pos : ℕ) (xs : List Answer) (o : Poll ErrorKind Unit)
      → o ≢ ready tt
      → IsPrefixSent buffer pos (record { poll = o; pos = pos; sent = []; answers = xs })
  unsent_kept pos xs o h = record { split = refl; complete = λ e. absurd (h e) }

  written_all :
      (pos : ℕ) (xs : List Answer)
      → ltb pos (length buffer) ≡ false
      → IsPrefixSent buffer pos (record { poll = ready tt; pos = pos; sent = []; answers = xs })
  written_all pos xs h = record { split = refl; complete = λ _. drop_all pos buffer (ground arith) }

  IsPrefixSent-more :
      (pos m : ℕ) (o : Written)
      → IsPrefixSent buffer (pos + suc m) o
      → IsPrefixSent buffer pos (record o { sent = take (suc m) (drop pos buffer) ++ o.sent })
  IsPrefixSent-more pos m o h = record {
    split =
        append_assoc (take (suc m) (drop pos buffer)) o.sent (drop o.pos buffer)
        ∙ ap (λ l. take (suc m) (drop pos buffer) ++ l)
            (h.split ∙ sym (drop-add (suc m) pos buffer))
        ∙ take-append-drop (suc m) (drop pos buffer);
    complete = h.complete;
  }

  pub write_out-IsPrefixSent :
      (pos : ℕ) (xs : List Answer) → IsPrefixSent buffer pos (write_out buffer pos xs)
  unfolding write_out
  write_out-IsPrefixSent pos [] = elim (Bool-cases (ltb pos (length buffer))) [
    | inl more ↦ rw (more, write_out) (unsent_kept pos [] pending (λ e. cc))
    | inr done ↦ rw (done, write_out) (written_all pos [] done)
  ]
  write_out-IsPrefixSent pos (later ∷ xs) = elim (Bool-cases (ltb pos (length buffer))) [
    | inr done ↦ rw (done, write_out) (written_all pos (later ∷ xs) done)
    | inl more ↦ rw (more, write_out) (unsent_kept pos xs pending (λ e. cc))
  ]
  write_out-IsPrefixSent pos (breaks x ∷ xs) = elim (Bool-cases (ltb pos (length buffer))) [
    | inr done ↦ rw (done, write_out) (written_all pos (breaks x ∷ xs) done)
    | inl more ↦ rw (more, write_out) (unsent_kept pos xs (fail x) (λ e. cc))
  ]
  write_out-IsPrefixSent pos (takes k ∷ xs) = elim (Bool-cases (ltb pos (length buffer))) [
    | inr done ↦ rw (done, write_out) (written_all pos (takes k ∷ xs) done)
    | inl more ↦
        rw (more, write_out)
          (elim (min k (length buffer - pos))
            as (λ n. IsPrefixSent buffer pos (elim n [
              | zero ↦ record {
                poll = fail ErrorKind.unexpected_eof;
                pos = pos;
                sent = [];
                answers = xs;
              }
              | suc m ↦ record (write_out buffer (pos + suc m) xs) {
                sent = take (suc m) (drop pos buffer) ++ (write_out buffer (pos + suc m) xs).sent;
              }
            ])) [
              | zero ↦ unsent_kept pos xs (fail ErrorKind.unexpected_eof) (λ e. cc)
              | suc m ↦
                  IsPrefixSent-more pos m (write_out buffer (pos + suc m) xs)
                    (write_out-IsPrefixSent (pos + suc m) xs)
            ])
  ]

-- The cipher after the chunks `ds`.
unfoldable pub after_frames : List Bytes → Cipher → Cipher
after_frames [] c = c
after_frames (d ∷ ds) c = after_frames ds (after_frame c)

module _ (p : Primitives) where
  pub frames-snoc :
      (ds : List Bytes) (d : Bytes) (c : Cipher)
      → frames p c (ds ++ (d ∷ [])) ≡ frames p c ds ++ frame p (after_frames ds c) d
  unfolding frames after_frames
  frames-snoc [] d c = append-nil (frame p c d)
  frames-snoc (e ∷ ds) d c =
      ap (λ l. frame p c e ++ l) (frames-snoc ds d (after_frame c))
      ∙ sym (
          append_assoc (frame p c e) (frames p (after_frame c) ds)
            (frame p (after_frames ds (after_frame c)) d))

  -- The writer of a stream that began with `salt` and the cipher `c`, after the chunks `ds` were
  -- assembled and `wire` was taken by the stream.
  pub record HasWritten (salt : Bytes) (c : Cipher) (w : EncryptedWriter) (ds : List Bytes)
      (wire : Bytes) : Type 0 where
    pub bytes : wire ++ unsent w ≡ salt ++ frames p c ds
    pub cipher : w.cipher ≡ after_frames ds c
    pub tag : tag_len w.cipher.kind ≡ some 16

module _ (p : Primitives) (a : IsAead p) (salt : Bytes) (c : Cipher) where
  pub assemble-eq :
      (w : EncryptedWriter) (d : Bytes)
      → tag_len w.cipher.kind ≡ some 16
      → assemble p w d
        ≡ some (record w {
          cipher = after_frame w.cipher;
          buffer =
              (w.buffer ++ sealed p w.cipher (be16 (length d)))
              ++ sealed p (increase_nonce w.cipher) d;
          state = writing 0;
        })
  unfolding assemble
  assemble-eq w d t = rw (
    t,
    encrypt-sealed p a w.cipher (be16 (length d)) (replicate 16 0) refl,
    encrypt-sealed p a (increase_nonce w.cipher) d (replicate 16 0) refl,
  )

  pub after_write-HasWritten :
      (w : EncryptedWriter) (n pos : ℕ) (o : Written) (ds : List Bytes) (wire : Bytes)
      → w.state ≡ writing pos
      → HasWritten p salt c w ds wire
      → IsPrefixSent w.buffer pos o
      → HasWritten p salt c (after_write w n o).writer ds (wire ++ (after_write w n o).sent)
  unfolding after_write
  after_write-HasWritten w n pos o ds wire st h sent = by_poll o.poll refl
    where
      unsent_was : wire ++ drop pos w.buffer ≡ salt ++ frames p c ds
      unsent_was = ap (λ s. wire ++ unsent_of s w.buffer) (sym st) ∙ h.bytes

      split : (wire ++ o.sent) ++ drop o.pos w.buffer ≡ salt ++ frames p c ds
      split =
          append_assoc wire o.sent (drop o.pos w.buffer)
          ∙ ap (λ l. wire ++ l) sent.split
          ∙ unsent_was

      by_poll :
          (q : Poll ErrorKind Unit)
          → o.poll ≡ q
          → HasWritten p salt c (after_write w n o).writer ds (wire ++ (after_write w n o).sent)
      by_poll pending e =
          rw (e, after_write) (record { bytes = split; cipher = h.cipher; tag = h.tag })
      by_poll panic e =
          rw (e, after_write) (record { bytes = split; cipher = h.cipher; tag = h.tag })
      by_poll (fail x) e =
          rw (e, after_write) (record { bytes = split; cipher = h.cipher; tag = h.tag })
      by_poll (ready tt) e =
          rw (e, after_write)
            (record {
              bytes = ap (λ l. (wire ++ o.sent) ++ l) (sym (sent.complete e)) ∙ split;
              cipher = h.cipher;
              tag = h.tag;
            })
