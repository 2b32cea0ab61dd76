-- ===== src/Aead/Writer/Session.antt =====
-- Any sequence of polls of a writer: what reaches the wire.
use mathlib.Core.Option.{some-injective}
use mathlib.Core.Path.{subst}
use roxy.Base.{
  ◌≡◌, refl, sym, ap, ◌∙◌, Option, none, some, List, [], ◌∷◌, ◌++◌, append-nil, append_assoc,
  length, take, arith, length-take,
}
use roxy.Base.Bytes.{Bytes, be16}
use roxy.Crypto.Kind.{CipherKind, tag_len}
use roxy.Crypto.{Primitives, IsAead, Cipher, increase_nonce, nonce_size}
use roxy.Crypto
use roxy.Crypto.Fresh.{new-IsFresh}
use roxy.Crypto.Seal.{sealed}
use roxy.Aead.Frames.{max_packet_size, Fit, frame, frames, after_frame}
use roxy.Aead.Writer.{
  EncryptWriteState, assemble_packet, writing, EncryptedWriter, Answer, write_out, Polled,
  after_write, assemble, new, poll_state, poll_write_encrypted,
}
use roxy.Aead.Writer.Wire.{
  unsent, unsent_of, HasWritten, after_frames, frames-snoc, assemble-eq, write_out-IsPrefixSent,
  after_write-HasWritten,
}

-- The chunk that a poll with `buf` assembles: none, where one is still being written.
abbrev pub assembled : EncryptWriteState → Bytes → List Bytes
assembled assemble_packet buf = take max_packet_size buf ∷ []
assembled (writing _) buf = []

after_frames-snoc :
    (ds : List Bytes) (d : Bytes) (c : Cipher)
    → after_frames (ds ++ (d ∷ [])) c ≡ after_frame (after_frames ds c)
unfolding after_frames
after_frames-snoc [] d c = refl
after_frames-snoc (e ∷ ds) d c = after_frames-snoc ds d (after_frame c)

module _ (p : Primitives) (a : IsAead p) (salt : Bytes) (c : Cipher) where
  assembled-HasWritten :
      (w : EncryptedWriter) (ds : List Bytes) (wire d : Bytes)
      → w.state ≡ assemble_packet
      → HasWritten p salt c w ds wire
      → (w' : EncryptedWriter) × (assemble p w d ≡ some w')
        × (w'.state ≡ writing 0)
        × HasWritten p salt c w' (ds ++ (d ∷ [])) wire
  unfolding increase_nonce
  assembled-HasWritten w ds wire d st h =
      let one = sealed p w.cipher (be16 (length d)) in
      let two = sealed p (increase_nonce w.cipher) d in
      let unsent_was : wire ++ w.buffer ≡ salt ++ frames p c ds =
        ap (λ s. wire ++ unsent_of s w.buffer) (sym st) ∙ h.bytes in
      let chunk : one ++ two ≡ frame p (after_frames ds c) d =
        unfold frame in ap (λ k. frame p k d) h.cipher in
      (
        record w {
          cipher = after_frame w.cipher;
          buffer = (w.buffer ++ one) ++ two;
          state = writing 0;
        },
        assemble-eq p a salt c w d h.tag,
        refl,
        record {
          bytes =
              ap (λ l. wire ++ l) (append_assoc w.buffer one two)
              ∙ sym (append_assoc wire w.buffer (one ++ two))
              ∙ ap (λ l. l ++ (one ++ two)) unsent_was
              ∙ append_assoc salt (frames p c ds) (one ++ two)
              ∙ ap (λ l. salt ++ (frames p c ds ++ l)) chunk
              ∙ ap (λ l. salt ++ l) (sym (frames-snoc p ds d c));
          cipher = ap after_frame h.cipher ∙ sym (after_frames-snoc ds d c);
          tag = h.tag;
        },
      )

  -- Whatever the stream answers, a poll does not panic; it assembles a chunk exactly when none is
  -- being written, and the wire and the unsent bytes stay the salt and the frames of the chunks.
  pub poll-HasWritten :
      (w : EncryptedWriter) (ds : List Bytes) (wire buf : Bytes) (answers : List Answer)
      → HasWritten p salt c w ds wire
      → (o : Polled) × (poll_write_encrypted p w buf answers ≡ some o)
        × HasWritten p salt c o.writer (ds ++ assembled w.state buf) (wire ++ o.sent)
  unfolding poll_write_encrypted poll_state
  poll-HasWritten w ds wire buf answers h = by_state w.state refl
    where
      d : Bytes
      d = take max_packet_size buf

      by_state :
          (s : EncryptWriteState)
          → w.state ≡ s
          → (o : Polled) × (poll_state p s w d answers ≡ some o)
            × HasWritten p salt c o.writer (ds ++ assembled s buf) (wire ++ o.sent)
      by_state assemble_packet e =
          let (w', assembled_eq, st, h') = assembled-HasWritten w ds wire d e h in
          (
            after_write w' (length d) (write_out w'.buffer 0 answers),
            rw assembled_eq,
            after_write-HasWritten p a salt c w' (length d) 0 (write_out w'.buffer 0 answers)
                (ds ++ (d ∷ [])) wire st h' (write_out-IsPrefixSent w'.buffer 0 answers),
          )
      by_state (writing pos) e = (
        after_write w (length d) (write_out w.buffer pos answers),
        refl,
        subst
            (λ l.
              HasWritten p salt c (after_write w (length d) (write_out w.buffer pos answers)).writer
                l (wire ++ (after_write w (length d) (write_out w.buffer pos answers)).sent))
            (sym (append-nil ds))
            (after_write-HasWritten p a salt c w (length d) pos (write_out w.buffer pos answers) ds
              wire e h (write_out-IsPrefixSent w.buffer pos answers)),
      )

-- Polls one after the other, each with its buffer and the answers of the stream: the writer at the
-- end, and all that the stream took.
unfoldable pub run :
    Primitives → EncryptedWriter → List (Bytes × List Answer) → Option (EncryptedWriter × Bytes)
run p w [] = some (w, [])
run p w ((buf, answers) ∷ calls) = elim (poll_write_encrypted p w buf answers) [
  | none ↦ none
  | some o ↦ elim (run p o.writer calls) [
    | none ↦ none
    | some (w', wire) ↦ some (w', o.sent ++ wire)
  ]
]

-- The chunks of those polls: the front of each buffer that met a writer with nothing left to write.
unfoldable pub chunks : Primitives → EncryptedWriter → List (Bytes × List Answer) → List Bytes
chunks p w [] = []
chunks p w ((buf, answers) ∷ calls) =
    assembled w.state buf
    ++ elim (poll_write_encrypted p w buf answers) [ none ↦ [] | some o ↦ chunks p o.writer calls ]

Fit-append : (ds es : List Bytes) → Fit ds → Fit es → Fit (ds ++ es)
Fit-append [] es f g = g
Fit-append (d ∷ ds) es f g = (f.0, Fit-append ds es f.1 g)

Fit-assembled : (s : EncryptWriteState) (buf : Bytes) → Fit (assembled s buf)
Fit-assembled assemble_packet buf = (omega (arith, length-take max_packet_size buf), tt)
Fit-assembled (writing pos) buf = tt

Fit-chunks :
    (p : Primitives) (w : EncryptedWriter) (calls : List (Bytes × List Answer))
    → Fit (chunks p w calls)
unfolding chunks
Fit-chunks p w [] = tt
Fit-chunks p w ((buf, answers) ∷ calls) =
    Fit-append (assembled w.state buf) _ (Fit-assembled w.state buf)
      (elim (poll_write_encrypted p w buf answers)
        as (λ x. Fit (elim x [ none ↦ [] | some o ↦ chunks p o.writer calls ])) [
          | none ↦ tt
          | some o ↦ Fit-chunks p o.writer calls
        ])

module _ (p : Primitives) (a : IsAead p) (salt : Bytes) (c : Cipher) where
  run-HasWritten :
      (calls : List (Bytes × List Answer)) (w : EncryptedWriter) (ds : List Bytes) (wire : Bytes)
      → HasWritten p salt c w ds wire
      → (w' : EncryptedWriter) × (more : Bytes) × (run p w calls ≡ some (w', more))
        × HasWritten p salt c w' (ds ++ chunks p w calls) (wire ++ more)
  unfolding run chunks
  run-HasWritten [] w ds wire h = (
    w,
    [],
    refl,
    subst (λ l. HasWritten p salt c w l (wire ++ [])) (sym (append-nil ds))
        (subst (HasWritten p salt c w ds) (sym (append-nil wire)) h),
  )
  run-HasWritten ((buf, answers) ∷ calls) w ds wire h =
      let (o, polled, h') = poll-HasWritten p a salt c w ds wire buf answers h in
      let (w', more, ran, h'') =
        run-HasWritten calls o.writer (ds ++ assembled w.state buf) (wire ++ o.sent) h' in
      (
        w',
        o.sent ++ more,
        rw (polled, run, ran),
        rw (polled, chunks)
            (subst
              (HasWritten p salt c w' (ds ++ (assembled w.state buf ++ chunks p o.writer calls)))
              (append_assoc wire o.sent more)
              (subst (λ l. HasWritten p salt c w' l ((wire ++ o.sent) ++ more))
                (append_assoc ds (assembled w.state buf) (chunks p o.writer calls)) h'')),
      )

module _ (p : Primitives) (a : IsAead p) (kind : CipherKind) (key salt : Bytes) where
  pub new-HasWritten :
      {w : EncryptedWriter} {c : Cipher}
      → Crypto.new p kind key salt ≡ some c
      → new p kind key salt ≡ some w
      → HasWritten p salt c w [] []
  unfolding new frames after_frames
  new-HasWritten {w} {c} n e =
      let fresh = new-IsFresh p key salt kind n in
      let made : new p kind key salt
          ≡ some (record { cipher = c; buffer = salt; state = assemble_packet; salt = salt }) =
        rw (n, new) refl in
      subst (λ v. HasWritten p salt c v [] []) (some-injective _ _ (sym made ∙ e))
        (record {
          bytes = sym (append-nil salt);
          cipher = refl;
          tag = ap tag_len fresh.kind_kept ∙ fresh.tag;
        })

  -- A new writer, however it is polled and whatever the stream answers, never panics. What the
  -- stream has taken, followed by what the writer has not yet sent, is the salt and the frames of
  -- the chunks, sealed under successive nonces. There is one chunk for each poll that met a writer
  -- with nothing left to write: the first `MAX_PACKET_SIZE` bytes of its buffer, or all of them.
  pub run-frames :
      (c : Cipher) (w : EncryptedWriter) (calls : List (Bytes × List Answer))
      → Crypto.new p kind key salt ≡ some c
      → new p kind key salt ≡ some w
      → (w' : EncryptedWriter) × (wire : Bytes) × (run p w calls ≡ some (w', wire))
        × (wire ++ unsent w' ≡ salt ++ frames p c (chunks p w calls))
        × Fit (chunks p w calls)
  run-frames c w calls n e =
      let (w', wire, ran, h) = run-HasWritten p a salt c calls w [] [] (new-HasWritten n e) in
      (w', wire, ran, h.bytes, Fit-chunks p w calls)
