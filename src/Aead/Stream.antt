-- ===== src/Aead/Stream.antt =====
-- A stream from a writer to a reader with the same key.
use roxy.Base.{◌≡◌, sym, ap, ◌∙◌, some, List, [], ◌++◌, append-nil, length, ℕ}
use mathlib.Core.Option.{some-injective}
use roxy.Base.Bytes.{Bytes}
use roxy.Crypto.Kind.{CipherKind, salt_len}
use roxy.Crypto.{Primitives, IsAead, Cipher}
use roxy.Crypto
use roxy.Aead.Frames.{concat, frames}
use roxy.Aead.Writer.{EncryptedWriter, Answer, new}
use roxy.Aead.Writer.Wire.{unsent}
use roxy.Aead.Writer.Session.{run, chunks, run-frames}
use roxy.Aead.Reader.{World, Arrival}
use roxy.Aead.Reader.Owes.{Owes}
use roxy.Aead.Reader.Steps.{salt_positive}
use roxy.Aead.Reader.Polls.{read_all, read_all-Owes, start, start-Owes}

module _ (p : Primitives) (a : IsAead p) (kind : CipherKind) (key salt : Bytes) where
  -- Polls of a new writer, whatever the stream answers, that leave no byte unsent, have put on the
  -- wire what a new reader with the same key reads back: however the wire is cut into pieces and
  -- whatever room each poll has, the polls of the reader do not panic, the bytes that they deliver
  -- are the first ones of the writer's chunks, and the reader owes exactly the others.
  pub read-written :
      (c : Cipher) (w w' : EncryptedWriter) (writes : List (Bytes × List Answer)) (wire : Bytes)
      (reads : List (ℕ × List Arrival))
      → Crypto.new p kind key salt ≡ some c
      → new p kind key salt ≡ some w
      → salt_len kind ≡ some (length salt)
      → run p w writes ≡ some (w', wire)
      → unsent w' ≡ []
      → (out : Bytes) × (r : World) × (rest : Bytes) × (read_all p (start kind key wire) reads
          ≡ some (out, r))
        × (concat (chunks p w writes) ≡ out ++ rest)
        × Owes p r rest
  read-written c w w' writes wire reads n e size ran sent =
      let (v, wire1, ran1, bytes, fit) = run-frames p a kind key salt c w writes n e in
      let same = some-injective _ _ (sym ran ∙ ran1) in
      let framed : wire ≡ salt ++ frames p c (chunks p w writes) =
        sym (append-nil wire)
        ∙ ap (λ l. wire ++ l) (sym sent)
        ∙ ap (λ (o : EncryptedWriter × Bytes). o.1 ++ unsent o.0) same
        ∙ bytes in
      read_all-Owes p a reads (start kind key wire) (concat (chunks p w writes)) (
        start-Owes p kind key salt c (chunks p w writes) wire n size (salt_positive kind size) fit
          framed)
