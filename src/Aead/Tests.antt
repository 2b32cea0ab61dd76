-- ===== src/Aead/Tests.antt =====
-- A writer on a stream that takes a few bytes at a time, and a reader that gets them in other pieces.
use roxy.Base.{ℕ, ◌≡◌, refl, sym, some, List, [], ◌∷◌, ◌++◌, append-nil, arith}
use roxy.Base.Bytes.{Bytes}
use roxy.Crypto.Kind.{CipherKind, key_len, salt_len, tag_len}
use roxy.Crypto
use roxy.Crypto.{nonce_size, encrypt, decrypt, increase_nonce}
use roxy.Crypto.Seal.{sealed}
use roxy.Crypto.Tests.{toy, toy-IsAead, key, salt, cipher, new_cipher}
use roxy.Aead.Frames.{frames, Fit, concat, after_frame}
use roxy.Aead.Reader.{World, Arrival, new as new_reader}
use roxy.Aead.Reader.Loop.{poll_read_decrypted}
use roxy.Aead.Reader.Owes.{Owes}
use roxy.Aead.Reader.Polls.{Delivers, poll_read_decrypted-Delivers, read_all, start, start-Owes}
use roxy.Aead.Stream.{read-written}
use roxy.Aead.Writer.{
  EncryptedWriter, EncryptWriteState, Answer, new, assemble, poll_write_encrypted,
}
use roxy.Aead.Writer.Wire.{unsent}
use roxy.Aead.Writer.Session.{run, chunks, run-frames}

abbrev writer : EncryptedWriter
writer = record {
  cipher = cipher;
  buffer = salt;
  state = EncryptWriteState.assemble_packet;
  salt = salt;
}

new_writer : new toy CipherKind.aes_128_gcm key salt ≡ some writer
unfolding new Crypto.new nonce_size key_len
new_writer = refl

-- The first poll gets 50 bytes out of 53 away, the second the rest; the third writes the next chunk.
abbrev calls : List (Bytes × List Answer)
calls =
    (1 ∷ 2 ∷ 3 ∷ [], Answer.takes 50 ∷ Answer.later ∷ [])
    ∷ (1 ∷ 2 ∷ 3 ∷ [], Answer.takes 90 ∷ [])
    ∷ (4 ∷ [], Answer.takes 90 ∷ [])
    ∷ []

chunks_of_calls : chunks toy writer calls ≡ (1 ∷ 2 ∷ 3 ∷ []) ∷ (4 ∷ []) ∷ []
unfolding chunks poll_write_encrypted assemble encrypt tag_len increase_nonce
chunks_of_calls = refl

run-frames_example :
    (w' : EncryptedWriter) × (wire : Bytes) × (run toy writer calls ≡ some (w', wire))
    × (wire ++ unsent w' ≡ salt ++ frames toy cipher (chunks toy writer calls))
    × Fit (chunks toy writer calls)
run-frames_example =
    run-frames toy toy-IsAead CipherKind.aes_128_gcm key salt cipher writer calls new_cipher
      new_writer

abbrev sent : Bytes
sent = salt ++ frames toy cipher ((1 ∷ 2 ∷ 3 ∷ []) ∷ (4 ∷ []) ∷ [])

abbrev written : EncryptedWriter
written = record writer { cipher = after_frame (after_frame cipher); buffer = [] }

writes_sent : run toy writer calls ≡ some (written, sent)
unfolding run poll_write_encrypted assemble encrypt tag_len increase_nonce frames sealed
writes_sent = refl

salt_of_kind : salt_len CipherKind.aes_128_gcm ≡ some 16
unfolding salt_len key_len
salt_of_kind = refl

-- The salt and the first length come in three pieces, then all that is asked for each time.
abbrev reads : List (ℕ × List Arrival)
reads =
    (2, Arrival.arrived 4 ∷ Arrival.arrived 90 ∷ Arrival.later ∷ [])
    ∷ (2, Arrival.arrived 6 ∷ Arrival.arrived 90 ∷ Arrival.arrived 90 ∷ [])
    ∷ (9, [])
    ∷ []

delivered :
    (w : World) × (read_all toy (start CipherKind.aes_128_gcm key sent) reads
      ≡ some (1 ∷ 2 ∷ 3 ∷ [], w))
unfolding read_all poll_read_decrypted new_reader salt_len key_len tag_len Crypto.new nonce_size
    decrypt increase_nonce frames sealed
delivered = (_, refl)

read-written_example :
    (out : Bytes) × (r : World) × (rest : Bytes) × (read_all toy
        (start CipherKind.aes_128_gcm key sent)
        reads
      ≡ some (out, r))
    × (concat (chunks toy writer calls) ≡ out ++ rest)
    × Owes toy r rest
read-written_example =
    read-written toy toy-IsAead CipherKind.aes_128_gcm key salt cipher writer written calls sent
      reads new_cipher new_writer salt_of_kind writes_sent refl

started : Owes toy (start CipherKind.aes_128_gcm key salt) []
unfolding frames
started =
    start-Owes toy CipherKind.aes_128_gcm key salt cipher [] salt new_cipher salt_of_kind
      (omega arith) tt (sym (append-nil salt))

poll_read_decrypted-Delivers_example :
    Delivers toy 5
      (start CipherKind.aes_128_gcm key salt)
      []
      (poll_read_decrypted toy 5 (start CipherKind.aes_128_gcm key salt))
poll_read_decrypted-Delivers_example =
    poll_read_decrypted-Delivers toy toy-IsAead 5 (start CipherKind.aes_128_gcm key salt) [] started
