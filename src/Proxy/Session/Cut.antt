-- ===== src/Proxy/Session/Cut.antt =====
-- A first packet that is longer than a chunk.
use roxy.Crypto.{increase_nonce}
use roxy.Crypto.Seal.{sealed, length-sealed}
use roxy.Base.Bytes.{be16}
use roxy.Aead.Frames.{after_frame, ready, frames}
use roxy.Aead.Writer.Wire.{assemble-eq}
use roxy.Proxy.{after_first}
use roxy.Proxy.Channel
use mathlib.Core.Option.{some-injective}
use roxy.Base.{
  ℕ, suc, ◌+◌, ◌-◌, ◌/◌, ◌<◌, min, arith, ltb, append-nil, length-append, length-take, ◌==◌, ◌&&◌,
  ◌≤◌, ◌≡◌, refl, sym, ap, ◌∙◌, Bool, true, false, none, some, if◌then◌else◌, List, [], ◌∷◌, ◌++◌,
  length, take, take_all, Result, ok,
}
use roxy.Base.Bytes.{Bytes}
use roxy.Socks5.{ErrorKind}
use roxy.Address.{Address, SocketAddr, write_to_buf}
use roxy.Crypto.Kind.{CipherKind, is_aead2022, salt_len}
use roxy.Crypto.{Primitives, IsAead, Cipher}
use roxy.Aead.Frames.{after_frame, max_packet_size}
use roxy.Aead.Writer.{
  assemble_packet, writing, EncryptedWriter, Answer, takes, write_out, after_write, poll_state,
  Polled, poll_write_encrypted,
}
use roxy.Aead.Writer.Wire.{unsent, HasWritten}
use roxy.Aead.Writer.Session.{assembled, poll-HasWritten, new-HasWritten}
use roxy.Proxy.Channel.{CryptoStream, from_stream}
use roxy.Proxy.{
  connecting, connected, Endpoint, ProxyStream, Sent, connect_to, poll_connection, poll_write,
}
use roxy.Proxy.Session.{connect_to-Opened, poll_write-connect, salt_len-aead}

write_out_all :
    (buffer : Bytes) (k : ℕ)
    → 0 < length buffer
    → length buffer ≤ k
    → write_out buffer 0 (takes k ∷ [])
      ≡ record { poll = ready tt; pos = length buffer; sent = buffer; answers = [] }
unfolding write_out
write_out_all [] k h l = absurd (omega arith)
write_out_all (b ∷ bs) k h l =
    let more : ltb 0 (length (b ∷ bs)) ≡ true = ground arith in
    let room : min k (length (b ∷ bs) - 0) ≡ suc (length bs) = omega arith in
    let at_end : 0 + suc (length bs) ≡ suc (length bs) = omega arith in
    let finished : ltb (suc (length bs)) (suc (length bs)) ≡ false = ground arith in
    rw
      (
        more,
        write_out,
        room,
        at_end,
        finished,
        take_all (length bs) bs (omega arith),
        append-nil bs,
      )
      refl

salt_len-le : (k : CipherKind) (n : ℕ) → salt_len k ≡ some n → n ≤ 32
unfolding salt_len
salt_len-le CipherKind.aes_128_gcm n h =
    let e : 128 / 8 ≡ n = some-injective _ _ h in omega (arith, e)
salt_len-le CipherKind.aes_256_gcm n h =
    let e : 256 / 8 ≡ n = some-injective _ _ h in omega (arith, e)
salt_len-le _ n h = cc

module _ (p : Primitives) (a : IsAead p) (salt : Bytes) (c : Cipher) where
  -- A new writer whose socket takes everything has sent its salt and one chunk.
  poll_all :
      (w : EncryptedWriter) (data_bytes : Bytes) (k : ℕ)
      → HasWritten p salt c w [] []
      → w.state ≡ assemble_packet
      → w.buffer ≡ salt
      → length salt ≤ 32
      → 16449 ≤ k
      → (o : Polled) × (poll_write_encrypted p w data_bytes (takes k ∷ []) ≡ some o)
        × (o.poll ≡ ready (length (take max_packet_size data_bytes)))
        × (unsent o.writer ≡ [])
  unfolding poll_write_encrypted after_write
  poll_all w data_bytes k h idle at_salt short enough =
      let d = take max_packet_size data_bytes in
      let one = sealed p w.cipher (be16 (length d)) in
      let two = sealed p (increase_nonce w.cipher) d in
      let buffer = (w.buffer ++ one) ++ two in
      let w1 : EncryptedWriter = record w {
        cipher = after_frame w.cipher;
        buffer = buffer;
        state = writing 0;
      } in
      let size : (0 < length buffer) × (length buffer ≤ 16449) = omega (
        arith,
        length-append (w.buffer ++ one) two,
        length-append w.buffer one,
        length-sealed p a w.cipher (be16 (length d)),
        length-sealed p a (increase_nonce w.cipher) d,
        length-take max_packet_size data_bytes,
        ap length at_salt,
        short,
      ) in
      let wrote = write_out_all buffer k size.0 (omega (arith, size.1, enough)) in
      (
        after_write w1 (length d) (write_out buffer 0 (takes k ∷ [])),
        simp (idle, poll_state, assemble-eq p a salt c w d h.tag),
        rw wrote refl,
        rw wrote refl,
      )

and_true : (b : Bool) → (b && true) ≡ b
and_true true = refl
and_true false = refl

module _ (p : Primitives) (a : IsAead p) (debug : Bool) (drawn : ℕ) (memory : ℕ → Bytes) where
  -- A poll that says that it took a cut packet.
  after_first-cut :
      (s : ProxyStream) (first buf : Bytes) (o : Polled) (n : ℕ)
      → o.poll ≡ ready n
      → n < length first
      → after_first debug s first buf (record s.stream { enc = o.writer }, o) ≡ (
          if debug
          then none
          else some (record {
            poll = ready (length buf);
            proxy = record s {
              stream = record s.stream { enc = o.writer };
              write_state = connected;
            };
            sent = o.sent;
          }))
  unfolding after_first
  after_first-cut s first buf o n e less =
      let cut : (n == length first) ≡ false = ground (arith, less) in
      rw (e, after_first, cut, and_true debug) refl

  connecting-polls :
      (s : ProxyStream) (first buf : Bytes) (answers : List Answer) (o : Polled)
      → poll_write_encrypted p s.stream.enc first answers ≡ some o
      → poll_write p debug drawn memory (record s { write_state = connecting first }) buf answers
        ≡ after_first debug
            (record s { write_state = connecting first })
            first
            buf
            (record s.stream { enc = o.writer }, o)
  unfolding poll_write Channel.poll_write_encrypted
  connecting-polls s first buf answers o e = rw (e, poll_connection) refl

  -- On a connection that was opened, a first poll whose packet, the address of the target and the
  -- bytes of the poll, is longer than a chunk is cut off: where the socket takes everything, it
  -- panics if debug assertions are compiled in, and otherwise says that it took all its bytes, while
  -- the one chunk that it sent holds the first 0x3FFF bytes of the packet and nothing is left to send.
  pub poll_write_cuts :
      (dial : SocketAddr → Result {0} ErrorKind Unit)
      (resolve : Bytes → ℕ → Result ErrorKind SocketAddr) (random : ℕ → Bytes) (conf : Endpoint)
      (target : Address) (head : Bytes) (s : ProxyStream) (buf : Bytes) (k : ℕ)
      → connect_to p dial resolve random conf target ≡ some (ok s)
      → ((n : ℕ) → length (random n) ≡ n)
      → write_to_buf target [] ≡ some head
      → max_packet_size < length (head ++ buf)
      → 16449 ≤ k
      → (n : ℕ) × (c : Cipher) × (r : Sent) × (poll_write p debug drawn memory s buf (takes k ∷ [])
          ≡ (if debug then none else some r))
        × (r.poll ≡ ready (length buf))
        × (unsent r.proxy.stream.enc ≡ [])
        × (r.sent ≡ random n ++ frames p c (take max_packet_size (head ++ buf) ∷ []))
  poll_write_cuts dial resolve random conf target head s buf k opens sized written long enough =
      let o = connect_to-Opened p a debug drawn memory dial resolve random conf target s opens in
      let first = head ++ buf in
      let salt = random o.salt_size in
      let kind : is_aead2022 s.stream.kind ≡ false =
        rw o.kind_kept (salt_len-aead conf.kind o.salt_size o.size) in
      let begins =
        poll_write-connect p a debug drawn memory s target head buf (takes k ∷ []) o.waits kind
          written in
      let fresh = new-HasWritten p a conf.kind conf.key salt o.made o.writer in
      let short : length salt ≤ 32 =
        omega (arith, sized o.salt_size, salt_len-le conf.kind o.salt_size o.size) in
      let (one, polled, whole, none_left) =
        poll_all p a salt o.cipher s.stream.enc first k fresh o.idle o.unwritten short enough in
      let (two, polled2, h) =
        poll-HasWritten p a salt o.cipher s.stream.enc [] [] first (takes k ∷ []) fresh in
      let same : two ≡ one = some-injective _ _ (sym polled2 ∙ polled) in
      let less : length (take max_packet_size first) < length first =
        omega (arith, length-take max_packet_size first, long) in
      (
        o.salt_size,
        o.cipher,
        record {
          poll = ready (length buf);
          proxy = record s {
            stream = record s.stream { enc = one.writer };
            write_state = connected;
          };
          sent = one.sent;
        },
        begins
            ∙ connecting-polls s first buf (takes k ∷ []) one polled
            ∙ after_first-cut (record s { write_state = connecting first }) first buf one _ whole
                less,
        refl,
        none_left,
        sym (append-nil one.sent)
            ∙ ap (λ l. one.sent ++ l) (sym none_left)
            ∙ ap (λ (x : Polled). x.sent ++ unsent x.writer) (sym same)
            ∙ h.bytes
            ∙ ap (λ st. salt ++ frames p o.cipher (assembled st first)) o.idle,
      )
