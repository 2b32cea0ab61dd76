-- ===== src/Proxy/Session.antt =====
-- The polls of a connection, and the writer underneath.
pub mod Reaches
pub mod Cut
use mathlib.Core.Option.{some-injective}
use roxy.Base.{
  ℕ, ◌≤◌, ◌≡◌, refl, sym, ap, ◌∙◌, inl, inr, ◌⊎◌, Bool, true, false, Option, none, some,
  Option-cases, if◌then◌else◌, List, [], ◌∷◌, ◌++◌, append_assoc, length, take, take_all, Result,
  ok, err,
}
use roxy.Base.Options.{◌>>=◌}
use roxy.Base.Bytes.{Bytes}
use roxy.Socks5.{ErrorKind}
use roxy.Address.{Address, SocketAddr, write_to_buf, read_from}
use roxy.Address.Wire.{IsValid, on_wire, read_from-write_to_buf}
use roxy.Crypto.Kind.{CipherKind, is_aead2022, salt_len}
use roxy.Crypto.{Primitives, IsAead, Cipher}
use roxy.Crypto
use roxy.Aead.Frames.{max_packet_size, concat}
use roxy.Aead.Writer
use roxy.Aead.Writer.{
  EncryptWriteState, assemble_packet, EncryptedWriter, Answer, Polled, poll_write_encrypted,
}
use roxy.Aead.Writer.Wire.{unsent, HasWritten}
use roxy.Aead.Writer.Session.{run, chunks, assembled, poll-HasWritten, new-HasWritten}
use roxy.Aead.Reader.{World, Arrival}
use roxy.Aead.Reader.Owes.{Owes}
use roxy.Aead.Reader.Polls.{read_all, start}
use roxy.Aead.Stream.{read-written}
use roxy.Proxy.Channel.{CryptoStream, from_stream}
use roxy.Proxy.{
  WriteState, connect, connecting, connected, Endpoint, ReadState, established, check_request_nonce,
  ProxyStream, Sent, dialled, connect_to, make_first_packet_buffer, poll_connection, poll_write,
}
use roxy.Proxy.First.{make_first_packet_buffer-aead, Sends, offer, IsPoll, poll_write-IsPoll}

module _ (p : Primitives) (debug : Bool) (drawn : ℕ) (memory : ℕ → Bytes) where
  -- Polls one after the other: the proxy at the end, and all that the socket took.
  unfoldable pub send_all : ProxyStream → List (Bytes × List Answer) → Option (ProxyStream × Bytes)
  send_all s [] = some (s, [])
  send_all s ((buf, answers) ∷ calls) = elim (poll_write p debug drawn memory s buf answers) [
    | none ↦ none
    | some r ↦ elim (send_all r.proxy calls) [
      | none ↦ none
      | some (s', wire) ↦ some (s', r.sent ++ wire)
    ]
  ]

  -- What its writer is given by those polls.
  unfoldable pub offered : ProxyStream → List (Bytes × List Answer) → List (Bytes × List Answer)
  offered s [] = []
  offered s ((buf, answers) ∷ calls) =
      (offer s.write_state buf, answers) ∷ elim (poll_write p debug drawn memory s buf answers) [
        | none ↦ []
        | some r ↦ offered r.proxy calls
      ]

salt_len-aead : (k : CipherKind) (n : ℕ) → salt_len k ≡ some n → is_aead2022 k ≡ false
unfolding salt_len is_aead2022
salt_len-aead CipherKind.aes_128_gcm n h = refl
salt_len-aead CipherKind.aes_256_gcm n h = refl
salt_len-aead _ n h = cc

module _ (p : Primitives) (a : IsAead p) (debug : Bool) (drawn : ℕ) (memory : ℕ → Bytes) where
  -- The proxy and its writer send the same.
  send_all-run :
      (salt : Bytes) (c : Cipher) (first : Bytes)
      → length first ≤ max_packet_size
      → (calls : List (Bytes × List Answer)) (s : ProxyStream) (ds : List Bytes) (wire : Bytes)
      → Sends s.write_state first
      → HasWritten p salt c s.stream.enc ds wire
      → (s' : ProxyStream) × (more : Bytes) × (send_all p debug drawn memory s calls
          ≡ some (s', more))
        × (run p s.stream.enc (offered p debug drawn memory s calls) ≡ some (s'.stream.enc, more))
  unfolding send_all offered run
  send_all-run salt c first fits [] s ds wire sends h = (s, [], refl, refl)
  send_all-run salt c first fits ((buf, answers) ∷ calls) s ds wire sends h =
      let (o, polled, h') =
        poll-HasWritten p a salt c s.stream.enc ds wire (offer s.write_state buf) answers h in
      let r = poll_write-IsPoll p debug drawn memory s first buf answers o fits sends polled in
      let (s', more, sent, ran) =
        send_all-run salt c first fits calls r.result.proxy
          (ds ++ assembled s.stream.enc.state (offer s.write_state buf)) (wire ++ o.sent) r.state
          (rw r.writer h') in
      (
        s',
        o.sent ++ more,
        rw (r.is, send_all, sent, r.sent) refl,
        rw (polled, r.is, run, ← r.writer, ran) refl,
      )

  -- A connection that was opened stands before its first packet, with a new writer.
  pub record Opened (conf : Endpoint) (random : ℕ → Bytes) (target : Address) (s : ProxyStream)
      : Type 0 where
    pub salt_size : ℕ
    pub size : salt_len conf.kind ≡ some salt_size
    pub cipher : Cipher
    pub made : Crypto.new p conf.kind conf.key (random salt_size) ≡ some cipher
    pub writer : Writer.new p conf.kind conf.key (random salt_size) ≡ some s.stream.enc
    pub idle : s.stream.enc.state ≡ assemble_packet
    pub unwritten : s.stream.enc.buffer ≡ random salt_size
    pub kind_kept : s.stream.kind ≡ conf.kind
    pub waits : s.write_state ≡ connect target

  abbrev opened_or : ProxyStream → Option (Result ErrorKind ProxyStream) → ProxyStream
  opened_or d (some (ok s)) = s
  opened_or d _ = d

  -- `from_stream` by its parts.
  stream-Opened :
      (random : ℕ → Bytes) (conf : Endpoint) (target : Address) (s : ProxyStream) (rs : ReadState)
      → ◌>>=◌ {B = Result ErrorKind ProxyStream}
          (from_stream p conf.kind conf.key random)
          (λ stream.
            some (ok (record { stream = stream; read_state = rs; write_state = connect target })))
        ≡ some (ok s)
      → Opened conf random target s
  unfolding from_stream Writer.new
  stream-Opened random conf target s rs h = elim (Option-cases (salt_len conf.kind)) [
    | inl gone ↦ (let bad = rw gone at h in cc)
    | inr (n, size) ↦ elim (Option-cases (Crypto.new p conf.kind conf.key (random n))) [
      | inl gone ↦ (let bad = rw (size, gone) at h in cc)
      | inr (c, made) ↦
          let same = ap (opened_or s) (rw (size, made) at h) in
          rw (← same) (record {
            salt_size = n;
            size = size;
            cipher = c;
            made = made;
            writer = rw made refl;
            idle = refl;
            unwritten = refl;
            kind_kept = refl;
            waits = refl;
          })
    ]
  ]

  connect_to-Opened :
      (dial : SocketAddr → Result {0} ErrorKind Unit)
      (resolve : Bytes → ℕ → Result ErrorKind SocketAddr) (random : ℕ → Bytes) (conf : Endpoint)
      (target : Address) (s : ProxyStream)
      → connect_to p dial resolve random conf target ≡ some (ok s)
      → Opened conf random target s
  unfolding connect_to
  connect_to-Opened dial resolve random conf target s h =
      by_result (dialled dial resolve conf.addr) h
    where
      by_result :
          (r : Result {0} ErrorKind Unit)
          → elim r as (λ _. Option (Result ErrorKind ProxyStream)) [
            | err e ↦ some (err e)
            | ok _ ↦ from_stream p conf.kind conf.key random >>= λ stream. some (
                ok (record {
                  stream = stream;
                  read_state = if is_aead2022 conf.kind then check_request_nonce else established;
                  write_state = connect target;
                }))
          ]
            ≡ some (ok s)
          → Opened conf random target s
      by_result (err e) k = cc
      by_result (ok u) k = stream-Opened random conf target s _ k

  -- The first poll of a connection is one of a proxy that is connecting with its first packet.
  poll_write-connect :
      (s : ProxyStream) (target : Address) (head buf : Bytes) (answers : List Answer)
      → s.write_state ≡ connect target
      → is_aead2022 s.stream.kind ≡ false
      → write_to_buf target [] ≡ some head
      → poll_write p debug drawn memory s buf answers
        ≡ poll_write p debug drawn memory
            (record s { write_state = connecting (head ++ buf) })
            buf
            answers
  unfolding poll_write
  poll_write-connect s target head buf answers w k h =
      rw
        (
          w,
          poll_connection,
          make_first_packet_buffer-aead drawn memory s.stream.kind target buf head k h,
        )
        refl

  send_all-begins :
      (s t : ProxyStream) (buf : Bytes) (answers : List Answer) (calls : List (Bytes × List Answer))
      → poll_write p debug drawn memory s buf answers
        ≡ poll_write p debug drawn memory t buf answers
      → send_all p debug drawn memory s ((buf, answers) ∷ calls)
        ≡ send_all p debug drawn memory t ((buf, answers) ∷ calls)
  unfolding send_all
  send_all-begins s t buf answers calls e = rw (e, send_all) refl

  offered-cons :
      (s : ProxyStream) (buf : Bytes) (answers : List Answer) (r : Sent)
      (calls : List (Bytes × List Answer))
      → poll_write p debug drawn memory s buf answers ≡ some r
      → offered p debug drawn memory s ((buf, answers) ∷ calls)
        ≡ (offer s.write_state buf, answers) ∷ offered p debug drawn memory r.proxy calls
  unfolding offered
  offered-cons s buf answers r calls e = rw (e, offered) refl

  chunks-first :
      (w : EncryptedWriter) (first : Bytes) (answers : List Answer) (o : Polled)
      (calls : List (Bytes × List Answer))
      → w.state ≡ assemble_packet
      → length first ≤ max_packet_size
      → poll_write_encrypted p w first answers ≡ some o
      → concat (chunks p w ((first, answers) ∷ calls)) ≡ first ++ concat (chunks p o.writer calls)
  unfolding chunks
  chunks-first w first answers o calls idle fits polled =
      rw (polled, idle, chunks)
        (ap (λ l. l ++ concat (chunks p o.writer calls)) (take_all max_packet_size first fits))
