-- ===== src/Proxy/First.antt =====
-- The first packet of a connection, and one poll of the proxy's writer.
use mathlib.Core.Option.{some-injective}
use roxy.Base.{
  ℕ, zero, suc, ◌+◌, ◌-◌, ◌≤◌, ◌≡◌, ◌≢◌, refl, min, inl, inr, ◌⊎◌, Bool, true, false, ◌&&◌,
  Bool-cases, Option, none, some, Option-cases, List, [], ◌∷◌, ◌++◌, length, drop, take, take_all,
  ltb, ◌==◌, arith,
}
use roxy.Base.Bytes.{Bytes}
use roxy.Socks5.{ErrorKind}
use roxy.Address.{Address, write_to_buf}
use roxy.Crypto.Kind.{CipherKind, is_aead2022}
use roxy.Crypto.{Primitives}
use roxy.Aead.Frames.{max_packet_size, Poll, pending, panic, ready, fail}
use roxy.Aead.Writer
use roxy.Aead.Writer.{
  EncryptWriteState, assemble_packet, writing, EncryptedWriter, Answer, later, takes, breaks,
  write_out, Written, after_write, Polled, assemble, poll_write_encrypted,
}
use roxy.Proxy.Channel.{CryptoStream}
use roxy.Proxy.Channel
use roxy.Proxy.{
  Sent, WriteState, connecting, connected, ProxyStream, make_first_packet_buffer, after_first,
  poll_write, poll_connection, connect,
}

-- The packet of an AEAD kind is the address and the bytes behind it, without padding.
pub make_first_packet_buffer-aead :
    (drawn : ℕ) (memory : ℕ → Bytes) (kind : CipherKind) (addr : Address) (buf head : Bytes)
    → is_aead2022 kind ≡ false
    → write_to_buf addr [] ≡ some head
    → make_first_packet_buffer drawn memory kind addr buf ≡ some (head ++ buf)
unfolding make_first_packet_buffer
make_first_packet_buffer-aead drawn memory kind addr buf head k h =
    rw (h, make_first_packet_buffer, k) refl

write_out-safe :
    (buffer : Bytes) (pos : ℕ) (xs : List Answer) → (write_out buffer pos xs).poll ≢ panic
unfolding write_out
write_out-safe buffer pos [] = elim (Bool-cases (ltb pos (length buffer))) [
  | inl e ↦ rw e (λ b. cc)
  | inr e ↦ rw e (λ b. cc)
]
write_out-safe buffer pos (x ∷ xs) = elim (Bool-cases (ltb pos (length buffer))) [
  | inr e ↦ rw (e, write_out) (λ b. cc)
  | inl e ↦ rw (e, write_out) (by_answer (λ m. write_out-safe buffer (pos + suc m) xs) x)
]
  where
    goes_on :
        (suc_of : ℕ → Written) (stop : Written)
        → ((m : ℕ) → (suc_of m).poll ≢ panic)
        → stop.poll ≢ panic
        → (n : ℕ) → (elim n as (λ _. Written) [ zero ↦ stop | suc m ↦ suc_of m ]).poll ≢ panic
    goes_on suc_of stop f g zero = g
    goes_on suc_of stop f g (suc m) = f m

    by_answer :
        ((m : ℕ) → (write_out buffer (pos + suc m) xs).poll ≢ panic)
        → (y : Answer)
        → (elim y as (λ _. Written) [
          | later ↦ record { poll = pending; pos = pos; sent = []; answers = xs }
          | breaks e ↦ record { poll = fail e; pos = pos; sent = []; answers = xs }
          | takes k ↦ elim (min k (length buffer - pos)) as (λ _. Written) [
            | zero ↦ record {
              poll = fail ErrorKind.unexpected_eof;
              pos = pos;
              sent = [];
              answers = xs;
            }
            | suc m ↦ record (write_out buffer (pos + suc m) xs) {
              sent = take (suc m) (drop pos buffer) ++ (write_out buffer (pos + suc m) xs).sent;
            }
          ]
        ]).poll
          ≢ panic
    by_answer rest later = λ b. cc
    by_answer rest (breaks e) = λ b. cc
    by_answer rest (takes k) =
        goes_on
          (λ m. record (write_out buffer (pos + suc m) xs) {
            sent = take (suc m) (drop pos buffer) ++ (write_out buffer (pos + suc m) xs).sent;
          })
          (record { poll = fail ErrorKind.unexpected_eof; pos = pos; sent = []; answers = xs }) rest
          (λ b. cc) (min k (length buffer - pos))

-- A poll of the writer does not panic once it returns, and says that it took the whole chunk.
record IsAnswer (n : ℕ) (poll : Poll ErrorKind ℕ) : Type 0 where
  safe : poll ≢ panic
  whole : (m : ℕ) → poll ≡ ready m → m ≡ n

and_false : (b : Bool) → (b && false) ≡ false
and_false true = refl
and_false false = refl

after_write-IsAnswer :
    (w : EncryptedWriter) (n : ℕ) (o : Written)
    → o.poll ≢ panic
    → IsAnswer n (after_write w n o).poll
unfolding after_write
after_write-IsAnswer w n o h = by_poll o.poll h
  where
    by_poll :
        (poll : Poll ErrorKind Unit)
        → poll ≢ panic
        → IsAnswer n (after_write w n (record o { poll = poll })).poll
    by_poll pending k = record { safe = λ b. cc; whole = λ m b. cc }
    by_poll panic k = absurd (k refl)
    by_poll (fail e) k = record { safe = λ b. cc; whole = λ m b. cc }
    by_poll (ready u) k = record { safe = λ b. cc; whole = λ m b. cc }

-- The states between the first poll of a connection and its end.
abbrev pub Sends : WriteState → Bytes → Type 0
Sends st first = (st ≡ connecting first) ⊎ (st ≡ connected)

-- What the proxy hands to its writer.
abbrev pub offer : WriteState → Bytes → Bytes
offer (connecting first) buf = first
offer _ buf = buf

-- A poll of the proxy is a poll of its writer with what it offers.
pub record IsPoll (s : ProxyStream) (first : Bytes) (found : Option Sent) (o : Polled)
    : Type 0 where
  pub result : Sent
  pub is : found ≡ some result
  pub sent : result.sent ≡ o.sent
  pub writer : result.proxy.stream.enc ≡ o.writer
  pub state : Sends result.proxy.write_state first

module _ (p : Primitives) where
  poll-IsAnswer :
      (w : EncryptedWriter) (buf : Bytes) (answers : List Answer) (o : Polled)
      → poll_write_encrypted p w buf answers ≡ some o
      → IsAnswer (length (take max_packet_size buf)) o.poll
  unfolding poll_write_encrypted Writer.poll_state
  poll-IsAnswer w buf answers o h = by_state w.state h
    where
      d : Bytes
      d = take max_packet_size buf

      by_state :
          (s : EncryptWriteState)
          → Writer.poll_state p s w d answers ≡ some o
          → IsAnswer (length d) o.poll
      by_state assemble_packet e = elim (Option-cases (assemble p w d)) [
        | inl gone ↦ (let bad : none ≡ some o = rw gone at e in cc)
        | inr (v, there) ↦
            let same : after_write v (length d) (write_out v.buffer 0 answers) ≡ o =
              some-injective _ _ (rw there at e) in
            rw (← same) (after_write-IsAnswer v (length d) _ (write_out-safe v.buffer 0 answers))
      ]
      by_state (writing pos) e =
          let same : after_write w (length d) (write_out w.buffer pos answers) ≡ o =
            some-injective _ _ e in
          rw (← same) (after_write-IsAnswer w (length d) _ (write_out-safe w.buffer pos answers))

  module _ (debug : Bool) (drawn : ℕ) (memory : ℕ → Bytes) where
    after_first-IsPoll :
        (s : ProxyStream) (first buf : Bytes) (o : Polled)
        → IsAnswer (length first) o.poll
        → IsPoll s first (after_first debug s first buf (record s.stream { enc = o.writer }, o)) o
    unfolding after_first
    after_first-IsPoll s first buf o h = by_poll o.poll h refl
      where
        stream : CryptoStream
        stream = record s.stream { enc = o.writer }

        -- The outcome that leaves the proxy in the state `st`.
        outcome : Poll ErrorKind ℕ → WriteState → Sent
        outcome poll st = record {
          poll = poll;
          proxy = record s { stream = stream; write_state = st };
          sent = o.sent;
        }

        by_poll :
            (poll : Poll ErrorKind ℕ)
            → IsAnswer (length first) poll
            → o.poll ≡ poll
            → IsPoll s first
                (after_first debug s first buf (record s.stream { enc = o.writer }, o))
                o
        by_poll pending k e = record {
          result = outcome pending (connecting first);
          is = rw (e, after_first) refl;
          sent = refl;
          writer = refl;
          state = inl refl;
        }
        by_poll panic k e = absurd (k.safe refl)
        by_poll (fail x) k e = record {
          result = outcome (fail x) (connecting first);
          is = rw (e, after_first) refl;
          sent = refl;
          writer = refl;
          state = inl refl;
        }
        by_poll (ready n) k e =
            let full : (n == length first) ≡ true = ground (arith, k.whole n refl) in
            record {
              result = outcome (ready (length buf)) connected;
              is = rw (e, after_first, full, and_false debug) refl;
              sent = refl;
              writer = refl;
              state = inr refl;
            }

    -- One poll of a proxy that is connecting or connected, whose first packet fits in a chunk.
    pub poll_write-IsPoll :
        (s : ProxyStream) (first buf : Bytes) (answers : List Answer) (o : Polled)
        → length first ≤ max_packet_size
        → Sends s.write_state first
        → poll_write_encrypted p s.stream.enc (offer s.write_state buf) answers ≡ some o
        → IsPoll s first (poll_write p debug drawn memory s buf answers) o
    unfolding poll_write Channel.poll_write_encrypted
    poll_write-IsPoll s first buf answers o fits sends h = by_state s.write_state refl sends h
      where
        answer :
            IsAnswer (length (take max_packet_size first)) o.poll → IsAnswer (length first) o.poll
        answer k = rw (take_all max_packet_size first fits) at k

        by_state :
            (st : WriteState)
            → s.write_state ≡ st
            → Sends st first
            → poll_write_encrypted p s.stream.enc (offer st buf) answers ≡ some o
            → IsPoll s first (poll_connection p debug drawn memory st s buf answers) o
        by_state (connect a) q (inl e) k = cc
        by_state (connect a) q (inr e) k = cc
        by_state (connecting f) q (inr e) k = cc
        by_state (connecting f) q (inl e) k =
            let same : f ≡ first = cc in
            rw (same, rw same at k, poll_connection)
              (after_first-IsPoll s first buf o
                (answer (poll-IsAnswer s.stream.enc first answers o (rw same at k))))
        by_state connected q (inl e) k = cc
        by_state connected q (inr e) k = record {
          result = record {
            poll = o.poll;
            proxy = record s { stream = record s.stream { enc = o.writer } };
            sent = o.sent;
          };
          is = rw (k, poll_connection) refl;
          sent = refl;
          writer = refl;
          state = inr q;
        }
