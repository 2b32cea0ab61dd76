-- ===== src/Proxy/Session/Reaches.antt =====
-- What a server decrypts is the address of the target and then the payload.
use mathlib.Core.Option.{some-injective}
use roxy.Base.{
  inr, none, Option-cases, ◌↔◌, ◌<◌, ◌+◌, length-append, arith, ℕ, ◌≤◌, ◌≡◌, refl, sym, ap, ◌∙◌,
  inl, Bool, false, some, List, [], ◌∷◌, ◌++◌, append_assoc, length, Result, ok,
}
use roxy.Base.Bytes.{Bytes}
use roxy.Socks5.{ErrorKind}
use roxy.Address.{serialized_len, Address, SocketAddr, write_to_buf, read_from}
use roxy.Address.Wire.{IsValid, on_wire, read_from-write_to_buf, length-write_to_buf}
use roxy.Crypto.Kind.{is_aead2022}
use roxy.Crypto.{Primitives, IsAead}
use roxy.Aead.Frames.{max_packet_size, concat}
use roxy.Aead.Writer.{Answer}
use roxy.Aead.Writer.Wire.{unsent}
use roxy.Aead.Writer.Session.{run, chunks, poll-HasWritten, new-HasWritten}
use roxy.Aead.Reader.{World, Arrival}
use roxy.Aead.Reader.Owes.{Owes}
use roxy.Aead.Reader.Polls.{read_all, start}
use roxy.Aead.Stream.{read-written}
use roxy.Proxy.{
  WriteState, connect, poll_connection, make_first_packet_buffer, connecting, Endpoint, ProxyStream,
  Sent, connect_to, poll_write,
}
use roxy.Proxy.First.{poll_write-IsPoll}
use roxy.Proxy.Session.{
  send_all, offered, send_all-run, Opened, connect_to-Opened, poll_write-connect, send_all-begins,
  offered-cons, chunks-first, salt_len-aead,
}

module _ (p : Primitives) (a : IsAead p) (debug : Bool) (drawn : ℕ) (memory : ℕ → Bytes) where
  -- The first poll and the later ones, as the writer sees them.
  record Sending (s : ProxyStream) (conf : Endpoint) (salt first buf : Bytes)
      (answers : List Answer) (calls : List (Bytes × List Answer)) : Type 0 where
    proxy : ProxyStream
    wire : Bytes
    result : Sent
    sent : send_all p debug drawn memory s ((buf, answers) ∷ calls) ≡ some (proxy, wire)
    is : poll_write p debug drawn memory s buf answers ≡ some result
    given : List (Bytes × List Answer)
    ran : run p s.stream.enc given ≡ some (proxy.stream.enc, wire)
    text :
        concat (chunks p s.stream.enc given)
        ≡ first
          ++ concat
              (chunks p result.proxy.stream.enc (offered p debug drawn memory result.proxy calls))

  sending :
      (random : ℕ → Bytes) (conf : Endpoint) (target : Address) (head : Bytes) (s : ProxyStream)
      (buf : Bytes) (answers : List Answer) (calls : List (Bytes × List Answer))
      → (o : Opened p a debug drawn memory conf random target s)
      → write_to_buf target [] ≡ some head
      → length (head ++ buf) ≤ max_packet_size
      → Sending s conf (random o.salt_size) (head ++ buf) buf answers calls
  sending random conf target head s buf answers calls o written fits =
      let first = head ++ buf in
      let salt = random o.salt_size in
      let s1 = record s { write_state = connecting first } in
      let kind : is_aead2022 s.stream.kind ≡ false =
        rw o.kind_kept (salt_len-aead conf.kind o.salt_size o.size) in
      let begins =
        poll_write-connect p a debug drawn memory s target head buf answers o.waits kind written in
      let fresh = new-HasWritten p a conf.kind conf.key salt o.made o.writer in
      let (one, polled, h') =
        poll-HasWritten p a salt o.cipher s.stream.enc [] [] first answers fresh in
      let r =
        poll_write-IsPoll p debug drawn memory s1 first buf answers one fits (inl refl) polled in
      let (s', wire, sent, ran) =
        send_all-run p a debug drawn memory salt o.cipher first fits ((buf, answers) ∷ calls) s1 []
          [] (inl refl) fresh in
      let later = offered p debug drawn memory r.result.proxy calls in
      record {
        proxy = s';
        wire = wire;
        result = r.result;
        sent = send_all-begins p a debug drawn memory s s1 buf answers calls begins ∙ sent;
        is = begins ∙ r.is;
        given = offered p debug drawn memory s1 ((buf, answers) ∷ calls);
        ran = ran;
        text =
            ap (λ l. concat (chunks p s.stream.enc l))
              (offered-cons p a debug drawn memory s1 buf answers r.result calls r.is)
            ∙ chunks-first p a debug drawn memory s.stream.enc first answers one later o.idle fits
                polled
            ∙ ap (λ v. first ++ concat (chunks p v later)) (sym r.writer);
      }

  module _ (dial : SocketAddr → Result {0} ErrorKind Unit)
      (resolve : Bytes → ℕ → Result ErrorKind SocketAddr) (random : ℕ → Bytes) (conf : Endpoint)
      (target : Address) (head : Bytes) (s : ProxyStream) (buf : Bytes) (answers : List Answer)
      (calls : List (Bytes × List Answer)) where
    -- Polls of a connection that was opened, whose first packet fits in a chunk, that leave no byte
    -- unsent, have put on the wire what a server with the same key reads, however the wire is cut
    -- into pieces and whatever room its polls have: the bytes that it reads and those still owed are
    -- an address and a payload. `read_from` gives the target, up to the flow information and scope of
    -- an IPv6 address, and leaves the bytes of the first poll and then the chunks of the later ones.
    pub send_all_reaches :
        (s' : ProxyStream) (wire : Bytes) (reads : List (ℕ × List Arrival))
        → connect_to p dial resolve random conf target ≡ some (ok s)
        → ((n : ℕ) → length (random n) ≡ n)
        → IsValid target
        → write_to_buf target [] ≡ some head
        → length (head ++ buf) ≤ max_packet_size
        → send_all p debug drawn memory s ((buf, answers) ∷ calls) ≡ some (s', wire)
        → unsent s'.stream.enc ≡ []
        → (out : Bytes) × (w : World) × (rest : Bytes) × (r : Sent) × (read_all p
              (start conf.kind conf.key wire)
              reads
            ≡ some (out, w))
          × Owes p w rest
          × (poll_write p debug drawn memory s buf answers ≡ some r)
          × (read_from (out ++ rest)
              ≡ ok (
                on_wire target,
                buf
                    ++ concat
                        (chunks p r.proxy.stream.enc (offered p debug drawn memory r.proxy calls)),
              ))
    send_all_reaches s' wire reads opens sized valid written fits done all =
        let o = connect_to-Opened p a debug drawn memory dial resolve random conf target s opens in
        let g = sending random conf target head s buf answers calls o written fits in
        let same = some-injective _ _ (sym g.sent ∙ done) in
        let ran : run p s.stream.enc g.given ≡ some (s'.stream.enc, wire) =
          g.ran ∙ ap (λ (x : ProxyStream × Bytes). some (x.0.stream.enc, x.1)) same in
        let (out, w, rest, got, text, owes) =
          read-written p a conf.kind conf.key (random o.salt_size) o.cipher s.stream.enc
            s'.stream.enc g.given wire reads o.made o.writer
            (o.size ∙ ap some (sym (sized o.salt_size))) ran all in
        let more = concat (
          chunks p g.result.proxy.stream.enc (offered p debug drawn memory g.result.proxy calls)) in
        let plain : out ++ rest ≡ head ++ (buf ++ more) =
          sym text ∙ g.text ∙ append_assoc head buf more in
        (
          out,
          w,
          rest,
          g.result,
          got,
          owes,
          g.is,
          rw plain (read_from-write_to_buf target head (buf ++ more) valid written),
        )

module _ (p : Primitives) (a : IsAead p) (debug : Bool) (drawn : ℕ) (memory : ℕ → Bytes) where
  poll-unwritten :
      (state : WriteState) (s : ProxyStream) (target : Address) (buf : Bytes)
      (answers : List Answer)
      → state ≡ connect target
      → write_to_buf target [] ≡ none
      → poll_connection p debug drawn memory state s buf answers ≡ none
  unfolding poll_connection make_first_packet_buffer
  poll-unwritten state s target buf answers w gone = rw (w, poll_connection, gone) refl

  send_all-unwritten :
      (s : ProxyStream) (target : Address) (buf : Bytes) (answers : List Answer)
      (calls : List (Bytes × List Answer))
      → s.write_state ≡ connect target
      → write_to_buf target [] ≡ none
      → send_all p debug drawn memory s ((buf, answers) ∷ calls) ≡ none
  unfolding send_all poll_write
  send_all-unwritten s target buf answers calls w gone =
      rw (poll-unwritten s.write_state s target buf answers w gone, send_all) refl

  -- On a connection that was opened, whose first packet, the address of the target and the bytes of
  -- the first poll, fits in a chunk, some poll panics exactly if the target is a domain name of more
  -- than 255 bytes, which has no address to write, whatever the socket answers.
  pub send_all_safe :
      (dial : SocketAddr → Result {0} ErrorKind Unit)
      (resolve : Bytes → ℕ → Result ErrorKind SocketAddr) (random : ℕ → Bytes) (conf : Endpoint)
      (target : Address) (s : ProxyStream) (buf : Bytes) (answers : List Answer)
      (calls : List (Bytes × List Answer))
      → connect_to p dial resolve random conf target ≡ some (ok s)
      → serialized_len target + length buf ≤ max_packet_size
      → (send_all p debug drawn memory s ((buf, answers) ∷ calls) ≡ none)
        ↔ (259 < serialized_len target)
  send_all_safe dial resolve random conf target s buf answers calls opens fits =
      let o = connect_to-Opened p a debug drawn memory dial resolve random conf target s opens in
      elim (Option-cases (write_to_buf target [])) [
        | inl gone ↦ (
          λ h. (length-write_to_buf target []).1.0 gone,
          λ h. send_all-unwritten s target buf answers calls o.waits gone,
        )
        | inr (head, written) ↦
            let size = (length-write_to_buf target []).0 head written in
            let g =
              sending p a debug drawn memory random conf target head s buf answers calls o written
                (omega (arith, fits, size, length-append head buf)) in
            (
              λ h. (let bad = sym h ∙ g.sent in cc),
              λ long. (let bad = sym ((length-write_to_buf target []).1.1 long) ∙ written in cc),
            )
      ]
