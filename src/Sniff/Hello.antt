-- ===== src/Sniff/Hello.antt =====
-- The server name of a TLS handshake, written down as RFC 5246 and RFC 6066 have it and read back.
use roxy.Base.{
  ℕ, zero, suc, ◌/◌, ◌%◌, ◌≤◌, ◌<◌, ◌≡◌, refl, sym, ◌∙◌, true, false, ap, Option, none, some, List,
  [], ◌∷◌, ◌++◌, length, length-append, drop, take-length, drop-length, leb, ◌==◌, arith,
}
use roxy.Base.Bytes.{Bytes, be16, from_be16-be16}
use roxy.Address.Utf8.{is_utf8}
use roxy.Sniff.{Run, done, panic, host_name, names, extensions, client_hello, tls_sni}

-- `Buf::advance`: it skips what is there, and panics when asked for more.
pub record IsAdvance (advance : ℕ → Bytes → Option Bytes) : Type 0 where
  pub skips : (n : ℕ) (s : Bytes) → n ≤ length s → advance n s ≡ some (drop n s)
  pub stops : (n : ℕ) (s : Bytes) → length s < n → advance n s ≡ none

pub record Extension : Type 0 where
  pub typ : ℕ
  pub body : Bytes

-- `lead` is the type and the version of the record, `random` the version of the client and its
-- random bytes.
pub record Hello : Type 0 where
  pub lead : Bytes
  pub record_length : ℕ
  pub message_length : ℕ
  pub random : Bytes
  pub session_id : Bytes
  pub cipher_suites : Bytes
  pub compression_methods : Bytes
  pub extensions_length : ℕ
  pub others : List Extension
  pub sni_length : ℕ
  pub list_length : ℕ
  pub name : Bytes

abbrev pub be24 : ℕ → Bytes
be24 x = x / 65536 % 256 ∷ be16 x

abbrev pub put_others : List Extension → Bytes → Bytes
put_others [] rest = rest
put_others (e ∷ es) rest = be16 e.typ ++ (be16 (length e.body) ++ (e.body ++ put_others es rest))

abbrev pub put_sni : Hello → Bytes → Bytes
put_sni h rest =
    be16 0
    ++ (be16 h.sni_length
        ++ (be16 h.list_length ++ (0 ∷ (be16 (length h.name) ++ (h.name ++ rest)))))

abbrev pub put_body : Hello → Bytes → Bytes
put_body h rest =
    length h.session_id
    ∷ (h.session_id
        ++ (be16 (length h.cipher_suites)
            ++ (h.cipher_suites
                ++ (length h.compression_methods
                    ∷ (h.compression_methods
                        ++ (be16 h.extensions_length ++ put_others h.others rest))))))

-- The message up to its other extensions, and what stands behind them.
abbrev pub put_message : Hello → Bytes → Bytes
put_message h rest =
    h.lead
    ++ (be16 h.record_length ++ (1 ∷ (be24 h.message_length ++ (h.random ++ put_body h rest))))

-- The whole message, and what stands behind the name.
abbrev pub put_hello : Hello → Bytes → Bytes
put_hello h rest = put_message h (put_sni h rest)

abbrev pub AreOthers : List Extension → Type 0
AreOthers [] = Unit
AreOthers (e ∷ es) = ((0 < e.typ) × (e.typ < 65536) × (length e.body < 65536)) × AreOthers es

-- The lengths fit their fields of two bytes, and the name is text.
pub record IsHello (h : Hello) : Type 0 where
  pub lead_size : length h.lead ≡ 3
  pub random_size : length h.random ≡ 34
  pub suites_size : length h.cipher_suites < 65536
  pub extensions_size : (0 < h.extensions_length) × (h.extensions_length < 65536)
  pub others_size : AreOthers h.others
  pub name_size : length h.name < 65536
  pub name_text : is_utf8 h.name ≡ true

host_name-name :
    (name rest : Bytes)
    → length name < 65536
    → is_utf8 name ≡ true
    → host_name (be16 (length name) ++ (name ++ rest)) ≡ done name
unfolding host_name
host_name-name name rest small text =
    let fits : leb (length name) (length (name ++ rest)) ≡ true =
      ground (arith, length-append name rest) in
    rw
      (
        from_be16-be16 (length name) small,
        host_name,
        fits,
        take-length name rest (length name) refl,
        text,
      )
      refl

module _ (advance : ℕ → Bytes → Option Bytes) (law : IsAdvance advance) where
  pub advance-front : (n : ℕ) (xs ys : Bytes) → n ≡ length xs → advance n (xs ++ ys) ≡ some ys
  advance-front n xs ys e =
      law.skips n (xs ++ ys) (omega (arith, length-append xs ys, e))
      ∙ ap some (drop-length xs ys n e)

  -- How the extensions end from here on, whatever fuel that is enough.
  Ends : Bytes → Run Bytes → Type 0
  Ends s r = (fuel : ℕ) → length s < fuel → extensions advance fuel s ≡ r

  extensions-others :
      (es : List Extension) (rest : Bytes) (r : Run Bytes)
      → AreOthers es
      → Ends rest r
      → Ends (put_others es rest) r
  unfolding extensions Ends
  extensions-others [] rest r o ends fuel enough = ends fuel enough
  extensions-others (e ∷ es) rest r o ends zero enough = absurd (omega arith)
  extensions-others (e ∷ es) rest r o ends (suc fuel) enough =
      let tail = put_others es rest in
      let other : (e.typ == 0) ≡ false = ground (arith, o.0) in
      let long = length-append e.body tail in
      rw
        (
          from_be16-be16 e.typ o.0.1,
          from_be16-be16 (length e.body) o.0.2,
          extensions,
          other,
          advance-front (length e.body) e.body tail refl,
        )
        (extensions-others es rest r o.1 ends fuel (omega (arith, enough, long)))

  Ends-sni : (h : Hello) → IsHello h → (rest : Bytes) → Ends (put_sni h rest) (done h.name)
  unfolding Ends extensions names
  Ends-sni h k rest zero enough = absurd (omega arith)
  Ends-sni h k rest (suc fuel) enough = host_name-name h.name rest k.name_size k.name_text

  Ends-overrun :
      (typ n : ℕ) (s : Bytes)
      → 0 < typ
      → typ < 65536
      → n < 65536
      → length s < n
      → Ends (be16 typ ++ (be16 n ++ s)) panic
  unfolding Ends extensions
  Ends-overrun typ n s other small short over zero enough = absurd (omega arith)
  Ends-overrun typ n s other small short over (suc fuel) enough =
      let skipped : (typ == 0) ≡ false = ground arith in
      rw (from_be16-be16 typ small, from_be16-be16 n short, extensions, skipped, law.stops n s over)
        refl

  client_hello-body :
      (h : Hello)
      → IsHello h
      → (rest : Bytes) (r : Run Bytes) → Ends rest r
      → client_hello advance (be24 h.message_length ++ (h.random ++ put_body h rest)) ≡ r
  unfolding client_hello Ends
  client_hello-body h k rest r ends =
      let after = put_others h.others rest in
      let present : (h.extensions_length == 0) ≡ false = ground (arith, k.extensions_size) in
      rw
        (
          advance-front 34 h.random (put_body h rest) (sym k.random_size),
          advance-front (length h.session_id) h.session_id _ refl,
          from_be16-be16 (length h.cipher_suites) k.suites_size,
          advance-front (length h.cipher_suites) h.cipher_suites _ refl,
          advance-front (length h.compression_methods) h.compression_methods _ refl,
          from_be16-be16 h.extensions_length k.extensions_size.1,
          client_hello,
          present,
        )
        (extensions-others h.others rest r k.others_size ends (suc (length after)) (omega arith))

  tls_sni-message :
      (h : Hello)
      → IsHello h
      → (rest : Bytes) (r : Run Bytes) → Ends rest r
      → tls_sni advance (put_message h rest) ≡ r
  unfolding tls_sni
  tls_sni-message h k rest r ends =
      rw (advance-front 3 h.lead _ (sym k.lead_size), tls_sni) (client_hello-body h k rest r ends)

  -- The name is read back out of a handshake that carries it, behind any other extensions and with
  -- anything behind the name, provided that the lengths fit their fields and the name is UTF-8.
  pub tls_sni-put_hello :
      (h : Hello) → IsHello h → (rest : Bytes) → tls_sni advance (put_hello h rest) ≡ done h.name
  tls_sni-put_hello h k rest =
      tls_sni-message h k (put_sni h rest) (done h.name) (Ends-sni h k rest)

  -- A handshake panics whose buffer ends inside an extension that is not the server name, ahead of
  -- the one that is.
  pub tls_sni_overrun :
      (h : Hello)
      → IsHello h
      → (typ n : ℕ) (s : Bytes) → 0 < typ
      → typ < 65536
      → n < 65536
      → length s < n
      → tls_sni advance (put_message h (be16 typ ++ (be16 n ++ s))) ≡ panic
  tls_sni_overrun h k typ n s other small short over =
      tls_sni-message h k (be16 typ ++ (be16 n ++ s)) panic
        (Ends-overrun typ n s other small short over)
