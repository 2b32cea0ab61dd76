-- ===== src/Sniff/Whole.antt =====
-- The handshake as the whole sniffer sees it.
use roxy.Base.{
  ℕ, zero, suc, sym, arith, ◌-◌, ◌≤◌, ◌≡◌, refl, ap, ◌∙◌, Option, List, [], ◌∷◌, ◌++◌, append_assoc,
  length, take, replicate, ok,
}
use roxy.Base.Bytes.{Bytes, be16}
use roxy.Sniff.{done, tls_sni, sniff, destination_addr}
use roxy.Sniff.Hello.{
  IsAdvance, Hello, IsHello, Extension, put_body, put_message, put_others, put_sni, put_hello,
  tls_sni-put_hello, be24,
}

put_others-append :
    (es : List Extension) (s t : Bytes) → put_others es s ++ t ≡ put_others es (s ++ t)
put_others-append [] s t = refl
put_others-append (e ∷ es) s t =
    ap (λ l. be16 e.typ ++ (be16 (length e.body) ++ l))
      (append_assoc e.body (put_others es s) t ∙ ap (λ l. e.body ++ l) (put_others-append es s t))

put_sni-append : (h : Hello) (s t : Bytes) → put_sni h s ++ t ≡ put_sni h (s ++ t)
put_sni-append h s t =
    ap
      (λ l.
        be16 0 ++ (be16 h.sni_length ++ (be16 h.list_length ++ (0 ∷ (be16 (length h.name) ++ l)))))
      (append_assoc h.name s t)

put_message-append : (h : Hello) (s t : Bytes) → put_message h s ++ t ≡ put_message h (s ++ t)
put_message-append h s t = simp (append_assoc, put_others-append)

put_hello-append : (h : Hello) (s t : Bytes) → put_hello h s ++ t ≡ put_hello h (s ++ t)
put_hello-append h s t =
    put_message-append h (put_sni h s) t ∙ ap (put_message h) (put_sni-append h s t)

take-append :
    (n : ℕ) (xs ys : Bytes) → length xs ≤ n → take n (xs ++ ys) ≡ xs ++ take (n - length xs) ys
take-append n [] ys h = ap (λ k. take k ys) (omega arith)
take-append zero (x ∷ xs) ys h = absurd (omega arith)
take-append (suc n) (x ∷ xs) ys h =
    ap (λ l. x ∷ l) (take-append n xs ys (omega arith))
    ∙ ap (λ k. (x ∷ xs) ++ take k ys) (omega arith)

-- The message behind the type and the version of its record.
abbrev behind : Hello → Bytes → Bytes
behind h rest =
    be16 h.record_length ++ (1 ∷ (be24 h.message_length ++ (h.random ++ put_body h rest)))

module _ (advance : ℕ → Bytes → Option Bytes) (law : IsAdvance advance)
    (memchr : ℕ → Bytes → Option ℕ) where
  sniff_tls :
      (s bs d : Bytes)
      → s ≡ 22 ∷ bs
      → tls_sni advance s ≡ done d
      → sniff advance memchr s ≡ done (d, 443)
  unfolding sniff
  sniff_tls s bs d e t = rw (e, rw e at t) refl

  -- A peek that holds a handshake up to its server name, with anything behind it, goes to the host
  -- that the handshake names, at port 443, if the name ends within the first 1024 bytes, the lengths
  -- fit their fields and the name is UTF-8. Ahead of the name there may be any other extensions.
  pub destination_addr-put_hello :
      (h : Hello) (v w : ℕ) (rest : Bytes)
      → IsHello h
      → h.lead ≡ 22 ∷ v ∷ w ∷ []
      → length (put_hello h []) ≤ 1024
      → destination_addr advance memchr (ok (put_hello h rest)) ≡ done (h.name, 443)
  unfolding destination_addr sniff
  destination_addr-put_hello h v w rest k handshake size =
      let seen = take 1024 (put_hello h rest) in
      let zeros = replicate (1024 - length seen) 0 in
      let tail = take (1024 - length (put_hello h [])) rest in
      let split : put_hello h rest ≡ put_hello h [] ++ rest = sym (put_hello-append h [] rest) in
      let joined : seen ++ zeros ≡ put_hello h (tail ++ zeros) =
        ap (λ l. take 1024 l ++ zeros) split
        ∙ ap (λ l. l ++ zeros) (take-append 1024 (put_hello h []) rest size)
        ∙ append_assoc (put_hello h []) tail zeros
        ∙ put_hello-append h [] (tail ++ zeros) in
      rw joined (
        sniff_tls (put_hello h (tail ++ zeros)) _ h.name
          (ap (λ l. l ++ behind h (put_sni h (tail ++ zeros))) handshake)
          (tls_sni-put_hello advance law h k (tail ++ zeros)))
