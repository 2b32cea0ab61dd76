-- ===== src/Sniff/Tests.antt =====
-- Runs of the sniffer, and the cases of its theorems.
use roxy.Base.{
  ℕ, suc, ◌≡◌, ◌≢◌, refl, true, false, Option, none, some, [], ◌∷◌, ◌++◌, length, get_elem?, take,
  drop, leb, ◌==◌, if◌then◌else◌, replicate, arith, ok, ap, inl, inr, Bool-cases, Option-cases,
}
use mathlib.Core.Option.{some-injective}
use roxy.Base.Bytes.{Bytes, codes, be16}
use roxy.Address.Utf8.{is_utf8}
use roxy.Sniff.Text.{trim}
use roxy.Sniff.{starved, panic, done, tls_sni, http_host, destination_addr}
use roxy.Sniff.Http.{Absent, IsMemchr, lines, host_of, http_host_by_lines}
use roxy.Sniff.Hello.{IsAdvance, Hello, IsHello, put_message, put_hello, tls_sni_overrun}
use roxy.Sniff.Ends.{destination_addr_ends}
use roxy.Sniff.Whole.{destination_addr-put_hello}

abbrev advance : ℕ → Bytes → Option Bytes
advance n s = if leb n (length s) then some (drop n s) else none

advance-IsAdvance : IsAdvance advance
advance-IsAdvance = record {
  skips = λ n s h. let e : leb n (length s) ≡ true = ground arith in rw e refl;
  stops = λ n s h. let e : leb n (length s) ≡ false = ground arith in rw e refl;
}

abbrev bump : Option ℕ → Option ℕ
bump none = none
bump (some i) = some (suc i)

abbrev memchr : ℕ → Bytes → Option ℕ
memchr b [] = none
memchr b (c ∷ s) = let rest = memchr b s in if c == b then some 0 else bump rest

memchr-missing : (b : ℕ) (s : Bytes) → memchr b s ≡ none → Absent b s
memchr-missing b [] h = tt
memchr-missing b (c ∷ s) h = elim (Bool-cases (c == b)) [
  | inl e ↦ (let bad : some 0 ≡ none = rw e at h in cc)
  | inr e ↦ elim (Option-cases (memchr b s)) [
    | inl m ↦ ((ground arith), memchr-missing b s m)
    | inr (i, m) ↦ (let bad : some (suc i) ≡ none = rw (e, m) at h in cc)
  ]
]

memchr-found :
    (b : ℕ) (s : Bytes) (i : ℕ)
    → memchr b s ≡ some i
    → (get_elem? s i ≡ some b) × Absent b (take i s)
memchr-found b [] i h = cc
memchr-found b (c ∷ s) i h = elim (Bool-cases (c == b)) [
  | inl e ↦
      let first : 0 ≡ i = some-injective _ _ (rw e at h) in
      rw (← first) (ap some (ground arith), tt)
  | inr e ↦ elim (Option-cases (memchr b s)) [
    | inl m ↦ (let bad : none ≡ some i = rw (e, m) at h in cc)
    | inr (j, m) ↦
        let later : suc j ≡ i = some-injective _ _ (rw (e, m) at h) in
        let (there, before) = memchr-found b s j m in rw (← later) (there, (ground arith, before))
  ]
]

memchr-IsMemchr : IsMemchr memchr
memchr-IsMemchr = record { missing = memchr-missing; found = memchr-found }

abbrev request : Bytes
request =
    codes "GET /images/logo.png HTTP/1.1"
    ++ (10 ∷ (codes "Host: www.example.com" ++ (10 ∷ (codes "Accept-Language: en" ++ (10 ∷ [])))))

request_host : http_host memchr request ≡ done (codes "www.example.com")
unfolding http_host is_utf8 trim
request_host = refl

-- A carriage return makes the empty line another line, so that the body is searched as well.
abbrev crlf_request : Bytes
crlf_request = codes "POST / HTTP/1.1" ++ (13 ∷ 10 ∷ 13 ∷ 10 ∷ (codes "Host: evil" ++ (10 ∷ [])))

crlf_host : http_host memchr crlf_request ≡ done (codes "evil")
unfolding http_host is_utf8 trim
crlf_host = refl

http_host_by_lines_example : http_host memchr request ≡ host_of (lines request)
http_host_by_lines_example = http_host_by_lines memchr memchr-IsMemchr request

abbrev hello : Hello
hello = record {
  lead = 22 ∷ 3 ∷ 1 ∷ [];
  record_length = 200;
  message_length = 196;
  random = replicate 34 7;
  session_id = 1 ∷ 2 ∷ [];
  cipher_suites = 19 ∷ 1 ∷ [];
  compression_methods = 0 ∷ [];
  extensions_length = 50;
  others = record { typ = 23; body = 9 ∷ 9 ∷ [] } ∷ [];
  sni_length = 20;
  list_length = 18;
  name = codes "mail.google.com";
}

hello-IsHello : IsHello hello
hello-IsHello = record {
  lead_size = refl;
  random_size = refl;
  suites_size = omega arith;
  extensions_size = (omega arith, omega arith);
  others_size = ((omega arith, omega arith, omega arith), tt);
  name_size = omega arith;
  name_text = (unfold roxy.Address.Utf8.is_utf8 in refl);
}

tls_sni_overrun_example :
    tls_sni advance (put_message hello (be16 21 ++ (be16 300 ++ replicate 100 0))) ≡ panic
tls_sni_overrun_example =
    tls_sni_overrun advance advance-IsAdvance hello hello-IsHello 21 300 (replicate 100 0)
      (omega arith) (omega arith) (omega arith) (omega arith)

destination_addr_ends_example : destination_addr advance memchr (ok (22 ∷ 3 ∷ [])) ≢ starved
destination_addr_ends_example =
    destination_addr_ends advance advance-IsAdvance memchr memchr-IsMemchr (ok (22 ∷ 3 ∷ []))

destination_addr-put_hello_example :
    destination_addr advance memchr (ok (put_hello hello (0 ∷ 21 ∷ 0 ∷ 200 ∷ replicate 2000 0)))
    ≡ done (codes "mail.google.com", 443)
destination_addr-put_hello_example =
    destination_addr-put_hello advance advance-IsAdvance memchr hello 3 1
      (0 ∷ 21 ∷ 0 ∷ 200 ∷ replicate 2000 0) hello-IsHello refl (omega arith)
