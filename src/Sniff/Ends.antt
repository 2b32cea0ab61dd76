-- ===== src/Sniff/Ends.antt =====
-- The loops of the sniffer end, and the two protocols as the whole function sees them.
use roxy.Base.{
  ℕ, zero, suc, ◌-◌, ◌≤◌, ◌<◌, ◌≡◌, ◌≢◌, refl, sym, ap, ◌∙◌, inl, inr, Bool-cases, Option, none,
  some, List, [], ◌∷◌, ◌++◌, length, length-drop, take, drop, leb, ◌==◌, arith, replicate, Result,
  ok, err,
}
use mathlib.Core.Option.{some-injective}
use roxy.Base.Bytes.{Bytes, codes}
use roxy.Socks5.{ErrorKind}
use roxy.Address.Utf8.{is_utf8}
use roxy.Rule.{same}
use roxy.Sniff.{
  Run, starved, panic, fail, done, ◌>>=◌, or_panic, read_u8, read_u16, read_u24, host_name, names,
  extensions, client_hello, tls_sni, header_value, http_host, sniff, destination_addr, is_http,
}
use roxy.Sniff.Hello.{IsAdvance}
use roxy.Sniff.Http.{IsMemchr, lines, host_of, http_host_by_lines}

>>=-ends :
    {A B : Type 0} (r : Run A) (next : A → Run B)
    → r ≢ starved
    → ((a : A) → r ≡ done a → next a ≢ starved)
    → (r >>= next) ≢ starved
>>=-ends starved next h k e = absurd (h refl)
>>=-ends panic next h k e = cc
>>=-ends (fail x) next h k e = cc
>>=-ends (done a) next h k e = k a refl e

or_panic-ends : {A : Type 0} (o : Option A) → or_panic o ≢ starved
or_panic-ends none e = cc
or_panic-ends (some a) e = cc

or_panic-done : {A : Type 0} (o : Option A) (a : A) → or_panic o ≡ done a → o ≡ some a
or_panic-done none a e = cc
or_panic-done (some b) a e = cc

-- A word is read, and what is left is shorter.
read_u16-ends : (s : Bytes) → read_u16 s ≢ starved
unfolding read_u16
read_u16-ends [] e = cc
read_u16-ends (a ∷ []) e = cc
read_u16-ends (a ∷ b ∷ s) e = cc

read_u16-lt : (s : Bytes) (x : ℕ × Bytes) → read_u16 s ≡ done x → length x.1 < length s
unfolding read_u16
read_u16-lt [] x e = cc
read_u16-lt (a ∷ []) x e = cc
read_u16-lt (a ∷ b ∷ s) x e = let left : s ≡ x.1 = cc in omega (arith, ap length left)

read_u8-ends : (s : Bytes) → read_u8 s ≢ starved
unfolding read_u8
read_u8-ends [] e = cc
read_u8-ends (a ∷ s) e = cc

read_u8-lt : (s : Bytes) (x : ℕ × Bytes) → read_u8 s ≡ done x → length x.1 < length s
unfolding read_u8
read_u8-lt [] x e = cc
read_u8-lt (a ∷ s) x e = let left : s ≡ x.1 = cc in omega (arith, ap length left)

read_u24-ends : (s : Bytes) → read_u24 s ≢ starved
unfolding read_u24
read_u24-ends [] e = cc
read_u24-ends (a ∷ []) e = cc
read_u24-ends (a ∷ b ∷ []) e = cc
read_u24-ends (a ∷ b ∷ c ∷ s) e = cc

host_name-ends : (s : Bytes) → host_name s ≢ starved
unfolding host_name
host_name-ends s = >>=-ends (read_u16 s) _ (read_u16-ends s) λ x h e.
    elim (Bool-cases (leb x.0 (length x.1))) [
      | inl fits ↦ elim (Bool-cases (is_utf8 (take x.0 x.1))) [
        | inl text ↦ (let bad = rw (fits, text) at e in cc)
        | inr text ↦ (let bad = rw (fits, text) at e in cc)
      ]
      | inr fits ↦ (let bad = rw fits at e in cc)
    ]

header_value-ends : (v : Bytes) → header_value v ≢ starved
unfolding header_value
header_value-ends v e = elim (Bool-cases (is_utf8 v)) [
  | inl t ↦ (let bad = rw (t) at e in cc)
  | inr t ↦ (let bad = rw (t) at e in cc)
]

host_of-ends : (ls : List Bytes) → host_of ls ≢ starved
unfolding host_of
host_of-ends [] e = cc
host_of-ends ([] ∷ ls) e = cc
host_of-ends ((c ∷ l) ∷ ls) e = elim (Bool-cases (same (take 5 (c ∷ l)) (codes "Host:"))) [
  | inl t ↦ header_value-ends (drop 5 (c ∷ l)) (rw (t, host_of) at e)
  | inr t ↦ host_of-ends ls (rw (t, host_of) at e)
]

module _ (advance : ℕ → Bytes → Option Bytes) (law : IsAdvance advance) where
  advance-le : (n : ℕ) (s t : Bytes) → or_panic (advance n s) ≡ done t → length t ≤ length s
  advance-le n s t e = elim (Bool-cases (leb n (length s))) [
    | inl fits ↦
        let there : some (drop n s) ≡ some t =
          sym (law.skips n s (ground arith)) ∙ or_panic-done (advance n s) t e in
        omega (arith, ap length (some-injective _ _ there), length-drop n s)
    | inr over ↦
        let gone : none ≡ some t =
          sym (law.stops n s (ground arith)) ∙ or_panic-done (advance n s) t e in
        cc
  ]

  names-ends : (fuel : ℕ) (s : Bytes) → length s < fuel → names advance fuel s ≢ starved
  unfolding names
  names-ends zero s h = absurd (omega arith)
  names-ends (suc fuel) s h = >>=-ends (read_u8 s) _ (read_u8-ends s) λ x e.
      elim (Bool-cases (x.0 == 0)) [
        | inl t ↦ rw (t, names) (host_name-ends x.1)
        | inr t ↦
            rw (t, names)
              (>>=-ends (or_panic (advance 2 x.1)) (names advance fuel)
                (or_panic-ends (advance 2 x.1))
                λ u there.
                  names-ends fuel u (omega (arith, h, read_u8-lt s x e, advance-le 2 x.1 u there)))
      ]

  extensions-ends : (fuel : ℕ) (s : Bytes) → length s < fuel → extensions advance fuel s ≢ starved
  unfolding extensions
  extensions-ends zero s h = absurd (omega arith)
  extensions-ends (suc fuel) s h = >>=-ends (read_u16 s) _ (read_u16-ends s) λ x e.
      >>=-ends (read_u16 x.1) _ (read_u16-ends x.1) λ y f. elim (Bool-cases (x.0 == 0)) [
        | inl t ↦
            rw (t, extensions)
              (>>=-ends (read_u16 y.1) _ (read_u16-ends y.1)
                λ u g. names-ends (suc (length u.1)) u.1 (omega arith))
        | inr t ↦
            rw (t, extensions)
              (>>=-ends (or_panic (advance y.0 y.1)) _ (or_panic-ends (advance y.0 y.1)) λ u g.
                extensions-ends fuel u (
                  omega (arith, h, read_u16-lt s x e, read_u16-lt x.1 y f, advance-le y.0 y.1 u g)))
      ]

  client_hello-ends : (s : Bytes) → client_hello advance s ≢ starved
  unfolding client_hello
  client_hello-ends s = >>=-ends (read_u24 s) _ (read_u24-ends s) λ a _.
      >>=-ends (or_panic (advance 34 a.1)) _ (or_panic-ends _) λ b _.
        >>=-ends (read_u8 b) _ (read_u8-ends b) λ c _.
          >>=-ends (or_panic (advance c.0 c.1)) _ (or_panic-ends _) λ d _.
            >>=-ends (read_u16 d) _ (read_u16-ends d) λ f _.
              >>=-ends (or_panic (advance f.0 f.1)) _ (or_panic-ends _) λ g _.
                >>=-ends (read_u8 g) _ (read_u8-ends g) λ k _.
                  >>=-ends (or_panic (advance k.0 k.1)) _ (or_panic-ends _) λ l _.
                    >>=-ends (read_u16 l) _ (read_u16-ends l) λ m _. elim (Bool-cases (m.0 == 0)) [
                      | inl t ↦ (λ e. let bad = rw t at e in cc)
                      | inr t ↦ rw t (extensions-ends (suc (length m.1)) m.1 (omega arith))
                    ]

  tls_sni-ends : (s : Bytes) → tls_sni advance s ≢ starved
  unfolding tls_sni
  tls_sni-ends s = >>=-ends (or_panic (advance 3 s)) _ (or_panic-ends _) λ a _.
      >>=-ends (read_u16 a) _ (read_u16-ends a) λ b _.
        >>=-ends (read_u8 b.1) _ (read_u8-ends b.1) λ c _. elim (Bool-cases (c.0 == 1)) [
          | inl t ↦ rw t (client_hello-ends c.1)
          | inr t ↦ (λ e. let bad = rw t at e in cc)
        ]

  module _ (memchr : ℕ → Bytes → Option ℕ) (first : IsMemchr memchr) where
    sniff-ends : (s : Bytes) → sniff advance memchr s ≢ starved
    unfolding sniff
    sniff-ends [] = λ e. cc
    sniff-ends (b ∷ bs) = elim (Bool-cases (b == 22)) [
      | inl t ↦
          rw (t, sniff) (>>=-ends (tls_sni advance (b ∷ bs)) _ (tls_sni-ends (b ∷ bs)) λ d _ e. cc)
      | inr t ↦
          rw (t, sniff)
            (elim (Bool-cases (is_http b)) [
              | inl u ↦
                  rw (u, sniff)
                    (>>=-ends (http_host memchr (b ∷ bs)) _
                      (rw (http_host_by_lines memchr first (b ∷ bs))
                        (host_of-ends (lines (b ∷ bs))))
                      λ d _ e. cc)
              | inr u ↦ rw (u, sniff) (λ e. cc)
            ])
    ]

    -- Sniffing ends on every input, within the fuel of its loops: each one, over the lines, the
    -- extensions and the names, makes at most one turn more than there are bytes in front of it.
    pub destination_addr_ends :
        (peeked : Result ErrorKind Bytes) → destination_addr advance memchr peeked ≢ starved
    unfolding destination_addr
    destination_addr_ends (err x) = λ e. cc
    destination_addr_ends (ok s) =
        sniff-ends (take 1024 s ++ replicate (1024 - length (take 1024 s)) 0)
