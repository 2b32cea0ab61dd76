-- ===== src/Address/Canonical.antt =====
-- `read_from` accepts only what `write_to_buf` writes.
use mathlib.Core.Path.{ap₂, subst}
use roxy.Base.{
  ℕ, zero, suc, ◌==◌, ==_iff, Bool-cases, inl, inr, ◌+◌, ◌<◌, ◌≡◌, sym, ap, ◌∙◌, true, some, [],
  ◌∷◌, ◌++◌, arith, length, take, drop, Result, ok, err, ◌>>=◌, >>=-eq-ok, take-append-drop,
  length-take,
}
use roxy.Base.Bytes.{Bytes, be16, from_be16, IsBytes, IsBytes-append_left}
use roxy.Socks5.{Error}
use roxy.Address.{
  Address, write_to_buf, read_exact, read_from, read_tagged, v4_from, v6_from, domain_from,
  domain_length_from, port_of,
}

read_exact-ok :
    (n : ℕ) (s : Bytes) {xs rest : Bytes}
    → read_exact n s ≡ ok (xs, rest)
    → (s ≡ xs ++ rest) × (length xs ≡ n)
unfolding read_exact
read_exact-ok n s h = ground (arith, take-append-drop n s, length-take n s)

be16-from_be16 : (a b : ℕ) → a < 256 → b < 256 → be16 (from_be16 a b) ≡ a ∷ b ∷ []
be16-from_be16 a b ha hb = ground arith

v4_from-ok :
    (xs rest r : Bytes) (a : Address)
    → IsBytes xs
    → v4_from (xs, rest) ≡ ok (a, r)
    → (write_to_buf a [] ≡ some (0x01 ∷ xs)) × (r ≡ rest)
unfolding v4_from
v4_from-ok (a ∷ b ∷ c ∷ d ∷ p ∷ q ∷ []) rest r ad w h =
    unfold write_to_buf in ground (arith, be16-from_be16 p q w.1.1.1.1.0 w.1.1.1.1.1.0)
v4_from-ok _ rest r ad w h = cc

be16-append :
    (a b : ℕ) (xs ys : Bytes)
    → a < 256
    → b < 256
    → xs ≡ ys
    → be16 (from_be16 a b) ++ xs ≡ a ∷ b ∷ ys
be16-append a b xs ys ha hb e = ap₂ ◌++◌ (be16-from_be16 a b ha hb) e

v6_from-ok :
    (xs rest r : Bytes) (a : Address)
    → IsBytes xs
    → v6_from (xs, rest) ≡ ok (a, r)
    → (write_to_buf a [] ≡ some (0x04 ∷ xs)) × (r ≡ rest)
unfolding v6_from
v6_from-ok (a ∷ a' ∷ b ∷ b' ∷ c ∷ c' ∷ d ∷ d' ∷ e ∷ e' ∷ f ∷ f' ∷ g ∷ g' ∷ h ∷ h' ∷ p ∷ p' ∷ [])
      rest r ad w eq =
    let w1 = w.1.1 in
    let w2 = w1.1.1 in
    let w3 = w2.1.1 in
    let w4 = w3.1.1 in
    let w5 = w4.1.1 in
    let w6 = w5.1.1 in
    let w7 = w6.1.1 in
    let w8 = w7.1.1 in
    let written = be16-append a a' _ _ w.0 w.1.0 (
      be16-append b b' _ _ w1.0 w1.1.0 (
        be16-append c c' _ _ w2.0 w2.1.0 (
          be16-append d d' _ _ w3.0 w3.1.0 (
            be16-append e e' _ _ w4.0 w4.1.0 (
              be16-append f f' _ _ w5.0 w5.1.0 (
                be16-append g g' _ _ w6.0 w6.1.0
                  (be16-append h h' _ _ w7.0 w7.1.0 (be16-from_be16 p p' w8.0 w8.1.0)))))))) in
    unfold write_to_buf in ground (arith, written)
v6_from-ok _ rest r ad w h = cc

-- What `domain_from` cuts into a domain and a port is the two written one behind the other.
take-append-port_of :
    (n : ℕ) (xs : Bytes)
    → IsBytes xs
    → length xs ≡ n + 2
    → take n xs ++ be16 (port_of (drop n xs)) ≡ xs
take-append-port_of zero (p ∷ q ∷ []) w h = be16-from_be16 p q w.0 w.1.0
take-append-port_of zero (p ∷ q ∷ r ∷ xs) w h = absurd (omega arith)
take-append-port_of zero (p ∷ []) w h = absurd (omega arith)
take-append-port_of zero [] w h = absurd (omega arith)
take-append-port_of (suc n) [] w h = absurd (omega arith)
take-append-port_of (suc n) (x ∷ xs) w h =
    ap (λ l. x ∷ l) (take-append-port_of n xs w.1 (omega arith))

domain_from-ok :
    (n : ℕ) (xs rest r : Bytes) (a : Address)
    → IsBytes xs
    → length xs ≡ n + 2
    → n < 256
    → domain_from n (xs, rest) ≡ ok (a, r)
    → (write_to_buf a [] ≡ some (0x03 ∷ n ∷ xs)) × (r ≡ rest)
unfolding domain_from write_to_buf
domain_from-ok n xs rest r a w len small h =
    ground (arith, take-append-port_of n xs w len, length-take n xs)

-- The stream `s` starts with what is written for `a`, and `r` stands behind it.
abbrev pub Starts : Bytes → Address → Bytes → Type 0
Starts s a r = (out : Bytes) × (write_to_buf a [] ≡ some out) × (s ≡ out ++ r)

module _ (body : Bytes) (w : IsBytes body) (r : Bytes) (a : Address) where
  tagged_v4 : (read_exact 6 body >>= v4_from) ≡ ok (a, r) → Starts (0x01 ∷ body) a r
  tagged_v4 h =
      let ((xs, rest), e, f) = >>=-eq-ok (read_exact 6 body) v4_from h in
      let (cut, _) = read_exact-ok 6 body e in
      let (wrote, same) =
        v4_from-ok xs rest r a (IsBytes-append_left xs rest (subst IsBytes cut w)) f in
      (0x01 ∷ xs, wrote, ap (λ l. 0x01 ∷ l) (cut ∙ ap (λ m. xs ++ m) (sym same)))

  tagged_v6 : (read_exact 18 body >>= v6_from) ≡ ok (a, r) → Starts (0x04 ∷ body) a r
  tagged_v6 h =
      let ((xs, rest), e, f) = >>=-eq-ok (read_exact 18 body) v6_from h in
      let (cut, _) = read_exact-ok 18 body e in
      let (wrote, same) =
        v6_from-ok xs rest r a (IsBytes-append_left xs rest (subst IsBytes cut w)) f in
      (0x04 ∷ xs, wrote, ap (λ l. 0x04 ∷ l) (cut ∙ ap (λ m. xs ++ m) (sym same)))

domain_length-ok :
    (n : ℕ) (body : Bytes) (r : Bytes) (a : Address)
    → IsBytes (n ∷ body)
    → (read_exact (n + 2) body >>= domain_from n) ≡ ok (a, r)
    → Starts (0x03 ∷ n ∷ body) a r
domain_length-ok n body r a w h =
    let ((xs, rest), e, f) = >>=-eq-ok (read_exact (n + 2) body) (domain_from n) h in
    let (cut, len) = read_exact-ok (n + 2) body e in
    let (wrote, same) =
      domain_from-ok n xs rest r a (IsBytes-append_left xs rest (subst IsBytes cut w.1)) len w.0
        f in
    (0x03 ∷ n ∷ xs, wrote, ap (λ l. 0x03 ∷ n ∷ l) (cut ∙ ap (λ m. xs ++ m) (sym same)))

read_exact-cons : (b : ℕ) (s : Bytes) → read_exact 1 (b ∷ s) ≡ ok (b ∷ [], s)
unfolding read_exact
read_exact-cons b s = ground arith

tagged_domain :
    (body r : Bytes) (a : Address)
    → IsBytes body
    → (read_exact 1 body >>= domain_length_from) ≡ ok (a, r)
    → Starts (0x03 ∷ body) a r
unfolding domain_length_from read_exact
tagged_domain [] r a w h = cc
tagged_domain (n ∷ body) r a w h = domain_length-ok n body r a w (rw (read_exact-cons n body) at h)

read_tagged-ok :
    (t : ℕ) (body r : Bytes) (a : Address)
    → IsBytes body
    → read_tagged (t ∷ [], body) ≡ ok (a, r)
    → Starts (t ∷ body) a r
unfolding read_tagged
read_tagged-ok t body r a w h = elim (Bool-cases (t == 0x01)) [
  | inl e ↦ is 0x01 e (tagged_v4 body w r a (rw e at h))
  | inr n1 ↦ elim (Bool-cases (t == 0x04)) [
    | inl e ↦ is 0x04 e (tagged_v6 body w r a (rw (n1, e) at h))
    | inr n2 ↦ elim (Bool-cases (t == 0x03)) [
      | inl e ↦ is 0x03 e (tagged_domain body r a w (rw (n1, n2, e) at h))
      | inr n3 ↦ not_supported (rw (n1, n2, n3) at h)
    ]
  ]
]
  where
    is : (k : ℕ) → (t == k) ≡ true → Starts (k ∷ body) a r → Starts (t ∷ body) a r
    is k e x = subst (λ b. Starts (b ∷ body) a r) (sym ((==_iff t k).0 e)) x

    not_supported :
        ◌≡◌ {A = Result Error (Address × Bytes)}
          (err (Error.address_type_not_supported t))
          (ok (a, r))
        → Starts (t ∷ body) a r
    not_supported h = cc

-- Where `read_from` accepts a stream of bytes, the stream is what `write_to_buf` writes for the
-- address that was read, followed by what `read_from` leaves.
pub read_from-ok :
    (s r : Bytes) (a : Address)
    → IsBytes s
    → read_from s ≡ ok (a, r)
    → (out : Bytes) × (write_to_buf a [] ≡ some out) × (s ≡ out ++ r)
unfolding read_from
read_from-ok [] r a w h = cc
read_from-ok (t ∷ body) r a w h = read_tagged-ok t body r a w.1 (rw (read_exact-cons t body) at h)
