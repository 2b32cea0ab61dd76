-- ===== src/Address/Wire.antt =====
-- What `read_from` reads back of what `write_to_buf` wrote.
use roxy.Base.{
  ℕ, ◌+◌, ◌<◌, ◌≡◌, refl, ap, ◌∙◌, true, none, some, [], ◌∷◌, ◌++◌, ◌↔◌, arith, length,
  length-append, take-length, drop-length, ok,
}
use mathlib.Core.Option.{some-injective}
use roxy.Base.Bytes.{Bytes, be16, from_be16-be16}
use roxy.Address.Utf8.{is_utf8}
use roxy.Address.{
  Address, Segments, socket_address, domain_name_address, v4, v6, serialized_len, get_addr_len,
  write_to_buf, read_exact, read_from, read_tagged, v4_from, v6_from, domain_from,
  domain_length_from, put_segments, port_of,
}

abbrev pub IsWord : ℕ → Type 0
IsWord x = x < 65536

-- The range of each part, which the Rust types give.
abbrev pub IsValid : Address → Type 0
IsValid (socket_address (v4 _ _ _ _ port)) = IsWord port
IsValid (socket_address (v6 s port _ _)) =
    IsWord s.s0
    × IsWord s.s1
    × IsWord s.s2
    × IsWord s.s3
    × IsWord s.s4
    × IsWord s.s5
    × IsWord s.s6
    × IsWord s.s7
    × IsWord port
IsValid (domain_name_address domain port) = (is_utf8 domain ≡ true) × IsWord port

-- The wire form holds neither the flow information nor the scope of an IPv6 address.
unfoldable pub on_wire : Address → Address
on_wire (socket_address (v6 ip port _ _)) = socket_address (v6 ip port 0 0)
on_wire a = a

read_exact-append : (n : ℕ) (xs ys : Bytes) → n ≡ length xs → read_exact n (xs ++ ys) ≡ ok (xs, ys)
unfolding read_exact
read_exact-append n xs ys h =
    ground (arith, length-append xs ys, take-length xs ys n h, drop-length xs ys n h)

port_of-be16 : (x : ℕ) → IsWord x → port_of (be16 x) ≡ x
port_of-be16 x h = omega arith

domain_from-append :
    (domain : Bytes) (port : ℕ) (rest : Bytes)
    → is_utf8 domain ≡ true
    → IsWord port
    → domain_from (length domain) (domain ++ be16 port, rest)
      ≡ ok (domain_name_address domain port, rest)
unfolding domain_from
domain_from-append domain port rest u p = rw (
  take-length domain (be16 port) (length domain) refl,
  drop-length domain (be16 port) (length domain) refl,
  u,
  port_of-be16 port p,
)

read_from-cons : (t : ℕ) (body : Bytes) → read_from (t ∷ body) ≡ read_tagged (t ∷ [], body)
unfolding read_from
read_from-cons t body = rw (read_exact-append 1 (t ∷ []) body refl)

module _ (rest : Bytes) where
  read_from-v4 :
      (a b c d port : ℕ)
      → IsWord port
      → read_from ((0x01 ∷ a ∷ b ∷ c ∷ d ∷ be16 port) ++ rest)
        ≡ ok (socket_address (v4 a b c d port), rest)
  read_from-v4 a b c d port h =
      read_from-cons 0x01 _
      ∙ (unfold read_tagged v4_from read_exact in
          rw (read_exact-append 6 (a ∷ b ∷ c ∷ d ∷ be16 port) rest refl)
            (rw (from_be16-be16 port h)))

  read_from-v6 :
      (s : Segments) (port f i : ℕ)
      → IsValid (socket_address (v6 s port f i))
      → read_from ((0x04 ∷ put_segments s (be16 port)) ++ rest)
        ≡ ok (socket_address (v6 s port 0 0), rest)
  read_from-v6 s port f i v =
      read_from-cons 0x04 _
      ∙ (unfold read_tagged v6_from in
          rw (read_exact-append 18 (put_segments s (be16 port)) rest refl) (
            rw (
              from_be16-be16 s.s0 v.0,
              from_be16-be16 s.s1 v.1,
              from_be16-be16 s.s2 v.2,
              from_be16-be16 s.s3 v.3,
              from_be16-be16 s.s4 v.4,
              from_be16-be16 s.s5 v.5,
              from_be16-be16 s.s6 v.6,
              from_be16-be16 s.s7 v.7,
              from_be16-be16 port v.8,
            )))

  read_from-domain :
      (domain : Bytes) (port : ℕ)
      → is_utf8 domain ≡ true
      → IsWord port
      → read_from ((0x03 ∷ length domain ∷ (domain ++ be16 port)) ++ rest)
        ≡ ok (domain_name_address domain port, rest)
  read_from-domain domain port u p =
      read_from-cons 0x03 _
      ∙ (unfold read_tagged domain_length_from in
          rw
            (
              read_exact-append 1 (length domain ∷ []) ((domain ++ be16 port) ++ rest) refl,
              read_exact-append (length domain + 2) (domain ++ be16 port) rest
                  (omega (arith, length-append domain (be16 port))),
            )
            (domain_from-append domain port rest u p))

-- Every address that `write_to_buf` writes is read back from the start of a stream, up to the flow information and scope of an IPv6 address, and `read_from` leaves exactly what stands behind it.
pub read_from-write_to_buf :
    (a : Address) (out rest : Bytes)
    → IsValid a
    → write_to_buf a [] ≡ some out
    → read_from (out ++ rest) ≡ ok (on_wire a, rest)
unfolding write_to_buf on_wire
read_from-write_to_buf (socket_address (v4 a b c d port)) out rest v h =
    rw (← some-injective _ _ h) (read_from-v4 rest a b c d port v)
read_from-write_to_buf (socket_address (v6 s port f i)) out rest v h =
    rw (← some-injective _ _ h) (read_from-v6 rest s port f i v)
read_from-write_to_buf (domain_name_address domain port) out rest v h =
    rw (← written) (read_from-domain rest domain port v.0 v.1)
  where
    written : 0x03 ∷ length domain ∷ (domain ++ be16 port) ≡ out
    written = ground arith

-- `write_to_buf` appends exactly `serialized_len` bytes to the buffer, and it panics exactly at a domain name of more than 255 bytes.
pub length-write_to_buf :
    (a : Address) (buf : Bytes)
    → ((out : Bytes) → write_to_buf a buf ≡ some out → length out ≡ length buf + serialized_len a)
      × ((write_to_buf a buf ≡ none) ↔ (259 < serialized_len a))
unfolding write_to_buf serialized_len get_addr_len
length-write_to_buf (socket_address (v4 a b c d port)) buf = (
  λ out h. rw (← some-injective _ _ h) (length-append buf _),
  (λ h. cc, λ h. absurd (omega arith)),
)
length-write_to_buf (socket_address (v6 s port f i)) buf = (
  λ out h. rw (← some-injective _ _ h) (length-append buf _),
  (λ h. cc, λ h. absurd (omega arith)),
)
length-write_to_buf (domain_name_address domain port) buf = (
  λ out h. ground (
    arith,
    length-append buf (0x03 ∷ length domain ∷ (domain ++ be16 port)),
    length-append domain (be16 port),
  ),
  (λ h. ground arith, λ h. ground arith),
)

-- What is appended does not depend on the buffer.
pub write_to_buf-append :
    (a : Address) (buf out : Bytes)
    → write_to_buf a [] ≡ some out
    → write_to_buf a buf ≡ some (buf ++ out)
unfolding write_to_buf
write_to_buf-append (socket_address (v4 a b c d port)) buf out h =
    ap (λ o. some (buf ++ o)) (some-injective _ _ h)
write_to_buf-append (socket_address (v6 s port f i)) buf out h =
    ap (λ o. some (buf ++ o)) (some-injective _ _ h)
write_to_buf-append (domain_name_address domain port) buf out h = ground arith
