-- ===== src/Sniff.antt =====
-- src/relay/thp/sniffing.rs: the destination of a connection, from the bytes that its client sends
-- first. `advance` is `Buf::advance` of a cursor, where `none` is its panic, and `memchr` is that of
-- the crate of this name. A cursor is the bytes in front of it.
pub mod Text
pub mod Http
pub mod Hello
pub mod Ends
pub mod Whole
mod Tests
use roxy.Base.{
  ℕ, zero, suc, ◌+◌, ◌*◌, Option, none, some, [], ◌∷◌, ◌++◌, length, take, drop, ltb, leb, ◌==◌,
  if◌then◌else◌, ◌||◌, replicate, ◌-◌, Result, ok, err, true, false, Bool,
}
use roxy.Base.Bytes.{Bytes, codes, from_be16}
use roxy.Address.Utf8.{is_utf8}
use roxy.Socks5.{ErrorKind}
use roxy.Rule.{same}
use roxy.Sniff.Text.{trim}

-- The payloads of the errors of the libraries are left out.
pub data SniffError : Type 0 where
  io : ErrorKind → SniffError
  resolve unknown_protocol host_not_found invalid_request_header invalid_sni : SniffError
  tls_extension_missing : SniffError

-- How a run ends; `starved` is a loop whose fuel did not suffice.
pub data Run (A : Type 0) : Type 0 where
  starved panic : Run A
  fail : SniffError → Run A
  done : A → Run A

module _ {A B : Type 0} where
  infixl 5 ◌>>=◌
  abbrev pub ◌>>=◌ : Run A → (A → Run B) → Run B
  starved >>= next = starved
  panic >>= next = panic
  fail e >>= next = fail e
  done a >>= next = next a

abbrev pub or_panic : {A : Type 0} → Option A → Run A
or_panic none = panic
or_panic (some a) = done a

-- The `ReadExt` trait: a read of one byte asserts that there is one.
unfoldable pub read_u8 : Bytes → Run (ℕ × Bytes)
read_u8 [] = panic
read_u8 (b ∷ s) = done (b, s)

unfoldable pub read_u16 : Bytes → Run (ℕ × Bytes)
read_u16 (a ∷ b ∷ s) = done (from_be16 a b, s)
read_u16 _ = fail (SniffError.io ErrorKind.unexpected_eof)

unfoldable pub read_u24 : Bytes → Run (ℕ × Bytes)
read_u24 (a ∷ b ∷ c ∷ s) = done (a * 65536 + from_be16 b c, s)
read_u24 _ = fail (SniffError.io ErrorKind.unexpected_eof)

-- The name behind its type: a length, and as many bytes.
unfoldable pub host_name : Bytes → Run Bytes
unfolding read_u16
host_name s = do
  (name_len, r) ← read_u16 s
  if leb name_len (length r)
      then if is_utf8 (take name_len r) then done (take name_len r) else fail invalid_sni
      else fail (SniffError.io ErrorKind.unexpected_eof)

module _ (advance : ℕ → Bytes → Option Bytes) where
  -- The loop over the names of the extension, at most `fuel` of them.
  unfoldable pub names : ℕ → Bytes → Run Bytes
  unfolding read_u8 host_name
  names zero s = starved
  names (suc fuel) s = do
    (name_type, r) ← read_u8 s
    elim (name_type == 0) [
      | true ↦ host_name r
      | false ↦ (or_panic (advance 2 r) >>= λ t. names fuel t)
    ]

  -- The loop over the extensions.
  unfoldable pub extensions : ℕ → Bytes → Run Bytes
  unfolding read_u16 names
  extensions zero s = starved
  extensions (suc fuel) s = do
    (ext_typ, r) ← read_u16 s
    (ext_len, t) ← read_u16 r
    elim (ext_typ == 0) [
      | true ↦ (read_u16 t >>= λ u. names (suc (length u.1)) u.1)
      | false ↦ (or_panic (advance ext_len t) >>= λ u. extensions fuel u)
    ]

  -- From the length of the handshake message on.
  unfoldable pub client_hello : Bytes → Run Bytes
  unfolding read_u8 read_u16 read_u24 extensions
  client_hello s = do
    (msg_length, s1) ← read_u24 s
    s2 ← or_panic (advance (2 + (4 + 28)) s1)
    (sess_len, s3) ← read_u8 s2
    s4 ← or_panic (advance sess_len s3)
    (cs_len, s5) ← read_u16 s4
    s6 ← or_panic (advance cs_len s5)
    (cm_len, s7) ← read_u8 s6
    s8 ← or_panic (advance cm_len s7)
    (ext_len, s9) ← read_u16 s8
    if ext_len == 0 then fail tls_extension_missing else extensions (suc (length s9)) s9

  unfoldable pub tls_sni : Bytes → Run Bytes
  unfolding read_u8 read_u16 client_hello
  tls_sni buf = do
    s ← or_panic (advance (1 + 2) buf)
    (len, s1) ← read_u16 s
    (msg_type, s2) ← read_u8 s1
    if msg_type == 1 then client_hello s2 else fail unknown_protocol

-- The value of a header: the bytes from `start + 5` to `start + next`.
unfoldable pub header_value : Bytes → Run Bytes
header_value v = if is_utf8 v then done (trim v) else fail invalid_request_header

module _ (memchr : ℕ → Bytes → Option ℕ) where
  -- The loop, with the bytes from `start` on.
  unfoldable pub header_loop : ℕ → Bytes → Run Bytes
  unfolding header_value same
  header_loop zero s = starved
  header_loop (suc fuel) s = elim (memchr 10 s) [
    | none ↦ fail host_not_found
    | some next ↦ elim (next == 0) [
      | true ↦ fail host_not_found
      | false ↦ elim (ltb next 5) [
        | true ↦ header_loop fuel (drop (next + 1) s)
        | false ↦ elim (same (take 5 s) (codes "Host:")) [
          | true ↦ header_value (drop 5 (take next s))
          | false ↦ header_loop fuel (drop (next + 1) s)
        ]
      ]
    ]
  ]

  unfoldable pub http_host : Bytes → Run Bytes
  unfolding header_loop
  http_host buf = header_loop (suc (length buf)) buf

abbrev pub is_http : ℕ → Bool
is_http b = b == 71 || b == 80 || b == 68 || b == 72 || b == 67 || b == 79 || b == 84

module _ (advance : ℕ → Bytes → Option Bytes) (memchr : ℕ → Bytes → Option ℕ) where
  -- What is sniffed from the buffer of 1024 bytes.
  unfoldable pub sniff : Bytes → Run (Bytes × ℕ)
  unfolding tls_sni http_host
  sniff [] = panic
  sniff (b ∷ bs) =
      if b == 22
      then tls_sni advance (b ∷ bs) >>= (λ domain. done (domain, 443))
      else if is_http b
      then http_host memchr (b ∷ bs) >>= (λ domain. done (domain, 80))
      else fail unknown_protocol

  -- `peeked` is what `peek` copied to the front of the zeroed buffer.
  unfoldable pub destination_addr : Result ErrorKind Bytes → Run (Bytes × ℕ)
  unfolding sniff
  destination_addr (err e) = fail (SniffError.io e)
  destination_addr (ok peeked) =
      let seen = take 1024 peeked in sniff (seen ++ replicate (1024 - length seen) 0)
