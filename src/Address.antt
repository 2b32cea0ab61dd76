-- ===== src/Address.antt =====
-- lib/shadowsocks/src/addr.rs: the address that stands before a shadowsocks payload.
pub mod Utf8
pub mod Wire
pub mod Canonical
mod Tests
use roxy.Base.{
  ℕ, ◌+◌, ◌*◌, Bool, true, false, Option, none, some, List, [], ◌∷◌, ◌++◌, length, take, drop, leb,
  ltb, ◌==◌, if◌then◌else◌, Result, ok, err, ◌>>=◌,
}
use roxy.Base.Bytes.{Bytes, be16, from_be16}
use roxy.Address.Utf8.{is_utf8}
use roxy.Socks5.{Error, ErrorKind}

-- `std::net::Ipv6Addr`: eight segments.
pub record Segments : Type 0 where
  pub s0 : ℕ
  pub s1 : ℕ
  pub s2 : ℕ
  pub s3 : ℕ
  pub s4 : ℕ
  pub s5 : ℕ
  pub s6 : ℕ
  pub s7 : ℕ

-- `std::net::SocketAddr`: four octets and a port; segments, port, flow information and scope.
pub data SocketAddr : Type 0 where
  v4 : ℕ → ℕ → ℕ → ℕ → ℕ → SocketAddr
  v6 : Segments → ℕ → ℕ → ℕ → SocketAddr

-- A domain is its UTF-8 bytes.
pub data Address : Type 0 where
  socket_address : SocketAddr → Address
  domain_name_address : Bytes → ℕ → Address

unfoldable pub get_addr_len : Address → ℕ
get_addr_len (socket_address (v4 _ _ _ _ _)) = 1 + 4 + 2
get_addr_len (socket_address (v6 _ _ _ _)) = 1 + 8 * 2 + 2
get_addr_len (domain_name_address domain _) = 1 + 1 + length domain + 2

unfoldable pub serialized_len : Address → ℕ
unfolding get_addr_len
serialized_len a = get_addr_len a

abbrev pub put_segments : Segments → Bytes → Bytes
put_segments s rest =
    be16 s.s0
    ++ (be16 s.s1
        ++ (be16 s.s2
            ++ (be16 s.s3 ++ (be16 s.s4 ++ (be16 s.s5 ++ (be16 s.s6 ++ (be16 s.s7 ++ rest)))))))

-- Appends to `buf`; `none` is the failed assertion on the length of the domain.
unfoldable pub write_to_buf : Address → Bytes → Option Bytes
write_to_buf (socket_address (v4 a b c d port)) buf =
    some (buf ++ (0x01 ∷ a ∷ b ∷ c ∷ d ∷ be16 port))
write_to_buf (socket_address (v6 ip port _ _)) buf =
    some (buf ++ (0x04 ∷ put_segments ip (be16 port)))
write_to_buf (domain_name_address domain port) buf =
    if leb (length domain) 255
    then some (buf ++ (0x03 ∷ length domain ∷ (domain ++ be16 port)))
    else none

-- `AsyncReadExt::read_exact` on a stream that holds these bytes and then ends: the bytes read and
-- the bytes left, or `UnexpectedEof`.
unfoldable pub read_exact : ℕ → Bytes → Result Error (Bytes × Bytes)
read_exact n s =
    if leb n (length s) then ok (take n s, drop n s) else err (Error.io ErrorKind.unexpected_eof)

-- The six bytes behind the tag of an IPv4 address.
unfoldable pub v4_from : Bytes × Bytes → Result Error (Address × Bytes)
v4_from (a ∷ b ∷ c ∷ d ∷ p ∷ q ∷ [], rest) = ok (socket_address (v4 a b c d (from_be16 p q)), rest)
v4_from _ = err (Error.io ErrorKind.unexpected_eof)

-- The eighteen bytes behind the tag of an IPv6 address.
unfoldable pub v6_from : Bytes × Bytes → Result Error (Address × Bytes)
v6_from
      (a ∷ a' ∷ b ∷ b' ∷ c ∷ c' ∷ d ∷ d' ∷ e ∷ e' ∷ f ∷ f' ∷ g ∷ g' ∷ h ∷ h' ∷ p ∷ p' ∷ [], rest) =
    let ip : Segments = record {
      s0 = from_be16 a a';
      s1 = from_be16 b b';
      s2 = from_be16 c c';
      s3 = from_be16 d d';
      s4 = from_be16 e e';
      s5 = from_be16 f f';
      s6 = from_be16 g g';
      s7 = from_be16 h h';
    } in
    ok (socket_address (v6 ip (from_be16 p p') 0 0), rest)
v6_from _ = err (Error.io ErrorKind.unexpected_eof)

-- The first two bytes of a slice as a big-endian number.
abbrev pub port_of : Bytes → ℕ
port_of (p ∷ q ∷ _) = from_be16 p q
port_of _ = 0

-- `raw_addr`: the domain and the port, of which the last two bytes are cut off.
unfoldable pub domain_from : ℕ → Bytes × Bytes → Result Error (Address × Bytes)
domain_from length (raw_addr, rest) =
    let port = port_of (drop length raw_addr) in
    let domain = take length raw_addr in
    if is_utf8 domain
    then ok (domain_name_address domain port, rest)
    else err Error.address_domain_invalid_encoding

unfoldable pub domain_length_from : Bytes × Bytes → Result Error (Address × Bytes)
unfolding read_exact domain_from
domain_length_from (length ∷ [], s) = read_exact (length + 2) s >>= domain_from length
domain_length_from _ = err (Error.io ErrorKind.unexpected_eof)

unfoldable pub read_tagged : Bytes × Bytes → Result Error (Address × Bytes)
unfolding read_exact v4_from v6_from domain_length_from
read_tagged (addr_type ∷ [], s) =
    if addr_type == 0x01
    then read_exact 6 s >>= v4_from
    else if addr_type == 0x04
    then read_exact 18 s >>= v6_from
    else if addr_type == 0x03
    then read_exact 1 s >>= domain_length_from
    else err (Error.address_type_not_supported addr_type)
read_tagged _ = err (Error.io ErrorKind.unexpected_eof)

-- The address, and what is left in the stream.
unfoldable pub read_from : Bytes → Result Error (Address × Bytes)
unfolding read_exact read_tagged
read_from s = read_exact 1 s >>= read_tagged
