-- ===== src/Config.antt =====
-- lib/shadowsocks/src/config.rs: the configuration of a server, from its parts or from a URL. Texts
-- are their bytes. The parsers of URLs, of socket addresses, of base64 and of percent-encoding, MD5
-- and `f32` are parameters.
pub mod Key
pub mod Holds
pub mod Opens
mod Tests
use roxy.Base.{
  ℕ, zero, suc, ◌+◌, ◌-◌, min, Bool, true, false, ◌&&◌, Option, none, some, List, [], ◌∷◌, ◌++◌,
  length, take, drop, replicate, ltb, leb, ◌==◌, if◌then◌else◌, Result, ok, err,
}
use roxy.Base.Bytes.{Bytes, codes, until, behind}
use mathlib.Core.Option
use roxy.Base.Digits.{parse_uint, decimal}
use roxy.Address.Utf8.{is_utf8}
use roxy.Address.{Address, SocketAddr, socket_address, domain_name_address}
use roxy.Crypto.Kind.{CipherKind, key_len, is_aead2022}
use roxy.Rule.{same}

pub data Mode : Type 0 where
  tcp_only udp_only tcp_and_udp : Mode

unfoldable pub enable_udp : Mode → Bool
enable_udp Mode.tcp_only = false
enable_udp _ = true

unfoldable pub enable_tcp : Mode → Bool
enable_tcp Mode.udp_only = false
enable_tcp _ = true

-- `f32`: 1.0, and whether a number exceeds 0.0.
pub record F32 : Type 1 where
  pub F : Type 0
  pub one : F
  pub positive : F → Bool

pub record ServerWeight (f : F32) : Type 0 where
  pub tcp_weight : f.F
  pub udp_weight : f.F

pub record ServerConfig (f : F32) : Type 0 where
  pub addr : Address
  pub password : Bytes
  pub method : CipherKind
  pub enc_key : Bytes
  pub timeout : Option ℕ
  pub identity_keys : List Bytes
  pub remarks : Option Bytes
  pub id : Option Bytes
  pub mode : Mode
  pub weight : ServerWeight f

pub data UrlParseError : Type 0 where
  parse_error invalid_scheme invalid_user_info missing_host invalid_auth_info : UrlParseError
  invalid_server_addr invalid_query_string : UrlParseError

-- How a run ends; `starved` is a recursion whose fuel did not suffice.
pub data Run (A : Type 0) : Type 0 where
  starved panic : Run A
  fail : UrlParseError → Run A
  done : A → Run A

module _ {A B : Type 0} where
  infixl 5 ◌>>=◌
  abbrev pub ◌>>=◌ : Run A → (A → Run B) → Run B
  starved >>= next = starved
  panic >>= next = panic
  fail e >>= next = fail e
  done a >>= next = next a

abbrev pub or_fail : {A : Type 0} → UrlParseError → Option A → Run A
or_fail e none = fail e
or_fail e (some a) = done a

abbrev pub or_panic : {A : Type 0} → Option A → Run A
or_panic none = panic
or_panic (some a) = done a

module _ (f : F32) where
  unfoldable pub default_weight : ServerWeight f
  default_weight = record { tcp_weight = f.one; udp_weight = f.one }

  unfoldable pub tcp_enabled : ServerConfig f → Bool
  unfolding enable_tcp
  tcp_enabled c = enable_tcp c.mode && f.positive c.weight.tcp_weight

  unfoldable pub udp_enabled : ServerConfig f → Bool
  unfolding enable_udp
  udp_enabled c = enable_udp c.mode && f.positive c.weight.udp_weight

-- The loop of `bytes_to_key`, for at most `fuel` digests: the key up to `offset`, and the last
-- digest, which is empty at first.
unfoldable pub key_from : (Bytes → Bytes) → Bytes → ℕ → ℕ → Bytes → Bytes → Option Bytes
key_from md5 password zero key_len key last = if ltb (length key) key_len then none else some key
key_from md5 password (suc fuel) key_len key last =
    let digest = md5 (last ++ password) in
    let amt = min (key_len - length key) (length digest) in
    let rest = key_from md5 password fuel key_len (key ++ take amt digest) digest in
    if ltb (length key) key_len then rest else some key

unfoldable pub bytes_to_key : (Bytes → Bytes) → Bytes → ℕ → Option Bytes
unfolding key_from
bytes_to_key md5 password key_len = key_from md5 password key_len key_len [] []

-- The libraries.
pub record Libraries : Type 0 where
  pub md5 : Bytes → Bytes
  pub decode_standard : Bytes → Option Bytes
  pub decode_url : Bytes → Option Bytes
  pub percent_decode : Bytes → Bytes
  pub lossy : Bytes → Bytes
  pub parse_socket : Bytes → Option SocketAddr

-- What `Url::parse` gives: `none` is a part that is not there.
pub record Url : Type 0 where
  pub scheme : Bytes
  pub username : Bytes
  pub password : Option Bytes
  pub host : Option Bytes
  pub port : Option ℕ
  pub fragment : Option Bytes

abbrev pub colon : ℕ
colon = 58

abbrev pub or_starved : {A : Type 0} → Option A → Run A
or_starved none = starved
or_starved (some a) = done a

-- lib/shadowsocks/src/addr.rs, `Address::from_str`; `none` is an error.
unfoldable pub address_from : (Bytes → Option SocketAddr) → Bytes → Option Address
unfolding parse_uint
address_from parse_socket s = elim (parse_socket s) [
  | some addr ↦ some (socket_address addr)
  | none ↦ elim (behind colon s) [
    | none ↦ none
    | some rest ↦
        if length (until colon s) == 0 then none else elim (parse_uint 65535 (until colon rest)) [
          | none ↦ none
          | some port ↦ some (domain_name_address (until colon s) port)
        ]
  ]
]

-- `CipherKind::from_str` over bytes.
unfoldable pub kind_from : Bytes → Option CipherKind
unfolding same
kind_from s =
    if same s (codes "aes-128-gcm")
    then some CipherKind.aes_128_gcm
    else if same s (codes "aes-256-gcm")
    then some CipherKind.aes_256_gcm
    else if same s (codes "2022-blake3-aes-128-gcm")
    then some CipherKind.aead2022_blake3_aes_128_gcm
    else if same s (codes "2022-blake3-aes-256-gcm")
    then some CipherKind.aead2022_blake3_aes_256_gcm
    else if same s (codes "2022-blake3-chacha20-poly1305")
    then some CipherKind.aead2022_blake3_chacha20_poly1305
    else if same s (codes "2022-blake3-chacha8-poly1305")
    then some CipherKind.aead2022_blake3_chacha8_poly1305
    else none

module _ (l : Libraries) where
  -- A key of the wrong length and a password that is not base64 panic.
  unfoldable pub make_derived_key : CipherKind → Bytes → ℕ → Run Bytes
  unfolding bytes_to_key
  make_derived_key kind password size =
      if is_aead2022 kind
      then elim (l.decode_standard password) [
        | none ↦ panic
        | some v ↦ if length v == size then done v else panic
      ]
      else or_starved (bytes_to_key l.md5 password size)

  unfoldable pub password_to_keys : CipherKind → Bytes → Run (Bytes × Bytes × List Bytes)
  unfolding make_derived_key
  password_to_keys kind password = do
    size ← or_panic (key_len kind)
    key ← make_derived_key kind password size
    done (password, key, [])

  module _ (f : F32) where
    unfoldable pub new : Address → Bytes → CipherKind → Run (ServerConfig f)
    unfolding password_to_keys default_weight
    new addr password method = do
      (password', enc_key, identity_keys) ← password_to_keys method password
      done (record {
        addr = addr;
        password = password';
        method = method;
        enc_key = enc_key;
        timeout = none;
        identity_keys = identity_keys;
        remarks = none;
        id = none;
        mode = Mode.tcp_and_udp;
        weight = default_weight f;
      })

  abbrev pub utf8_or : UrlParseError → Bytes → Run Bytes
  utf8_or e b = if is_utf8 b then done b else fail e

  -- The method and the password of a URL.
  unfoldable pub credentials : Url → Run (Bytes × Bytes)
  credentials u = elim u.password [
    | some password ↦
        (utf8_or invalid_auth_info (l.percent_decode u.username) >>= λ m.
        utf8_or invalid_auth_info (l.percent_decode password) >>= λ p. done (m, p))
    | none ↦
        (or_fail invalid_user_info (l.decode_url u.username) >>= λ decoded.
        utf8_or invalid_auth_info decoded >>= λ account.
        or_fail invalid_user_info (behind colon account) >>= λ p. done (until colon account, p))
  ]

  -- The body of a QR code URL.
  unfoldable pub legacy_body : Url → Run Bytes
  legacy_body u = do
    encoded ← or_fail missing_host u.host
    decoded ← or_fail invalid_server_addr (l.decode_url encoded)
    utf8_or invalid_server_addr decoded

  abbrev pub port_or : Option ℕ → ℕ
  port_or none = 8388
  port_or (some p) = p

  module _ (f : F32) where
    -- What follows the user information.
    unfoldable pub configured : Url → Run (ServerConfig f)
    unfolding credentials new decimal address_from kind_from
    configured u = do
      (method, pwd) ← credentials u
      host ← or_fail missing_host u.host
      addr ←
          or_fail invalid_server_addr
            (address_from l.parse_socket (host ++ (colon ∷ decimal (port_or u.port))))
      kind ← or_panic (kind_from method)
      svrconfig ← new f addr pwd kind
      done
          (record svrconfig { remarks = Option.map (λ r. l.lossy (l.percent_decode r)) u.fragment })

    -- `parse` is `Url::parse`; a QR code URL is decoded and parsed again, `fuel` times at most.
    unfoldable pub from_url : (Bytes → Option Url) → ℕ → Bytes → Run (ServerConfig f)
    unfolding configured legacy_body same
    from_url parse zero encoded = starved
    from_url parse (suc fuel) encoded = do
      u ← or_fail parse_error (parse encoded)
      if same u.scheme (codes "ss")
          then elim (length u.username == 0) [
            | true ↦ (legacy_body u >>= λ body. from_url parse fuel (codes "ss://" ++ body))
            | false ↦ configured u
          ]
          else fail invalid_scheme
