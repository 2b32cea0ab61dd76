-- ===== src/Config/Tests.antt =====
-- A URL with a plain method and password, and the QR code URL of another one, over toy libraries.
use roxy.Base.{
  ℕ, ◌≡◌, refl, Option, none, some, [], length, take, replicate, true, if◌then◌else◌, ◌++◌,
}
use roxy.Base.Bytes.{Bytes, codes}
use roxy.Address.{domain_name_address}
use roxy.Address.Utf8.{is_utf8}
use roxy.Rule.{same}
use roxy.Crypto.Kind.{CipherKind, key_len, is_aead2022}
use roxy.Config.{F32, Mode, done, Libraries, Url, bytes_to_key, from_url}
use roxy.Config.Key.{digests, bytes_to_key-digests}
use roxy.Config.Holds.{Holds}

abbrev f32 : F32
f32 = record { F = ℕ; one = 1; positive = λ n. true }

-- A digest of 16 bytes, all of them the length of the text.
abbrev md5 : Bytes → Bytes
md5 s = replicate 16 (length s)

md5_sixteen : (s : Bytes) → length (md5 s) ≡ 16
md5_sixteen s = refl

abbrev body : Bytes
body = codes "aes-128-gcm:pw@a.io:8000"

-- The base64 of `body`, the one text that is decoded here.
abbrev encoded : Bytes
encoded = codes "YWVzLTEyOC1nY206cHdAYS5pbzo4MDAw"

abbrev decode_url : Bytes → Option Bytes
decode_url s = if same s encoded then some body else none

abbrev libraries : Libraries
libraries = record {
  md5 = md5;
  decode_standard = λ s. none;
  decode_url = decode_url;
  percent_decode = λ s. s;
  lossy = λ s. s;
  parse_socket = λ s. none;
}

abbrev url : Bytes
url = codes "ss://aes-128-gcm:pw@a.io:8000#home"

abbrev qr_url : Bytes
qr_url = codes "ss://" ++ encoded

abbrev plain : Option Bytes → Url
plain fragment = record {
  scheme = codes "ss";
  username = codes "aes-128-gcm";
  password = some (codes "pw");
  host = some (codes "a.io");
  port = some 8000;
  fragment = fragment;
}

abbrev qr : Url
qr = record {
  scheme = codes "ss";
  username = [];
  password = none;
  host = some encoded;
  port = none;
  fragment = none;
}

abbrev parse : Bytes → Option Url
parse s =
    if same s url
    then some (plain (some (codes "home")))
    else if same s (codes "ss://" ++ body)
    then some (plain none)
    else if same s qr_url
    then some qr
    else none

bytes_to_key-digests_example :
    (bytes_to_key md5 (codes "pw") 20 ≡ some (take 20 (digests md5 (codes "pw") 20 [])))
    × (length (take 20 (digests md5 (codes "pw") 20 [])) ≡ 20)
bytes_to_key-digests_example = bytes_to_key-digests md5 md5_sixteen (codes "pw") 20

key_of_pw : bytes_to_key md5 (codes "pw") 20 ≡ some (replicate 16 2 ++ replicate 4 18)
unfolding bytes_to_key
key_of_pw = refl

config_of_url :
    from_url libraries f32 parse 1 url
    ≡ done (record {
      addr = domain_name_address (codes "a.io") 8000;
      password = codes "pw";
      method = CipherKind.aes_128_gcm;
      enc_key = replicate 16 2;
      timeout = none;
      identity_keys = [];
      remarks = some (codes "home");
      id = none;
      mode = Mode.tcp_and_udp;
      weight = record { tcp_weight = 1; udp_weight = 1 };
    })
unfolding from_url is_utf8 key_len is_aead2022
config_of_url = refl

-- The QR code URL leads to the same server.
config_of_qr :
    from_url libraries f32 parse 2 qr_url ≡ from_url libraries f32 parse 1 (codes "ss://" ++ body)
unfolding from_url is_utf8 key_len is_aead2022
config_of_qr = refl
