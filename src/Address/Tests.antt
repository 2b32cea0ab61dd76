-- ===== src/Address/Tests.antt =====
-- Runs of the address codec, and the theorems at concrete addresses.
use roxy.Base.{◌+◌, ◌≡◌, refl, none, some, [], ◌∷◌, ◌++◌, ok, err, arith, length, ◌↔◌, ◌<◌, Bool}
use roxy.Base.Bytes.{Bytes, codes}
use roxy.Socks5.{Error, ErrorKind}
use roxy.Address.{Address, domain_name_address, write_to_buf, read_from, serialized_len}
use roxy.Address.Utf8.{is_utf8}
use roxy.Address.Wire.{on_wire, read_from-write_to_buf, length-write_to_buf}
use roxy.Address.Canonical.{read_from-ok}

abbrev site : Address
site = domain_name_address (codes "a.io") 443

abbrev site_bytes : Bytes
site_bytes = 3 ∷ 4 ∷ 97 ∷ 46 ∷ 105 ∷ 111 ∷ 1 ∷ 187 ∷ []

-- a lone continuation byte, a surrogate, and "µ"
utf8_cases :
    (is_utf8 (0x80 ∷ []) ≡ Bool.false)
    × (is_utf8 (0xed ∷ 0xa0 ∷ 0x80 ∷ []) ≡ Bool.false)
    × (is_utf8 (0xc2 ∷ 0xb5 ∷ []) ≡ Bool.true)
unfolding is_utf8
utf8_cases = (refl, refl, refl)

write_site : write_to_buf site [] ≡ some site_bytes
unfolding write_to_buf
write_site = refl

read_site : read_from (site_bytes ++ (7 ∷ [])) ≡ ok (site, 7 ∷ [])
unfolding read_from is_utf8
read_site = refl

read_errors :
    (read_from (2 ∷ []) ≡ err (Error.address_type_not_supported 2))
    × (read_from (1 ∷ 8 ∷ []) ≡ err (Error.io ErrorKind.unexpected_eof))
    × (read_from (3 ∷ 1 ∷ 0xff ∷ 0 ∷ 80 ∷ []) ≡ err Error.address_domain_invalid_encoding)
unfolding read_from is_utf8
read_errors = (refl, refl, refl)

site_is_utf8 : is_utf8 (codes "a.io") ≡ Bool.true
unfolding is_utf8
site_is_utf8 = refl

read_from-write_to_buf_example : read_from (site_bytes ++ (7 ∷ [])) ≡ ok (on_wire site, 7 ∷ [])
read_from-write_to_buf_example =
    read_from-write_to_buf site site_bytes (7 ∷ []) (site_is_utf8, omega arith) write_site

length-write_to_buf_example :
    ((out : Bytes) → write_to_buf site (9 ∷ []) ≡ some out → length out ≡ 1 + serialized_len site)
    × ((write_to_buf site (9 ∷ []) ≡ none) ↔ (259 < serialized_len site))
length-write_to_buf_example = length-write_to_buf site (9 ∷ [])

read_from-ok_example :
    (out : Bytes) × (write_to_buf site [] ≡ some out) × (site_bytes ++ (7 ∷ []) ≡ out ++ (7 ∷ []))
read_from-ok_example = read_from-ok (site_bytes ++ (7 ∷ [])) (7 ∷ []) site (omega arith) read_site
