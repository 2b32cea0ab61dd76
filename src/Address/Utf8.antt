-- ===== src/Address/Utf8.antt =====
-- `String::from_utf8` and `str::from_utf8`: the byte sequences that are well-formed UTF-8, by the
-- table of the Unicode standard (no overlong form, no surrogate, at most U+10FFFF).
use roxy.Base.{
  ℕ, zero, suc, Bool, true, false, ◌&&◌, Option, none, some, [], ◌∷◌, leb, ltb, ◌==◌, if◌then◌else◌,
}
use roxy.Base.Bytes.{Bytes}

-- For a first byte: how many bytes follow, and the range of the first of those.
abbrev pub lead : ℕ → Option (ℕ × ℕ × ℕ)
lead b =
    if ltb b 0x80
    then some (0, 0, 0)
    else if ltb b 0xc2
    then none
    else if ltb b 0xe0
    then some (1, 0x80, 0xbf)
    else if b == 0xe0
    then some (2, 0xa0, 0xbf)
    else if b == 0xed
    then some (2, 0x80, 0x9f)
    else if ltb b 0xf0
    then some (2, 0x80, 0xbf)
    else if b == 0xf0
    then some (3, 0x90, 0xbf)
    else if ltb b 0xf4
    then some (3, 0x80, 0xbf)
    else if b == 0xf4
    then some (3, 0x80, 0x8f)
    else none

abbrev pub utf8_from : ℕ → ℕ → ℕ → Bytes → Bool
utf8_from zero lo hi [] = true
utf8_from (suc n) lo hi [] = false
utf8_from zero lo hi (b ∷ bs) = elim (lead b) [
  | none ↦ false
  | some (n, lo', hi') ↦ utf8_from n lo' hi' bs
]
utf8_from (suc n) lo hi (b ∷ bs) = leb lo b && leb b hi && utf8_from n 0x80 0xbf bs

unfoldable pub is_utf8 : Bytes → Bool
is_utf8 bs = utf8_from 0 0 0 bs
