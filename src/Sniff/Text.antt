-- ===== src/Sniff/Text.antt =====
-- `str::trim`, over the bytes of a text: the characters of Unicode's `White_Space` are cut off at
-- both ends.
use mathlib.Core.List.{reverse}
use roxy.Base.{ℕ, Bool, [], ◌∷◌, leb, ◌==◌, if◌then◌else◌, ◌||◌, ◌&&◌}
use roxy.Base.Bytes.{Bytes}

abbrev white1 : ℕ → Bool
white1 a = leb 9 a && leb a 13 || a == 32

abbrev white2 : ℕ → ℕ → Bool
white2 a b = a == 0xc2 && (b == 0x85 || b == 0xa0)

abbrev white3 : ℕ → ℕ → ℕ → Bool
white3 a b c =
    a == 0xe1 && b == 0x9a && c == 0x80
    || a == 0xe2 && b == 0x80 && (leb 0x80 c && leb c 0x8a || c == 0xa8 || c == 0xa9 || c == 0xaf)
    || a == 0xe2 && b == 0x81 && c == 0x9f
    || a == 0xe3 && b == 0x80 && c == 0x80

unfoldable pub trim_start : Bytes → Bytes
trim_start [] = []
trim_start (a ∷ []) = if white1 a then [] else a ∷ []
trim_start (a ∷ b ∷ []) =
    let one = trim_start (b ∷ []) in if white1 a then one else if white2 a b then [] else a ∷ b ∷ []
trim_start (a ∷ b ∷ c ∷ s) =
    let one = trim_start (b ∷ c ∷ s) in
    let two = trim_start (c ∷ s) in
    let three = trim_start s in
    if white1 a
    then one
    else if white2 a b
    then two
    else if white3 a b c
    then three
    else a ∷ b ∷ c ∷ s

-- The same from the end, on the bytes in reverse.
trim_back : Bytes → Bytes
trim_back [] = []
trim_back (a ∷ []) = if white1 a then [] else a ∷ []
trim_back (b ∷ a ∷ []) =
    let one = trim_back (a ∷ []) in if white1 b then one else if white2 a b then [] else b ∷ a ∷ []
trim_back (c ∷ b ∷ a ∷ s) =
    let one = trim_back (b ∷ a ∷ s) in
    let two = trim_back (a ∷ s) in
    let three = trim_back s in
    if white1 c
    then one
    else if white2 b c
    then two
    else if white3 a b c
    then three
    else c ∷ b ∷ a ∷ s

unfoldable pub trim_end : Bytes → Bytes
unfolding trim_back
trim_end s = reverse (trim_back (reverse s))

unfoldable pub trim : Bytes → Bytes
unfolding trim_start trim_end
trim s = trim_end (trim_start s)
