-- ===== src/Base/Bytes.antt =====
-- Bytes as numbers below 256, big-endian words, and the code points of a literal.
use Prim.Native.Char.{code}
use Prim.Native.String.{String}
use Prim.Native.Nat.{ℕ, ◌+◌, ◌*◌, ◌/◌, ◌%◌, ◌<◌}
use mathlib.Core.Path.{◌≡◌}
use mathlib.Core.List.{List, [], ◌∷◌, ◌++◌}
use mathlib.Core.Option.{Option, none, some}
use roxy.Base.Tests.{◌==◌, if◌then◌else◌}
use native.Mathlib.Omega.{arith}

abbrev pub Bytes : Type 0
Bytes = List ℕ

-- The code points of a text; the bytes of it, where it is ASCII.
abbrev pub codes : String → Bytes
codes String.[] = []
codes (String.◌∷◌ c s) = code c ∷ codes s

-- `u16::to_be_bytes`
abbrev pub be16 : ℕ → Bytes
be16 x = x / 256 % 256 ∷ x % 256 ∷ []

-- `u16::from_be_bytes([a, b])`
abbrev pub from_be16 : ℕ → ℕ → ℕ
from_be16 a b = a * 256 + b

pub from_be16-be16 : (x : ℕ) → x < 65536 → from_be16 (x / 256 % 256) (x % 256) ≡ x
from_be16-be16 x h = omega arith

-- Every element is a byte.
abbrev pub IsBytes : Bytes → Type 0
IsBytes [] = Unit
IsBytes (b ∷ bs) = (b < 256) × IsBytes bs

pub IsBytes-append_left : (xs ys : Bytes) → IsBytes (xs ++ ys) → IsBytes xs
IsBytes-append_left [] ys h = tt
IsBytes-append_left (x ∷ xs) ys h = (h.0, IsBytes-append_left xs ys h.1)

pub IsBytes-append_right : (xs ys : Bytes) → IsBytes (xs ++ ys) → IsBytes ys
IsBytes-append_right [] ys h = h
IsBytes-append_right (x ∷ xs) ys h = IsBytes-append_right xs ys h.1

-- The bytes ahead of the first `c`, and those behind it.
abbrev pub until : ℕ → Bytes → Bytes
until c [] = []
until c (b ∷ s) = let rest = until c s in if b == c then [] else b ∷ rest

abbrev pub behind : ℕ → Bytes → Option Bytes
behind c [] = none
behind c (b ∷ s) = let rest = behind c s in if b == c then some s else rest
