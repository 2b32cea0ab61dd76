-- ===== src/Base/Digits.antt =====
-- `str::parse` to an unsigned integer: digits, with a plus sign ahead of them or not.
use mathlib.Core.Bool.{◌&&◌}
use mathlib.Core.Option.{Option, none, some}
use mathlib.Core.List.{[], ◌∷◌, ◌++◌}
use Prim.Native.Nat.{ℕ, zero, suc, ◌+◌, ◌-◌, ◌*◌, ◌/◌, ◌%◌}
use roxy.Base.Tests.{leb, ltb, ◌==◌, if◌then◌else◌}
use roxy.Base.Bytes.{Bytes}

unfoldable pub digits : ℕ → Bytes → Option ℕ
digits x [] = some x
digits x (c ∷ s) =
    let rest = digits (10 * x + (c - 48)) s in if leb 48 c && leb c 57 then rest else none

abbrev pub bounded : ℕ → Option ℕ → Option ℕ
bounded max none = none
bounded max (some x) = if leb x max then some x else none

-- `none` where the text is empty, has another character, or exceeds `max`.
unfoldable pub parse_uint : ℕ → Bytes → Option ℕ
unfolding digits
parse_uint max [] = none
parse_uint max (c ∷ []) = bounded max (digits 0 (c ∷ []))
parse_uint max (c ∷ d ∷ s) =
    if c == 43 then bounded max (digits 0 (d ∷ s)) else bounded max (digits 0 (c ∷ d ∷ s))

-- `Display` of an unsigned integer with at most `fuel` digits behind the first.
unfoldable pub decimal_from : ℕ → ℕ → Bytes
decimal_from zero n = (n % 10 + 48) ∷ []
decimal_from (suc fuel) n =
    let front = decimal_from fuel (n / 10) in
    if ltb n 10 then (n + 48) ∷ [] else front ++ ((n % 10 + 48) ∷ [])

-- Twenty digits are enough for 64 bits.
unfoldable pub decimal : ℕ → Bytes
unfolding decimal_from
decimal n = decimal_from 19 n
