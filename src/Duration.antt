-- ===== src/Duration.antt =====
-- src/serde/duration.rs: the parser of durations, over the bytes of the text, to nanoseconds. The
-- operations on `f64` are the parameter `Float`; they are used for fractions only.
pub mod Parts
pub mod Sum
pub mod Total
pub mod Print
mod Tests
use roxy.Base.{
  ℕ, zero, suc, ◌+◌, ◌-◌, ◌*◌, ◌/◌, ◌%◌, ◌^◌, Bool, true, false, not, ◌&&◌, ◌||◌, Option, none,
  some, List, [], ◌∷◌, length, ltb, leb, ◌==◌, if◌then◌else◌, Result, ok, err, ◌>>=◌,
}
use roxy.Base.Bytes.{Bytes, codes}
use roxy.Rule.{same}

pub data ParseError : Type 0 where
  bad_integer invalid_duration missing_unit unknown_unit : ParseError

pub record Float : Type 1 where
  pub F : Type 0
  pub from : ℕ → F
  pub mul : F → F → F
  pub div : F → F → F
  pub to_u64 : F → ℕ

abbrev pub u64_max : ℕ
u64_max = 18446744073709551615

abbrev i64_max : ℕ
i64_max = 9223372036854775807

abbrev pub is_digit : ℕ → Bool
is_digit c = leb 48 c && leb c 57

abbrev pub is_dot : ℕ → Bool
is_dot c = c == 46

-- `leading_int` with the digits before `s` read into `x`; the sum wraps.
unfoldable pub leading_int : ℕ → Bytes → Result ParseError (ℕ × Bytes)
leading_int x [] = ok (x, [])
leading_int x (c ∷ s) =
    let rest = leading_int ((10 * x + c - 48) % 2 ^ 64) s in
    if is_digit c then if ltb (u64_max / 10) x then err bad_integer else rest else ok (x, c ∷ s)

abbrev pub starts_with_dot : Bytes → Bool
starts_with_dot [] = false
starts_with_dot (c ∷ s) = is_dot c

-- The bytes of the unit, and what stands behind it.
unfoldable pub take_unit : Bytes → Bytes × Bytes
take_unit [] = ([], [])
take_unit (c ∷ s) =
    let (u, rest) = take_unit s in if is_dot c || is_digit c then ([], c ∷ s) else (c ∷ u, rest)

abbrev pub nanos_per_second : ℕ
nanos_per_second = 1000000000

-- The nanoseconds of a unit, 0 for an unknown one.
unfoldable pub unit_of : Bytes → ℕ
unfolding same
unit_of u =
    if same u (codes "ns")
    then 1
    else if same u (codes "us") || same u (194 ∷ 181 ∷ 115 ∷ []) || same u (206 ∷ 188 ∷ 115 ∷ [])
    then 1000
    else if same u (codes "ms")
    then 1000000
    else if same u (codes "s")
    then nanos_per_second
    else if same u (codes "m")
    then 60 * nanos_per_second
    else if same u (codes "h")
    then 3600 * nanos_per_second
    else if same u (codes "d")
    then 86400 * nanos_per_second
    else if same u (codes "w")
    then 604800 * nanos_per_second
    else 0

module _ (f64 : Float) where
  -- `leading_fraction`; beyond `i64` the digits are skipped.
  unfoldable pub leading_fraction : ℕ → f64.F → Bool → Bytes → ℕ × f64.F × Bytes
  leading_fraction x scale overflow [] = (x, scale, [])
  leading_fraction x scale overflow (c ∷ s) =
      let y = x * 10 + c - 48 in
      let skipped = leading_fraction x scale true s in
      let taken = leading_fraction y (f64.mul scale (f64.from 10)) false s in
      if is_digit c
      then if overflow || ltb (i64_max / 10) x || ltb i64_max y then skipped else taken
      else (x, scale, c ∷ s)

  -- The fraction behind a dot, if there is one, and whether it has a digit.
  unfoldable pub fraction : Bytes → ℕ × f64.F × Bytes × Bool
  unfolding leading_fraction
  fraction [] = (0, f64.from 1, [], false)
  fraction (c ∷ s) =
      let (f, scale, rest) = leading_fraction 0 (f64.from 1) false s in
      if is_dot c
      then (f, scale, rest, not (length s == length rest))
      else (0, f64.from 1, c ∷ s, false)

  -- `v` units and the fraction, or an overflow.
  unfoldable pub scaled : ℕ → ℕ → f64.F → ℕ → Result ParseError ℕ
  scaled v f scale unit =
      if ltb (u64_max / unit) v
      then err invalid_duration
      else if f == 0
      then ok (v * unit)
      else let sum = v * unit + f64.to_u64 (f64.mul (f64.from f) (f64.div (f64.from unit) scale)) in
        if ltb u64_max sum then err invalid_duration else ok sum

  -- A number with its unit, from a byte that is a digit or a dot.
  unfoldable pub component : Bytes → Result ParseError (ℕ × Bytes)
  unfolding leading_int fraction take_unit unit_of scaled
  component s = do
    (v, s1) ← leading_int 0 s
    let (f, scale, s2, post) = fraction s1
    let pre = not (length s == length s1)
    let (u, s3) = take_unit s2
    if not pre && not post
        then err invalid_duration
        else if length u == 0
        then err missing_unit
        else if unit_of u == 0
        then err unknown_unit
        else do d ← scaled v f scale (unit_of u); ok (d, s3)

  -- The loop of `parse_duration`, for at most `fuel` components; `none` where they do not suffice.
  -- The sum wraps.
  unfoldable pub components : ℕ → ℕ → Bytes → Option (Result ParseError ℕ)
  unfolding component
  components fuel d [] = some (ok d)
  components zero d (c ∷ s) = none
  components (suc fuel) d (c ∷ s) =
      if is_dot c || is_digit c
      then elim (component (c ∷ s)) [
        | err e ↦ some (err e)
        | ok (v, rest) ↦ components fuel ((d + v) % 2 ^ 64) rest
      ]
      else some (err invalid_duration)

  abbrev unsigned : Bytes → Option (Result ParseError ℕ)
  unsigned [] = some (err invalid_duration)
  unsigned (c ∷ s) =
      let all = components (length (c ∷ s)) 0 (c ∷ s) in
      if length s == 0 && c == 48 then some (ok 0) else all

  -- A text with a minus sign is refused, a plus sign is skipped.
  unfoldable pub parse_duration : Bytes → Option (Result ParseError ℕ)
  unfolding components
  parse_duration [] = some (err invalid_duration)
  parse_duration (c ∷ s) =
      if c == 45
      then some (err invalid_duration)
      else if c == 43
      then unsigned s
      else unsigned (c ∷ s)
