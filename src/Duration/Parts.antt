-- ===== src/Duration/Parts.antt =====
-- The parts of a component: the digits of a number and the text of a unit.
use roxy.Base.{
  ℕ, ◌+◌, ◌-◌, ◌*◌, ◌/◌, ◌%◌, ◌^◌, ◌≤◌, ◌<◌, ◌≡◌, refl, true, false, [], ◌∷◌, ◌++◌, length, ltb,
  ◌==◌, ok, arith,
}
use roxy.Base.Bytes.{Bytes, codes}
use roxy.Duration.{Float, u64_max, is_digit, leading_int, take_unit, unit_of, fraction}

abbrev pub Digits : Bytes → Type 0
Digits [] = Unit
Digits (c ∷ s) = (is_digit c ≡ true) × Digits s

-- The number that the digits spell behind `x`.
abbrev pub value : ℕ → Bytes → ℕ
value x [] = x
value x (c ∷ s) = value (10 * x + (c - 48)) s

value-ge : (x : ℕ) (s : Bytes) → x ≤ value x s
value-ge x [] = omega arith
value-ge x (c ∷ s) = let e = value-ge (10 * x + (c - 48)) s in omega (arith, e)

-- The text ends here or goes on with another number.
abbrev pub Stops : Bytes → Type 0
Stops [] = Unit
Stops (c ∷ s) = is_digit c ≡ true

abbrev pub NoDigit : Bytes → Type 0
NoDigit [] = Unit
NoDigit (c ∷ s) = is_digit c ≡ false

pub leading_int_value :
    (x : ℕ) (ds rest : Bytes)
    → Digits ds
    → NoDigit rest
    → value x ds < 2 ^ 64
    → leading_int x (ds ++ rest) ≡ ok (value x ds, rest)
unfolding leading_int
leading_int_value x [] [] d n small = refl
leading_int_value x [] (c ∷ rest) d n small = rw (n, leading_int) refl
leading_int_value x (c ∷ ds) rest d n small =
    let ge = value-ge (10 * x + (c - 48)) ds in
    let digit : 48 ≤ c = ground (arith, d.0) in
    let fits : ltb (u64_max / 10) x ≡ false = ground (arith, small, ge) in
    let next : (10 * x + c - 48) % 2 ^ 64 ≡ 10 * x + (c - 48) = omega (arith, small, ge, digit) in
    rw (d.0, leading_int, fits, next) (leading_int_value (10 * x + (c - 48)) ds rest d.1 n small)

pub data TimeUnit : Type 0 where
  nanosecond microsecond millisecond second minute hour day week : TimeUnit

abbrev pub text_of : TimeUnit → Bytes
text_of nanosecond = codes "ns"
text_of microsecond = codes "us"
text_of millisecond = codes "ms"
text_of second = codes "s"
text_of minute = codes "m"
text_of hour = codes "h"
text_of day = codes "d"
text_of week = codes "w"

abbrev pub nanos_of : TimeUnit → ℕ
nanos_of nanosecond = 1
nanos_of microsecond = 1000
nanos_of millisecond = 1000000
nanos_of second = 1000000000
nanos_of minute = 60000000000
nanos_of hour = 3600000000000
nanos_of day = 86400000000000
nanos_of week = 604800000000000

pub unit_of-text_of : (u : TimeUnit) → unit_of (text_of u) ≡ nanos_of u
unfolding unit_of
unit_of-text_of nanosecond = refl
unit_of-text_of microsecond = refl
unit_of-text_of millisecond = refl
unit_of-text_of second = refl
unit_of-text_of minute = refl
unit_of-text_of hour = refl
unit_of-text_of day = refl
unit_of-text_of week = refl

stops : (rest : Bytes) → Stops rest → take_unit rest ≡ ([], rest)
unfolding take_unit
stops [] h = refl
stops (c ∷ rest) h =
    let not_dot : (c == 46) ≡ false = ground (arith, h) in rw (not_dot, take_unit, h) refl

pub take_unit-text_of :
    (u : TimeUnit) (rest : Bytes) → Stops rest → take_unit (text_of u ++ rest) ≡ (text_of u, rest)
unfolding take_unit
take_unit-text_of nanosecond rest h = rw (stops rest h) refl
take_unit-text_of microsecond rest h = rw (stops rest h) refl
take_unit-text_of millisecond rest h = rw (stops rest h) refl
take_unit-text_of second rest h = rw (stops rest h) refl
take_unit-text_of minute rest h = rw (stops rest h) refl
take_unit-text_of hour rest h = rw (stops rest h) refl
take_unit-text_of day rest h = rw (stops rest h) refl
take_unit-text_of week rest h = rw (stops rest h) refl

pub fits_unit :
    (u : TimeUnit) (v : ℕ) → v * nanos_of u < 2 ^ 64 → ltb (u64_max / nanos_of u) v ≡ false
fits_unit nanosecond v h = ground arith
fits_unit microsecond v h = ground arith
fits_unit millisecond v h = ground arith
fits_unit second v h = ground arith
fits_unit minute v h = ground arith
fits_unit hour v h = ground arith
fits_unit day v h = ground arith
fits_unit week v h = ground arith

module _ (f64 : Float) where
  pub fraction-text_of :
      (u : TimeUnit) (rest : Bytes)
      → fraction f64 (text_of u ++ rest) ≡ (0, f64.from 1, text_of u ++ rest, false)
  unfolding fraction
  fraction-text_of nanosecond rest = refl
  fraction-text_of microsecond rest = refl
  fraction-text_of millisecond rest = refl
  fraction-text_of second rest = refl
  fraction-text_of minute rest = refl
  fraction-text_of hour rest = refl
  fraction-text_of day rest = refl
  fraction-text_of week rest = refl

pub text_of-NoDigit : (u : TimeUnit) (rest : Bytes) → NoDigit (text_of u ++ rest)
text_of-NoDigit nanosecond rest = refl
text_of-NoDigit microsecond rest = refl
text_of-NoDigit millisecond rest = refl
text_of-NoDigit second rest = refl
text_of-NoDigit minute rest = refl
text_of-NoDigit hour rest = refl
text_of-NoDigit day rest = refl
text_of-NoDigit week rest = refl

-- A unit has a text and is not zero.
pub known_unit :
    (u : TimeUnit)
    → ((length (text_of u) == 0) ≡ false) × ((nanos_of u == 0) ≡ false) × (0 < length (text_of u))
known_unit nanosecond = (refl, refl, omega arith)
known_unit microsecond = (refl, refl, omega arith)
known_unit millisecond = (refl, refl, omega arith)
known_unit second = (refl, refl, omega arith)
known_unit minute = (refl, refl, omega arith)
known_unit hour = (refl, refl, omega arith)
known_unit day = (refl, refl, omega arith)
known_unit week = (refl, refl, omega arith)

pub unit-le : (u : TimeUnit) (v : ℕ) → v ≤ v * nanos_of u
unit-le nanosecond v = omega arith
unit-le microsecond v = omega arith
unit-le millisecond v = omega arith
unit-le second v = omega arith
unit-le minute v = omega arith
unit-le hour v = omega arith
unit-le day v = omega arith
unit-le week v = omega arith
