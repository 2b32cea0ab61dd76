-- ===== src/Duration/Total.antt =====
-- The loop of the parser always ends: each component takes a byte.
use roxy.Base.{
  ℕ, zero, suc, ◌+◌, ◌-◌, ◌*◌, ◌/◌, ◌%◌, ◌^◌, ◌≤◌, ◌<◌, ◌≡◌, refl, sym, ap, Bool, true, false,
  Bool-cases, ◌⊎◌, inl, inr, ◌&&◌, ◌||◌, some, [], ◌∷◌, length, ltb, ◌==◌, if◌then◌else◌, Result,
  ok, err, ◌>>=◌, >>=-eq-ok, arith,
}
use roxy.Base.Bytes.{Bytes}
use roxy.Duration.{
  Float, ParseError, is_digit, is_dot, u64_max, leading_int, leading_fraction, fraction, take_unit,
  component, components, unsigned, parse_duration,
}

-- What a step leaves of the text.
abbrev left_over : {A : Type 0} → Result ParseError (A × Bytes) → ℕ
left_over (err e) = 0
left_over (ok (a, rest)) = length rest

leading_int-le :
    (x : ℕ) (s : Bytes) {v : ℕ} {rest : Bytes}
    → leading_int x s ≡ ok (v, rest)
    → length rest ≤ length s
unfolding leading_int
leading_int-le x [] h = omega (arith, ap left_over h)
leading_int-le x (c ∷ s) h = elim (Bool-cases (is_digit c)) [
  | inr stop ↦ (let e = rw stop at h in omega (arith, ap left_over e))
  | inl digit ↦ elim (Bool-cases (ltb (u64_max / 10) x)) [
    | inl big ↦ (let e = rw (digit, big) at h in cc)
    | inr fits ↦
        (let e = leading_int-le ((10 * x + c - 48) % 2 ^ 64) s (rw (digit, fits) at h) in
          omega (arith, e))
  ]
]

leading_fraction-le :
    (f64 : Float) (x : ℕ) (scale : f64.F) (overflow : Bool) (s : Bytes)
    → length (leading_fraction f64 x scale overflow s).2 ≤ length s
unfolding leading_fraction
leading_fraction-le f64 x scale overflow [] = omega arith
leading_fraction-le f64 x scale overflow (c ∷ s) =
    let y = x * 10 + c - 48 in
    let skipped = leading_fraction-le f64 x scale true s in
    let taken = leading_fraction-le f64 y (f64.mul scale (f64.from 10)) false s in
    elim (Bool-cases (is_digit c)) [
      | inr stop ↦ rw (stop, leading_fraction) (omega arith)
      | inl digit ↦
          elim (Bool-cases
            (overflow || ltb (9223372036854775807 / 10) x || ltb 9223372036854775807 y)) [
              | inl skip ↦ rw (digit, leading_fraction, skip) (omega (arith, skipped))
              | inr take_it ↦ rw (digit, leading_fraction, take_it) (omega (arith, taken))
            ]
    ]

take_unit-length : (s : Bytes) → length (take_unit s).0 + length (take_unit s).1 ≡ length s
unfolding take_unit
take_unit-length [] = omega arith
take_unit-length (c ∷ s) =
    let e = take_unit-length s in
    elim (Bool-cases (is_dot c || is_digit c)) [
      | inl stop ↦ rw (stop, take_unit) (omega arith)
      | inr go ↦ rw (go, take_unit) (omega (arith, e))
    ]

fraction-le : (f64 : Float) (s : Bytes) → length (fraction f64 s).2 ≤ length s
unfolding fraction
fraction-le f64 [] = omega arith
fraction-le f64 (c ∷ s) =
    let e = leading_fraction-le f64 0 (f64.from 1) false s in
    elim (Bool-cases (is_dot c)) [
      | inl dot ↦ rw (dot, fraction) (omega (arith, e))
      | inr other ↦ rw (other, fraction) (omega arith)
    ]

abbrev rest_of : {A : Type 0} → Result ParseError (A × Bytes) → Bytes
rest_of (err e) = []
rest_of (ok (a, rest)) = rest

Result-cases : {E A : Type 0} (r : Result E A) → ((e : E) × (r ≡ err e)) ⊎ ((a : A) × (r ≡ ok a))
Result-cases (err e) = inl (e, refl)
Result-cases (ok a) = inr (a, refl)

module _ (f64 : Float) where
  -- What is left behind a unit that is not empty.
  behind_unit :
      (u s3 rest : Bytes) (d : ℕ) (pre_post : Bool) (unit : ℕ) (step : Result ParseError ℕ)
      → if◌then◌else◌ {A = Result ParseError (ℕ × Bytes)} pre_post
          (err ParseError.invalid_duration)
          (if length u == 0
            then err ParseError.missing_unit
            else if unit == 0
            then err ParseError.unknown_unit
            else (step >>= λ v. ok (v, s3)))
        ≡ ok (d, rest)
      → (0 < length u) × (rest ≡ s3)
  behind_unit u s3 rest d true unit step h = cc
  behind_unit u s3 rest d false unit step h = elim (Bool-cases (length u == 0)) [
    | inl none_there ↦ (let e = rw none_there at h in cc)
    | inr there ↦ elim (Bool-cases (unit == 0)) [
      | inl unknown ↦ (let e = rw (there, unknown) at h in cc)
      | inr known ↦
          (let (v, _, e) = >>=-eq-ok step _ (rw (there, known) at h) in
            (ground (arith, there), sym (ap rest_of e)))
    ]
  ]

  component-shorter :
      (s : Bytes) {d : ℕ} {rest : Bytes} → component f64 s ≡ ok (d, rest) → length rest < length s
  unfolding component
  component-shorter s {d} {rest} h =
      let ((v, s1), read, next) = >>=-eq-ok (leading_int 0 s) _ h in
      let s2 = (fraction f64 s1).2 in
      let (some_unit, is) = behind_unit (take_unit s2).0 (take_unit s2).1 rest d _ _ _ next in
      let le1 = leading_int-le 0 s read in
      let le2 = fraction-le f64 s1 in
      omega (arith, le1, le2, take_unit-length s2, some_unit, ap length is)

  components-total :
      (fuel d : ℕ) (s : Bytes)
      → length s ≤ fuel
      → (r : Result ParseError ℕ) × (components f64 fuel d s ≡ some r)
  unfolding components
  components-total zero d [] le = (ok d, refl)
  components-total (suc fuel) d [] le = (ok d, refl)
  components-total zero d (c ∷ s) le = absurd (omega (arith, le))
  components-total (suc fuel) d (c ∷ s) le = elim (Bool-cases (is_dot c || is_digit c)) [
    | inr bad ↦ (err ParseError.invalid_duration, rw (bad, components) refl)
    | inl good ↦ elim (Result-cases (component f64 (c ∷ s))) [
      | inl (e, failed) ↦ (err e, rw (good, components, failed) refl)
      | inr ((v, rest), parsed) ↦
          (let (r, ended) =
              components-total fuel ((d + v) % 2 ^ 64) rest
                (let lt = component-shorter (c ∷ s) parsed in omega (arith, le, lt)) in
            (r, rw (good, components, parsed) ended))
    ]
  ]

  unsigned-total : (s : Bytes) → (r : Result ParseError ℕ) × (unsigned f64 s ≡ some r)
  unsigned-total [] = (err ParseError.invalid_duration, refl)
  unsigned-total (c ∷ s) = elim (Bool-cases (length s == 0 && c == 48)) [
    | inl nil ↦ (ok 0, rw nil refl)
    | inr other ↦
        (let (r, ended) = components-total (length (c ∷ s)) 0 (c ∷ s) (omega arith) in
          (r, rw other ended))
  ]

  -- Every text gives a duration or an error: the fuel, one unit for each byte, is enough.
  pub parse_duration-total :
      (text : Bytes) → (r : Result ParseError ℕ) × (parse_duration f64 text ≡ some r)
  unfolding parse_duration
  parse_duration-total [] = (err ParseError.invalid_duration, refl)
  parse_duration-total (c ∷ s) = elim (Bool-cases (c == 45)) [
    | inl minus ↦ (err ParseError.invalid_duration, rw (minus, parse_duration) refl)
    | inr unsigned_text ↦ elim (Bool-cases (c == 43)) [
      | inl plus ↦
          (let (r, ended) = unsigned-total s in (r, rw (unsigned_text, parse_duration, plus) ended))
      | inr digit ↦
          (let (r, ended) = unsigned-total (c ∷ s) in
            (r, rw (unsigned_text, parse_duration, digit) ended))
    ]
  ]
