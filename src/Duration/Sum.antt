-- ===== src/Duration/Sum.antt =====
-- A text of numbers with units is parsed to their sum.
use roxy.Base.{
  ℕ, zero, suc, ◌+◌, ◌*◌, ◌%◌, ◌^◌, ◌≤◌, ◌<◌, ◌≡◌, refl, ap, ◌∙◌, true, false, ◌||◌, some, List, [],
  ◌∷◌, ◌++◌, length, length-append, ◌==◌, ok, arith,
}
use roxy.Base.Bytes.{Bytes}
use roxy.Duration.{Float, is_digit, is_dot, scaled, component, components, parse_duration}
use roxy.Duration.Parts.{
  Digits, value, Stops, TimeUnit, text_of, nanos_of, leading_int_value, unit_of-text_of,
  take_unit-text_of, fits_unit, fraction-text_of, text_of-NoDigit, known_unit, unit-le,
}

-- A number, with its first digit apart, and its unit.
pub record Part : Type 0 where
  pub first : ℕ
  pub digits : Bytes
  pub unit : TimeUnit

abbrev pub number : Part → Bytes
number c = c.first ∷ c.digits

abbrev pub render : List Part → Bytes
render [] = []
render (c ∷ cs) = number c ++ (text_of c.unit ++ render cs)

abbrev pub nanos : Part → ℕ
nanos c = value 0 (number c) * nanos_of c.unit

abbrev pub total : List Part → ℕ
total [] = 0
total (c ∷ cs) = nanos c + total cs

abbrev pub AllDigits : List Part → Type 0
AllDigits [] = Unit
AllDigits (c ∷ cs) = Digits (number c) × AllDigits cs

render-Stops : (cs : List Part) → AllDigits cs → Stops (render cs)
render-Stops [] h = tt
render-Stops (c ∷ cs) h = h.0.0

module _ (f64 : Float) where
  component-part :
      (c : Part) (rest : Bytes)
      → Digits (number c)
      → Stops rest
      → nanos c < 2 ^ 64
      → component f64 (number c ++ (text_of c.unit ++ rest)) ≡ ok (nanos c, rest)
  unfolding component scaled
  component-part c rest d s small =
      let v = value 0 (number c) in
      let text = text_of c.unit ++ rest in
      let read =
        leading_int_value 0 (number c) text d (text_of-NoDigit c.unit rest)
          (let e = unit-le c.unit v in omega (arith, small, e)) in
      let shorter : (length (number c ++ text) == length text) ≡ false =
        ground (arith, length-append (number c) text) in
      let (some_text, nonzero, _) = known_unit c.unit in
      rw
        (
          read,
          component,
          fraction-text_of f64 c.unit rest,
          shorter,
          take_unit-text_of c.unit rest s,
          some_text,
          unit_of-text_of c.unit,
          nonzero,
          fits_unit c.unit v small,
        )
        refl

  length-render : (cs : List Part) → length cs ≤ length (render cs)
  length-render [] = omega arith
  length-render (c ∷ cs) =
      let more = length-render cs in
      omega (
        arith,
        more,
        length-append (number c) (text_of c.unit ++ render cs),
        length-append (text_of c.unit) (render cs),
      )

  components-render :
      (fuel d : ℕ) (cs : List Part)
      → length cs ≤ fuel
      → AllDigits cs
      → d + total cs < 2 ^ 64
      → components f64 fuel d (render cs) ≡ some (ok (d + total cs))
  unfolding components
  components-render zero d [] le h small = ap (λ n. some (ok n)) (omega arith)
  components-render (suc fuel) d [] le h small = ap (λ n. some (ok n)) (omega arith)
  components-render zero d (c ∷ cs) le h small = absurd (omega (arith, le))
  components-render (suc fuel) d (c ∷ cs) le h small =
      let first_is : (is_dot c.first || is_digit c.first) ≡ true = ground (arith, h.0.0) in
      let part = component-part c (render cs) h.0 (render-Stops cs h.1) (omega (arith, small)) in
      let sum : (d + nanos c) % 2 ^ 64 ≡ d + nanos c = omega (arith, small) in
      rw (first_is, components, part, sum)
        (components-render fuel (d + nanos c) cs (omega (arith, le)) h.1 (omega (arith, small))
          ∙ ap (λ n. some (ok n)) (omega arith))

  -- A text of at least one number, each of digits and with a unit, whose sum is below 2^64
  -- nanoseconds, is parsed to that sum.
  pub parse_duration-render :
      (c : Part) (cs : List Part)
      → AllDigits (c ∷ cs)
      → total (c ∷ cs) < 2 ^ 64
      → parse_duration f64 (render (c ∷ cs)) ≡ some (ok (total (c ∷ cs)))
  unfolding parse_duration
  parse_duration-render c cs h small =
      let rest = c.digits ++ (text_of c.unit ++ render cs) in
      let unsigned : (c.first == 45) ≡ false = ground (arith, h.0.0) in
      let no_plus : (c.first == 43) ≡ false = ground (arith, h.0.0) in
      let (_, _, some_text) = known_unit c.unit in
      let longer : (length rest == 0) ≡ false = ground (
        arith,
        length-append c.digits (text_of c.unit ++ render cs),
        length-append (text_of c.unit) (render cs),
      ) in
      rw (unsigned, parse_duration, no_plus, longer)
        (components-render (length (c.first ∷ rest)) 0 (c ∷ cs)
            (let e = length-render (c ∷ cs) in omega (arith, e)) h (omega (arith, small))
          ∙ ap (λ n. some (ok n)) (omega arith))
