-- ===== src/Duration/Print/RoundTrip.antt =====
-- What is printed of a duration without a fraction is parsed back.
use roxy.Base.{
  ℕ, ◌+◌, ◌*◌, ◌/◌, ◌%◌, ◌^◌, ◌≤◌, ◌<◌, ◌≡◌, ◌⊎◌, refl, sym, ap, ◌∙◌, inl, inr, Bool-cases, some,
  List, [], ◌∷◌, ◌++◌, ltb, ◌==◌, ok, arith,
}
use roxy.Base.Bytes.{Bytes, codes}
use roxy.Duration.{Float, parse_duration}
use roxy.Duration.Parts.{
  TimeUnit, text_of, nanos_of, nanosecond, microsecond, millisecond, second, minute, hour,
}
use roxy.Duration.Sum.{Part, number, render, total, AllDigits, parse_duration-render}
use roxy.Duration.Print.{fmt_int, sub_second, from_minutes, from_second, duration}
use roxy.Duration.Print.Numbers.{scale, fmt_frac_zeros, fmt_int-IsPart, nanos-IsPart}

-- A text that is parts, of which the sum is `d`.
record IsParts (text : Bytes) (d : ℕ) : Type 0 where
  head : Part
  tail : List Part
  are : AllDigits (head ∷ tail)
  text_is : text ≡ render (head ∷ tail)
  sum : total (head ∷ tail) ≡ d

-- A number in front of the unit of the first part.
one-IsParts :
    (v d : ℕ) (u : TimeUnit)
    → v < 2 ^ 64
    → v * nanos_of u ≡ d
    → IsParts (fmt_int (text_of u ++ []) v) d
one-IsParts v d u h e =
    let x = fmt_int-IsPart (text_of u ++ []) v u h in
    record {
      head = x.part;
      tail = [];
      are = (x.are, tt);
      text_is = x.text_is ∙ ap (λ w. number x.part ++ (text_of w ++ [])) (sym x.unit_is);
      sum = omega (arith, nanos-IsPart x, e);
    }

more-IsParts :
    (v d : ℕ) (u : TimeUnit) (text : Bytes)
    → v < 2 ^ 64
    → IsParts text d
    → IsParts (fmt_int (text_of u ++ text) v) (v * nanos_of u + d)
more-IsParts v d u text h r =
    let x = fmt_int-IsPart (text_of u ++ text) v u h in
    record {
      head = x.part;
      tail = r.head ∷ r.tail;
      are = (x.are, r.are);
      text_is =
          x.text_is
          ∙ ap (λ w. number x.part ++ (text_of w ++ text)) (sym x.unit_is)
          ∙ ap (λ l. number x.part ++ (text_of x.part.unit ++ l)) r.text_is;
      sum = omega (arith, nanos-IsPart x, r.sum);
    }

parse-IsParts :
    (f64 : Float) (text : Bytes) (d : ℕ)
    → d < 2 ^ 64
    → IsParts text d
    → parse_duration f64 text ≡ some (ok d)
parse-IsParts f64 text d h r =
    ap (parse_duration f64) r.text_is
    ∙ parse_duration-render f64 r.head r.tail r.are (rw r.sum h)
    ∙ ap (λ n. some (ok n)) r.sum

from_minutes-IsParts :
    (text : Bytes) (minutes d : ℕ)
    → minutes < 2 ^ 64
    → IsParts text d
    → IsParts (from_minutes text minutes) (minutes * 60000000000 + d)
unfolding from_minutes
from_minutes-IsParts text minutes d h r = elim (Bool-cases (minutes == 0)) [
  | inl e ↦
      rw (e, from_minutes) (let z : minutes * 60000000000 + d ≡ d = ground (arith, e) in rw z r)
  | inr e ↦
      let m = more-IsParts (minutes % 60) d minute text (omega arith) r in
      elim (Bool-cases (minutes / 60 == 0)) [
        | inl f ↦
            let same : minutes * 60000000000 + d ≡ (minutes % 60) * 60000000000 + d =
              ground (arith, f) in
            rw (e, from_minutes, f, same) m
        | inr f ↦
            let same : minutes * 60000000000 + d
                ≡ (minutes / 60) * 3600000000000 + ((minutes % 60) * 60000000000 + d) =
              omega arith in
            rw (e, from_minutes, f, same)
              (more-IsParts (minutes / 60) ((minutes % 60) * 60000000000 + d) hour
                (fmt_int (109 ∷ text) (minutes % 60)) (omega (arith, h)) m)
      ]
]

-- A duration that has no fraction in the unit that it is printed in.
abbrev pub IsWhole : ℕ → Type 0
IsWhole d =
    (d < 1000)
    ⊎ (((d < 1000000) × (d % 1000 ≡ 0))
        ⊎ (((d < 1000000000) × (d % 1000000 ≡ 0)) ⊎ (d % 1000000000 ≡ 0)))

whole_us : (d : ℕ) → IsWhole d → 1000 ≤ d → d < 1000000 → d ≡ scale 3 (d / 1000)
whole_us d (inl w) l h = absurd (omega (arith, w, l))
whole_us d (inr (inl w)) l h = omega (arith, w.1)
whole_us d (inr (inr (inl w))) l h = absurd (omega (arith, w.1, l, h))
whole_us d (inr (inr (inr w))) l h = absurd (omega (arith, w, l, h))

whole_ms : (d : ℕ) → IsWhole d → 1000000 ≤ d → d < 1000000000 → d ≡ scale 6 (d / 1000000)
whole_ms d (inl w) l h = absurd (omega (arith, w, l))
whole_ms d (inr (inl w)) l h = absurd (omega (arith, w.0, l))
whole_ms d (inr (inr (inl w))) l h = omega (arith, w.1)
whole_ms d (inr (inr (inr w))) l h = absurd (omega (arith, w, l, h))

whole_s : (d : ℕ) → IsWhole d → 1000000000 ≤ d → d ≡ scale 9 (d / 1000000000)
whole_s d (inl w) l = absurd (omega (arith, w, l))
whole_s d (inr (inl w)) l = absurd (omega (arith, w.0, l))
whole_s d (inr (inr (inl w))) l = absurd (omega (arith, w.0, l))
whole_s d (inr (inr (inr w))) l = omega (arith, w)

zero-IsParts : IsParts (codes "0s") 0
zero-IsParts = record {
  head = record { first = 48; digits = []; unit = second };
  tail = [];
  are = ((refl, tt), tt);
  text_is = refl;
  sum = refl;
}

sub_second-IsParts : (d : ℕ) → d < 1000000000 → IsWhole d → IsParts (sub_second d) d
unfolding sub_second
sub_second-IsParts d h w = elim (Bool-cases (d == 0)) [
  | inl e ↦ rw (e, sub_second) (let z : d ≡ 0 = ground (arith, e) in rw z zero-IsParts)
  | inr e ↦ elim (Bool-cases (ltb d 1000)) [
    | inl f ↦
        rw (e, sub_second, f, fmt_frac_zeros 0 d d (codes "ns") refl)
          (one-IsParts d d nanosecond (omega (arith, h)) (omega arith))
    | inr f ↦ elim (Bool-cases (ltb d 1000000)) [
      | inl g ↦
          let z = whole_us d w (ground (arith, f)) (ground (arith, g)) in
          rw (e, sub_second, f, g, fmt_frac_zeros 3 (d / 1000) d (codes "us") z)
            (one-IsParts (d / 1000) d microsecond (omega (arith, h)) (omega (arith, z)))
      | inr g ↦
          let z = whole_ms d w (ground (arith, g)) h in
          rw (e, sub_second, f, g, fmt_frac_zeros 6 (d / 1000000) d (codes "ms") z)
            (one-IsParts (d / 1000000) d millisecond (omega (arith, h)) (omega (arith, z)))
    ]
  ]
]

from_second-IsParts :
    (d : ℕ) → d < 2 ^ 64 → d ≡ scale 9 (d / 1000000000) → IsParts (from_second d) d
unfolding from_second
from_second-IsParts d h w =
    let s = d / 1000000000 in
    let frac = fmt_frac_zeros 9 s d (codes "s") w in
    let first = one-IsParts (s % 60) (s % 60 * 1000000000) second (omega arith) refl in
    let all =
      from_minutes-IsParts (fmt_int (codes "s") (s % 60)) (s / 60) (s % 60 * 1000000000)
        (omega (arith, h)) first in
    let sum : s / 60 * 60000000000 + s % 60 * 1000000000 ≡ d = omega (arith, w) in
    rw frac (rw sum at all)

-- A duration below 2^64 nanoseconds that has no fraction in the unit that it is printed in is parsed
-- back from what is printed of it.
pub parse_duration-duration :
    (f64 : Float) (d : ℕ) → d < 2 ^ 64 → IsWhole d → parse_duration f64 (duration d) ≡ some (ok d)
unfolding duration
parse_duration-duration f64 d h w =
    let same : d % 2 ^ 64 ≡ d = omega (arith, h) in
    elim (Bool-cases (ltb d 1000000000)) [
      | inl e ↦
          rw (same, e)
            (parse-IsParts f64 (sub_second d) d h (sub_second-IsParts d (ground (arith, e)) w))
      | inr e ↦
          rw (same, e)
            (parse-IsParts f64 (from_second d) d h
              (from_second-IsParts d h (whole_s d w (ground (arith, e)))))
    ]
