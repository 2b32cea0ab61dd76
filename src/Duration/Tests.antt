-- ===== src/Duration/Tests.antt =====
-- Durations, among them those of the tests of duration.rs.
use roxy.Base.{inr, ℕ, ◌*◌, ◌/◌, ◌≡◌, refl, arith, some, [], ◌∷◌, ok, err, Result}
use roxy.Base.Bytes.{codes}
use roxy.Duration.{Float, ParseError, parse_duration}
use roxy.Duration.Parts.{TimeUnit}
use roxy.Duration.Total.{parse_duration-total}
use roxy.Duration.Sum.{parse_duration-render}
use roxy.Duration.Print.{
  duration, sub_second, fmt_int, fmt_frac, int_loop, from_second, from_minutes,
}
use roxy.Duration.Print.RoundTrip.{parse_duration-duration}

-- Numbers in place of `f64`, as far as they are exact.
abbrev whole : Float
whole = record {
  F = ℕ × ℕ;
  from = λ n. (n, 1);
  mul = λ x y. (x.0 * y.0, x.1 * y.1);
  div = λ x y. (x.0 * y.1, x.1 * y.0);
  to_u64 = λ x. x.0 / x.1;
}

parses :
    (parse_duration whole (codes "0") ≡ some (ok 0))
    × (parse_duration whole (codes "+5s") ≡ some (ok 5000000000))
    × (parse_duration whole (codes "1.5s") ≡ some (ok 1500000000))
    × (parse_duration whole (codes "1h30m") ≡ some (ok 5400000000000))
    × (parse_duration whole (codes "-5s") ≡ some (err ParseError.invalid_duration))
    × (parse_duration whole (codes "3") ≡ some (err ParseError.missing_unit))
    × (parse_duration whole (codes "3x") ≡ some (err ParseError.unknown_unit))
    × (parse_duration whole (codes ".s") ≡ some (err ParseError.invalid_duration))
unfolding parse_duration
parses = (refl, refl, refl, refl, refl, refl, refl, refl)

-- One more than the largest `u64` wraps to zero, a number with a larger front part is refused.
wraps :
    (parse_duration whole (codes "18446744073709551616ns") ≡ some (ok 0))
    × (parse_duration whole (codes "20000000000000000000ns") ≡ some (err ParseError.bad_integer))
unfolding parse_duration
wraps = (refl, refl)

parse_duration-render_example : parse_duration whole (codes "1h30m") ≡ some (ok 5400000000000)
parse_duration-render_example =
    parse_duration-render whole (record { first = 49; digits = []; unit = TimeUnit.hour })
      (record { first = 51; digits = 48 ∷ []; unit = TimeUnit.minute } ∷ [])
      ((refl, tt), ((refl, (refl, tt)), tt)) (omega arith)

parse_duration-total_example :
    (r : Result ParseError ℕ) × (parse_duration whole (codes "1h.5") ≡ some r)
parse_duration-total_example = parse_duration-total whole (codes "1h.5")

-- Printed durations.
printed :
    (duration 0 ≡ codes "0s")
    × (duration 1500 ≡ codes "1.5us")
    × (duration 1230000000 ≡ codes "1.23s")
    × (duration 3723000000000 ≡ codes "1h2m3s")
unfolding duration sub_second fmt_int fmt_frac int_loop from_second from_minutes
printed = (refl, refl, refl, refl)

parse_duration-duration_example :
    parse_duration whole (duration 3723000000000) ≡ some (ok 3723000000000)
parse_duration-duration_example =
    parse_duration-duration whole 3723000000000 (omega arith) (inr (inr (inr refl)))
