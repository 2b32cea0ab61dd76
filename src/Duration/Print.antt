-- ===== src/Duration/Print.antt =====
-- The printer of durations. It fills a buffer of 32 bytes from its end; `tail` is what is filled.
pub mod Numbers
pub mod RoundTrip
use roxy.Base.{
  ℕ, zero, suc, ◌+◌, ◌/◌, ◌%◌, ◌^◌, Bool, true, false, not, ◌||◌, [], ◌∷◌, ltb, ◌==◌, if◌then◌else◌,
}
use roxy.Base.Bytes.{Bytes, codes}

-- The loop of `fmt_frac`: `prec` digits of `v`, those behind the first that is not zero.
unfoldable pub frac_loop : ℕ → Bool → Bytes → ℕ → Bool × Bytes × ℕ
frac_loop zero print tail v = (print, tail, v)
frac_loop (suc prec) print tail v =
    let digit = v % 10 in
    let print' = print || not (digit == 0) in
    frac_loop prec print' (if print' then (digit + 48) ∷ tail else tail) (v / 10)

unfoldable pub fmt_frac : Bytes → ℕ → ℕ → Bytes × ℕ
unfolding frac_loop
fmt_frac tail v prec =
    let (print, tail', v') = frac_loop prec false tail v in
    ((if print then 46 ∷ tail' else tail'), v')

-- The loop of `fmt_int`, for at most `fuel` digits.
unfoldable pub int_loop : ℕ → Bytes → ℕ → Bytes
int_loop zero tail v = tail
int_loop (suc fuel) tail v =
    let rest = int_loop fuel ((v % 10 + 48) ∷ tail) (v / 10) in if v == 0 then tail else rest

-- A number of 64 bits has twenty digits at most.
unfoldable pub fmt_int : Bytes → ℕ → Bytes
fmt_int tail v = if v == 0 then 48 ∷ tail else int_loop 20 tail v

-- The unit of less than a second, and its number.
unfoldable pub sub_second : ℕ → Bytes
sub_second u =
    if u == 0
    then codes "0s"
    else if ltb u 1000
    then (let (tail, v) = fmt_frac (codes "ns") u 0 in fmt_int tail v)
    else if ltb u 1000000
    then (let (tail, v) = fmt_frac (codes "us") u 3 in fmt_int tail v)
    else (let (tail, v) = fmt_frac (codes "ms") u 6 in fmt_int tail v)

-- The minutes and hours in front of the seconds.
unfoldable pub from_minutes : Bytes → ℕ → Bytes
from_minutes tail minutes =
    if minutes == 0
    then tail
    else let tail' = fmt_int (109 ∷ tail) (minutes % 60) in
      if minutes / 60 == 0 then tail' else fmt_int (104 ∷ tail') (minutes / 60)

unfoldable pub from_second : ℕ → Bytes
from_second u =
    let (tail, seconds) = fmt_frac (codes "s") u 9 in
    from_minutes (fmt_int tail (seconds % 60)) (seconds / 60)

-- `duration`, of the nanoseconds cut to 64 bits.
unfoldable pub duration : ℕ → Bytes
duration nanos = let u = nanos % 2 ^ 64 in if ltb u 1000000000 then sub_second u else from_second u
