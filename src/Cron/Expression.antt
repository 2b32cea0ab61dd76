-- ===== src/Cron/Expression.antt =====
-- The whole expression, in five, six or seven fields.
use roxy.Base.{ℕ, Bool, true, false, ◌&&◌, ◌||◌, List, [], ◌∷◌, leb, ◌==◌}
use roxy.Cron.{Text, argument_count, TimeRange, Run, fail, done, ◌>>=◌, pieces, parse_field}

pub data Seconds : Type 0 where
  ignore all : Seconds
  constrained : List ℕ → Seconds

pub data Years : Type 0 where
  all unbound : Years
  constrained : List ℕ → Years

pub record Cron : Type 0 where
  pub text : Text
  pub seconds : Seconds
  pub minutes : TimeRange
  pub hours : TimeRange
  pub days_of_month : TimeRange
  pub months : TimeRange
  pub days_of_week : TimeRange
  pub years : Years

-- The characters of `char::is_whitespace`.
abbrev pub is_whitespace : ℕ → Bool
is_whitespace c =
    (leb 9 c && leb c 13)
    || (c == 32)
    || (c == 133)
    || (c == 160)
    || (c == 5760)
    || (leb 8192 c && leb c 8202)
    || (c == 8232)
    || (c == 8233)
    || (c == 8239)
    || (c == 8287)
    || (c == 12288)

abbrev pub not_empty : List Text → List Text
not_empty [] = []
not_empty ([] ∷ l) = not_empty l
not_empty ((c ∷ s) ∷ l) = (c ∷ s) ∷ not_empty l

abbrev pub to_seconds : TimeRange → Seconds
to_seconds TimeRange.all = Seconds.all
to_seconds (TimeRange.constrained set) = Seconds.constrained set

abbrev pub to_years : TimeRange → Years
to_years TimeRange.all = Years.all
to_years (TimeRange.constrained set) = Years.constrained set

-- The arms of `from_str`, by the number of fields.
unfoldable pub from_fields : Text → List Text → Run Cron
unfolding parse_field
from_fields s (minutes ∷ hours ∷ days ∷ months ∷ week ∷ []) = do
  minutes' ← parse_field minutes 0 59 false false false
  hours' ← parse_field hours 0 23 false false false
  days' ← parse_field days 1 31 false false false
  months' ← parse_field months 1 12 false false true
  week' ← parse_field week 1 7 false true false
  done (record {
    text = s;
    seconds = Seconds.ignore;
    minutes = minutes';
    hours = hours';
    days_of_month = days';
    months = months';
    days_of_week = week';
    years = Years.unbound;
  })
from_fields s (seconds ∷ minutes ∷ hours ∷ days ∷ months ∷ week ∷ []) = do
  seconds' ← parse_field seconds 0 59 true false false
  minutes' ← parse_field minutes 0 59 true false false
  hours' ← parse_field hours 0 23 true false false
  days' ← parse_field days 1 31 true false false
  months' ← parse_field months 1 12 true false true
  week' ← parse_field week 1 7 true true false
  done (record {
    text = s;
    seconds = to_seconds seconds';
    minutes = minutes';
    hours = hours';
    days_of_month = days';
    months = months';
    days_of_week = week';
    years = Years.all;
  })
from_fields s (seconds ∷ minutes ∷ hours ∷ days ∷ months ∷ week ∷ years ∷ []) = do
  seconds' ← parse_field seconds 0 59 true false false
  minutes' ← parse_field minutes 0 59 true false false
  hours' ← parse_field hours 0 23 true false false
  days' ← parse_field days 1 31 true false false
  months' ← parse_field months 1 12 true false true
  week' ← parse_field week 1 7 true true false
  years' ← parse_field years 1970 2099 true false false
  done (record {
    text = s;
    seconds = to_seconds seconds';
    minutes = minutes';
    hours = hours';
    days_of_month = days';
    months = months';
    days_of_week = week';
    years = to_years years';
  })
from_fields s _ = fail argument_count

unfoldable pub from_str : Text → Run Cron
unfolding from_fields
from_str s = from_fields s (not_empty (pieces is_whitespace s))
