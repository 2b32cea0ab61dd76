-- ===== src/Cron.antt =====
-- lib/cron/src/parse.rs: the parser of a cron expression. A text is its code points, a `BTreeSet` is
-- its elements in order, and of an error of `parse` only that it is one is kept.
pub mod Members
pub mod Values
pub mod Fields
pub mod Expression
mod Tests
use roxy.Base.{
  ℕ, zero, suc, ◌+◌, ◌-◌, ◌^◌, Bool, true, false, ◌&&◌, ◌||◌, Option, none, some, List, [], ◌∷◌,
  length, ltb, leb, ◌==◌, if◌then◌else◌,
}
use roxy.Base.Bytes.{codes, until, behind}
use roxy.Base.Digits.{parse_uint}
use roxy.Rule.{same}

abbrev pub Text : Type 0
Text = List ℕ

pub data Error : Type 0 where
  parse_int argument_count : Error
  invalid_step_range invalid_range invalid_month_indicator invalid_day_of_week_indicator :
      Text → Error

pub data TimeRange : Type 0 where
  all : TimeRange
  constrained : List ℕ → TimeRange

-- How a run ends.
pub data Run (A : Type 0) : Type 0 where
  panic : Run A
  fail : Error → Run A
  done : A → Run A

module _ {A B : Type 0} where
  infixl 5 ◌>>=◌
  abbrev pub ◌>>=◌ : Run A → (A → Run B) → Run B
  panic >>= next = panic
  fail e >>= next = fail e
  done a >>= next = next a

abbrev pub or_parse_int : Option ℕ → Run ℕ
or_parse_int none = fail parse_int
or_parse_int (some n) = done n

-- `to_uppercase`, as far as the names below can tell it from another text: two characters beside the
-- ASCII letters have an ASCII letter as their upper case, and the pairs that one character may give,
-- FF, FI, FL, SS and ST, are in no name.
abbrev pub upper : Text → Text
upper [] = []
upper (c ∷ s) =
    (if leb 97 c && leb c 122 then c - 32 else if c == 305 then 73 else if c == 383 then 83 else c)
    ∷ upper s

-- The first name that the text is gives the number.
abbrev pub named : List (Text × ℕ) → Text → Option ℕ
named [] s = none
named ((name, n) ∷ l) s = let rest = named l s in if same s name then some n else rest

abbrev pub or_fail : Error → Option ℕ → Run ℕ
or_fail e none = fail e
or_fail e (some n) = done n

unfoldable pub month : Text → Run ℕ
unfolding same
month value = or_fail (invalid_month_indicator value) (
    named
      ((codes "JAN", 1)
        ∷ (codes "1", 1)
        ∷ (codes "FEB", 2)
        ∷ (codes "2", 2)
        ∷ (codes "MAR", 3)
        ∷ (codes "3", 3)
        ∷ (codes "APR", 4)
        ∷ (codes "4", 4)
        ∷ (codes "MAY", 5)
        ∷ (codes "5", 5)
        ∷ (codes "JUN", 6)
        ∷ (codes "6", 6)
        ∷ (codes "JUL", 7)
        ∷ (codes "7", 7)
        ∷ (codes "AUG", 8)
        ∷ (codes "8", 8)
        ∷ (codes "SEP", 9)
        ∷ (codes "9", 9)
        ∷ (codes "OCT", 10)
        ∷ (codes "10", 10)
        ∷ (codes "NOV", 11)
        ∷ (codes "11", 11)
        ∷ (codes "DEC", 12)
        ∷ (codes "12", 12)
        ∷ [])
      (upper value))

unfoldable pub day_of_week : Text → Bool → Run ℕ
unfolding same
day_of_week value is_vixie = or_fail (invalid_day_of_week_indicator value) (
    named
      ((codes "SUN", 1)
        ∷ (codes "MON", 2)
        ∷ (codes "TUE", 3)
        ∷ (codes "WED", 4)
        ∷ (codes "THU", 5)
        ∷ (codes "FRI", 6)
        ∷ (codes "SAT", 7)
        ∷ (if is_vixie
            then (codes "1", 1)
              ∷ (codes "2", 2)
              ∷ (codes "3", 3)
              ∷ (codes "4", 4)
              ∷ (codes "5", 5)
              ∷ (codes "6", 6)
              ∷ (codes "7", 7)
              ∷ []
            else (codes "0", 1)
              ∷ (codes "7", 1)
              ∷ (codes "1", 2)
              ∷ (codes "2", 3)
              ∷ (codes "3", 4)
              ∷ (codes "4", 5)
              ∷ (codes "5", 6)
              ∷ (codes "6", 7)
              ∷ []))
      (upper value))

unfoldable pub parse_time_unit : Text → Bool → Bool → Bool → Run ℕ
unfolding month day_of_week parse_uint
parse_time_unit s is_vixie is_dom is_dow =
    if is_dom
    then month s
    else if is_dow
    then day_of_week s is_vixie
    else or_parse_int (parse_uint 4294967295 s)

unfoldable pub parse_range : Text → Text → Bool → Bool → Bool → Run (ℕ × ℕ)
unfolding parse_time_unit
parse_range left_range right_range is_vixie is_dom is_dow = do
  l ← parse_time_unit left_range is_vixie is_dom is_dow
  r ← parse_time_unit right_range is_vixie is_dom is_dow
  done (l, r)

-- `BTreeSet::insert`
unfoldable pub insert : ℕ → List ℕ → List ℕ
insert i [] = i ∷ []
insert i (j ∷ set) =
    let rest = insert i set in if i == j then j ∷ set else if ltb i j then i ∷ j ∷ set else j ∷ rest

-- A loop over `(i..=r).step_by(step)` that inserts, for at most `fuel` turns.
unfoldable pub insert_steps : ℕ → ℕ → ℕ → ℕ → List ℕ → List ℕ
insert_steps zero step i r set = set
insert_steps (suc fuel) step i r set =
    let rest = insert_steps fuel step (i + step) r (insert i set) in if leb i r then rest else set

-- A step is not zero, so that it has one turn for each number of the range at most.
abbrev pub insert_range : ℕ → ℕ → ℕ → List ℕ → List ℕ
insert_range step l r set = insert_steps (suc r - l) step l r set

-- The step of a range, a `usize`; `step_by` panics at zero.
abbrev pub parse_step : Text → Run ℕ
parse_step s =
    or_parse_int (parse_uint (2 ^ 64 - 1) s) >>= λ step. (if step == 0 then panic else done step)

abbrev pub out_of_range : ℕ → ℕ → ℕ → ℕ → Bool
out_of_range min max l r = ltb l min || ltb max l || ltb r min || ltb max r || ltb r l

-- The pieces between the characters of a kind.
abbrev pub pieces : (ℕ → Bool) → Text → List Text
pieces at [] = [] ∷ []
pieces at (c ∷ s) =
    let rest = pieces at s in
    if at c then [] ∷ rest else elim rest [ [] ↦ (c ∷ []) ∷ [] | p ∷ ps ↦ (c ∷ p) ∷ ps ]

module _ (min max : ℕ) (is_vixie is_dow is_dom : Bool) where
  -- The match in the loop of `parse_field`: `none` is the return of `TimeRange::All`.
  unfoldable pub add_value :
      Text → Text → Option Text → Option Text → List ℕ → Run (Option (List ℕ))
  unfolding parse_range insert_steps
  add_value v left_range (some right_range) (some step_value) set =
      parse_range left_range right_range is_vixie is_dom is_dow >>= λ lr.
      (if out_of_range min max lr.0 lr.1
        then fail (invalid_range v)
        else parse_step step_value >>= λ step. done (some (insert_range step lr.0 lr.1 set)))
  add_value v left_range (some right_range) none set =
      parse_range left_range right_range is_vixie is_dom is_dow >>= λ lr.
      (if out_of_range min max lr.0 lr.1
        then fail (invalid_range v)
        else if (lr.0 == min) && (lr.1 == max)
        then done none
        else done (some (insert_range 1 lr.0 lr.1 set)))
  add_value v left_most none (some step_value) set =
      (if same left_most (codes "*")
        then done min
        else parse_time_unit left_most is_vixie is_dom is_dow)
      >>= λ first. parse_step step_value >>= λ step. done (some (insert_range step first max set))
  add_value v left_most none none set =
      if same left_most (codes "*")
      then done none
      else parse_time_unit left_most is_vixie is_dom is_dow >>= λ i. done (some (insert i set))

  -- The body of the loop.
  unfoldable pub field_value : Text → List ℕ → Run (Option (List ℕ))
  unfolding add_value
  field_value v set =
      let left_step = until 47 v in
      add_value v (until 45 left_step) (behind 45 left_step) (behind 47 v) set

  -- The loop of `parse_field` over its values.
  unfoldable pub field_values : List Text → List ℕ → Run TimeRange
  unfolding field_value
  field_values [] set = done (TimeRange.constrained set)
  field_values (v ∷ vs) set = field_value v set >>= λ o. elim o [
    | none ↦ done TimeRange.all
    | some set' ↦ field_values vs set'
  ]

-- The parameters stand in the order of the source.
unfoldable pub parse_field : Text → ℕ → ℕ → Bool → Bool → Bool → Run TimeRange
unfolding field_values
parse_field value min max is_vixie is_dow is_dom =
    field_values min max is_vixie is_dow is_dom (pieces (λ c. c == 44) value) []
