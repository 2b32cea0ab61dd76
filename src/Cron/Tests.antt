-- ===== src/Cron/Tests.antt =====
-- Fields and expressions.
use roxy.Base.{ℕ, ◌==◌, ◌≡◌, refl, true, false, List, [], ◌∷◌}
use roxy.Base.Bytes.{codes}
use roxy.Cron.{
  invalid_range, argument_count, TimeRange, panic, fail, done, pieces, parse_field, insert,
}
use roxy.Cron.Expression.{Seconds, Years, from_str}
use roxy.Cron.Members.{mem, Progression}
use roxy.Cron.Fields.{DenoteAll, AnyHas, parse_field-Denote}

abbrev every_five : List ℕ
every_five = 0 ∷ 5 ∷ 10 ∷ 15 ∷ 20 ∷ 25 ∷ 30 ∷ 35 ∷ 40 ∷ 45 ∷ 50 ∷ 55 ∷ []

-- The test of the source.
parse_linux_crontab :
    from_str (codes "*/5 * * * *")
    ≡ done (record {
      text = codes "*/5 * * * *";
      seconds = Seconds.ignore;
      minutes = TimeRange.constrained every_five;
      hours = TimeRange.all;
      days_of_month = TimeRange.all;
      months = TimeRange.all;
      days_of_week = TimeRange.all;
      years = Years.unbound;
    })
unfolding from_str insert
parse_linux_crontab = refl

-- A range is checked, a single number is not, and a step of zero panics.
fields :
    (parse_field (codes "1-5/2,feb,DEC") 1 12 true false true
      ≡ done (TimeRange.constrained (1 ∷ 2 ∷ 3 ∷ 5 ∷ 12 ∷ [])))
    × (parse_field (codes "50-70") 0 59 true false false ≡ fail (invalid_range (codes "50-70")))
    × (parse_field (codes "99") 0 59 true false false ≡ done (TimeRange.constrained (99 ∷ [])))
    × (parse_field (codes "*/0") 0 59 true false false ≡ panic)
    × (from_str (codes "1 2 3") ≡ fail argument_count)
unfolding parse_field from_str insert
fields = (refl, refl, refl, refl, refl)

two_values :
    parse_field (codes "1-5/2,9") 0 23 true false false
    ≡ done (TimeRange.constrained (1 ∷ 3 ∷ 5 ∷ 9 ∷ []))
unfolding parse_field insert
two_values = refl

parse_field-Denote_example :
    (ps : List Progression) × (DenoteAll 0 23 true false false
        (pieces (λ c. c == 44) (codes "1-5/2,9"))
        ps
      × ((x : ℕ)
          → (mem x (1 ∷ 3 ∷ 5 ∷ 9 ∷ []) ≡ true → AnyHas ps x)
            × (AnyHas ps x → mem x (1 ∷ 3 ∷ 5 ∷ 9 ∷ []) ≡ true)))
parse_field-Denote_example =
    parse_field-Denote (codes "1-5/2,9") 0 23 true false false (1 ∷ 3 ∷ 5 ∷ 9 ∷ []) two_values
