-- ===== src/Cron/Fields.antt =====
-- A field against the progressions that its values denote.
use roxy.Base.{ℕ, ◌≡◌, ◌⊎◌, sym, inl, inr, Bool, true, false, Option-cases, List, [], ◌∷◌, ◌==◌}
use roxy.Cron.{Text, TimeRange, done, pieces, field_value, field_values, parse_field}
use roxy.Cron.Members.{mem, Progression, Has, bind-done}
use roxy.Cron.Values.{Denotes, Added, value-Added}

true-false : true ≡ false → ⊥
true-false h = cc

abbrev pub AnyHas : List Progression → ℕ → Type 0
AnyHas [] x = true ≡ false
AnyHas (p ∷ ps) x = Has p x ⊎ AnyHas ps x

module _ (min max : ℕ) (is_vixie is_dow is_dom : Bool) where
  -- Each value denotes the progression at its place.
  abbrev pub DenoteAll : List Text → List Progression → Type 0
  DenoteAll [] [] = Unit
  DenoteAll (v ∷ vs) (p ∷ ps) = Denotes min max is_vixie is_dow is_dom v p × DenoteAll vs ps
  DenoteAll _ _ = true ≡ false

  -- The values denote progressions of which the set has the numbers, beside those of `set`.
  abbrev Gathers : List Text → List ℕ → List ℕ → Type 0
  Gathers vs set set' =
      (ps : List Progression) × (DenoteAll vs ps
        × ((x : ℕ)
            → (mem x set' ≡ true → (mem x set ≡ true) ⊎ AnyHas ps x)
              × ((mem x set ≡ true) ⊎ AnyHas ps x → mem x set' ≡ true)))

  first-Gathers :
      (v : Text) (vs : List Text) (set mid set' : List ℕ)
      → Added min max is_vixie is_dow is_dom v set mid
      → Gathers vs mid set'
      → Gathers (v ∷ vs) set set'
  first-Gathers v vs set mid set' a (ps, (ds, g)) = (
    a.progression ∷ ps,
    (
      (a.denotes, ds),
      λ x. (
        λ m. elim ((g x).0 m) [
          | inl n ↦ elim ((a.adds x).0 n) [ inl o ↦ inl o | inr q ↦ inr (inl q) ]
          | inr q ↦ inr (inr q)
        ],
        λ d. elim d [
          | inl o ↦ (g x).1 (inl ((a.adds x).1 (inl o)))
          | inr e ↦ elim e [
            | inl q ↦ (g x).1 (inl ((a.adds x).1 (inr q)))
            | inr q ↦ (g x).1 (inr q)
          ]
        ],
      ),
    ),
  )

  values-Gathers :
      (vs : List Text) (set set' : List ℕ)
      → field_values min max is_vixie is_dow is_dom vs set ≡ done (TimeRange.constrained set')
      → Gathers vs set set'
  unfolding field_values
  values-Gathers [] set set' h =
      let e : set ≡ set' = cc in
      rw e ([], (tt, λ x. (λ m. inl m, λ d. elim d [ inl m ↦ m | inr q ↦ absurd (true-false q) ])))
  values-Gathers (v ∷ vs) set set' h =
      let (o, a, g) = bind-done (field_value min max is_vixie is_dow is_dom v set) _ _ h in
      elim (Option-cases o) [
        | inl e ↦ let k = rw e at g in absurd cc
        | inr (mid, e) ↦
            let a = rw e at a in
            let k = rw e at g in
            first-Gathers v vs set mid set' (value-Added min max is_vixie is_dow is_dom v set mid a)
              (values-Gathers vs mid set' k)
      ]

-- A field that is parsed to a set has one arithmetic progression for each of its values: a number or
-- a name denotes itself, a range within the bounds its numbers, a range or the star with a step every
-- such number from the first to the last, and a single start with a step those from it to the upper
-- bound. The set has exactly the numbers of these progressions.
pub parse_field-Denote :
    (value : Text) (min max : ℕ) (is_vixie is_dow is_dom : Bool) (set : List ℕ)
    → parse_field value min max is_vixie is_dow is_dom ≡ done (TimeRange.constrained set)
    → (ps : List Progression) × (DenoteAll min max is_vixie is_dow is_dom
          (pieces (λ c. c == 44) value)
          ps
        × ((x : ℕ) → (mem x set ≡ true → AnyHas ps x) × (AnyHas ps x → mem x set ≡ true)))
unfolding parse_field
parse_field-Denote value min max is_vixie is_dow is_dom set h =
    let (ps, (ds, g)) =
      values-Gathers min max is_vixie is_dow is_dom (pieces (λ c. c == 44) value) [] set h in
    (
      ps,
      (
        ds,
        λ x. (
          λ m. elim ((g x).0 m) [ inl n ↦ absurd (true-false (sym n)) | inr q ↦ q ],
          λ q. (g x).1 (inr q),
        ),
      ),
    )
