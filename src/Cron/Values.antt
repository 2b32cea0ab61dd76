-- ===== src/Cron/Values.antt =====
-- A value of a field, and the progression that it denotes.
use roxy.Base.{
  ℕ, suc, ◌-◌, ◌^◌, ◌≤◌, ◌<◌, ◌≡◌, refl, sym, ap, ◌∙◌, inl, inr, Bool, true, false, ◌&&◌,
  Bool-cases, none, some, Option-cases, List, ◌∷◌, ◌++◌, ◌==◌, if◌then◌else◌, arith,
}
use roxy.Base.Bytes.{codes, until, behind}
use roxy.Base.Digits.{parse_uint}
use roxy.Rule.{same}
use roxy.Rule.Segments.{same_sound}
use roxy.Cron.{
  Text, invalid_range, fail, done, ◌>>=◌, insert, insert_range, parse_step, parse_range,
  parse_time_unit, out_of_range, add_value, field_value,
}
use roxy.Cron.Members.{
  Progression, Adds, insert_steps-Adds, insert-Adds, until-behind, until-none, bind-done, if-done,
  parse_step-pos,
}

module _ (min max : ℕ) (is_vixie is_dow is_dom : Bool) where
  -- A number, or a name of the field.
  abbrev pub IsUnit : Text → ℕ → Type 0
  IsUnit s n = parse_time_unit s is_vixie is_dom is_dow ≡ done n

  abbrev pub IsStep : Text → ℕ → Type 0
  IsStep s n = (parse_uint (2 ^ 64 - 1) s ≡ some n) × (0 < n)

  abbrev pub InRange : ℕ → ℕ → Type 0
  InRange l r = (min ≤ l) × ((l ≤ r) × (r ≤ max))

  -- What a value denotes.
  pub data Denotes : Text → Progression → Type 0 where
    one : (s : Text) (l : ℕ) → IsUnit s l → Denotes s (record { first = l; last = l; step = 1 })
    range :
        (s t : Text) (l r : ℕ)
        → IsUnit s l
        → IsUnit t r
        → InRange l r
        → Denotes (s ++ (45 ∷ t)) (record { first = l; last = r; step = 1 })
    stepped :
        (s t w : Text) (l r n : ℕ)
        → IsUnit s l
        → IsUnit t r
        → InRange l r
        → IsStep w n
        → Denotes ((s ++ (45 ∷ t)) ++ (47 ∷ w)) (record { first = l; last = r; step = n })
    every :
        (w : Text) (n : ℕ)
        → IsStep w n
        → Denotes (codes "*" ++ (47 ∷ w)) (record { first = min; last = max; step = n })
    from :
        (s w : Text) (l n : ℕ)
        → IsUnit s l
        → IsStep w n
        → Denotes (s ++ (47 ∷ w)) (record { first = l; last = max; step = n })

  pub record Added (v : Text) (set set' : List ℕ) : Type 0 where
    pub progression : Progression
    pub denotes : Denotes v progression
    pub adds : (x : ℕ) → Adds progression set set' x

  range-units :
      (s t : Text) (lr : ℕ × ℕ)
      → parse_range s t is_vixie is_dom is_dow ≡ done lr
      → IsUnit s lr.0 × IsUnit t lr.1
  unfolding parse_range
  range-units s t lr h =
      let (l, a, g) = bind-done (parse_time_unit s is_vixie is_dom is_dow) _ lr h in
      let (r, b, k) = bind-done (parse_time_unit t is_vixie is_dom is_dow) _ lr g in
      let e : (l, r) ≡ lr = cc in (a ∙ ap (λ q. done q.0) e, b ∙ ap (λ q. done q.1) e)

  in_range : (l r : ℕ) → out_of_range min max l r ≡ false → InRange l r
  in_range l r h = (ground (arith, h), (ground (arith, h), ground (arith, h)))

  added :
      {v v' : Text} {p : Progression} {set xs set' : List ℕ}
      → v ≡ v'
      → xs ≡ set'
      → Denotes v' p
      → ((x : ℕ) → Adds p set xs x)
      → Added v set set'
  added {p = p} e f d a = rw (e, sym f) (record { progression = p; denotes = d; adds = a })

  along : {v v' : Text} {set set' : List ℕ} → v ≡ v' → Added v' set set' → Added v set set'
  along e a = rw e a

  -- The run of each form of a value, where it ends in a set.
  one-Added :
      (s : Text) (set set' : List ℕ)
      → (if same s (codes "*")
          then done none
          else parse_time_unit s is_vixie is_dom is_dow >>= λ i. done (some (insert i set)))
        ≡ done (some set')
      → Added s set set'
  one-Added s set set' h = elim (Bool-cases (same s (codes "*"))) [
    | inl e ↦ let hyp = rw e at h in absurd cc
    | inr e ↦
        let g = rw e at h in
        let (l, a, k) =
          bind-done (parse_time_unit s is_vixie is_dom is_dow) (λ i. done (some (insert i set)))
            (some set') g in
        let f : insert l set ≡ set' = cc in added refl f (Denotes.one s l a) (insert-Adds l set)
  ]

  from-Added :
      (s w : Text) (set set' : List ℕ)
      → ((if same s (codes "*") then done min else parse_time_unit s is_vixie is_dom is_dow)
          >>= λ first. parse_step w >>= λ step. done (some (insert_range step first max set)))
        ≡ done (some set')
      → Added (s ++ (47 ∷ w)) set set'
  from-Added s w set set' h =
      let (l, a, g) =
        bind-done
          (if same s (codes "*") then done min else parse_time_unit s is_vixie is_dom is_dow)
          (λ first. parse_step w >>= λ step. done (some (insert_range step first max set)))
          (some set') h in
      let (n, b, k) =
        bind-done (parse_step w) (λ step. done (some (insert_range step l max set))) (some set')
          g in
      let f : insert_range n l max set ≡ set' = cc in
      let (c, pos) = parse_step-pos w n b in
      elim (Bool-cases (same s (codes "*"))) [
        | inl e ↦
            let a = rw e at a in
            let first : min ≡ l = cc in
            added (ap (λ q. q ++ (47 ∷ w)) (same_sound s (codes "*") e))
              (ap (λ q. insert_range n q max set) first ∙ f) (Denotes.every w n (c, pos))
              (λ x. insert_steps-Adds (suc max - min) n min max set x pos (omega arith))
        | inr e ↦
            let a = rw e at a in
            added refl f (Denotes.from s w l n a (c, pos))
              (λ x. insert_steps-Adds (suc max - l) n l max set x pos (omega arith))
      ]

  stepped-Added :
      (v s t w : Text) (set set' : List ℕ)
      → (parse_range s t is_vixie is_dom is_dow >>= λ lr.
          (if out_of_range min max lr.0 lr.1
            then fail (invalid_range v)
            else parse_step w >>= λ step. done (some (insert_range step lr.0 lr.1 set))))
        ≡ done (some set')
      → Added ((s ++ (45 ∷ t)) ++ (47 ∷ w)) set set'
  stepped-Added v s t w set set' h =
      let (lr, a, g) = bind-done (parse_range s t is_vixie is_dom is_dow) _ (some set') h in
      let (inside, k) =
        if-done (out_of_range min max lr.0 lr.1) (invalid_range v) _ (some set') g in
      let (n, b, j) =
        bind-done (parse_step w) (λ step. done (some (insert_range step lr.0 lr.1 set))) (some set')
          k in
      let f : insert_range n lr.0 lr.1 set ≡ set' = cc in
      let (c, pos) = parse_step-pos w n b in
      let units = range-units s t lr a in
      added refl f
        (Denotes.stepped s t w lr.0 lr.1 n units.0 units.1 (in_range lr.0 lr.1 inside) (c, pos))
        (λ x. (insert_steps-Adds (suc lr.1 - lr.0) n lr.0 lr.1 set x pos (omega arith)))

  range-Added :
      (v s t : Text) (set set' : List ℕ)
      → (parse_range s t is_vixie is_dom is_dow >>= λ lr.
          (if out_of_range min max lr.0 lr.1
            then fail (invalid_range v)
            else if (lr.0 == min) && (lr.1 == max)
            then done none
            else done (some (insert_range 1 lr.0 lr.1 set))))
        ≡ done (some set')
      → Added (s ++ (45 ∷ t)) set set'
  range-Added v s t set set' h =
      let (lr, a, g) = bind-done (parse_range s t is_vixie is_dom is_dow) _ (some set') h in
      let (inside, k) =
        if-done (out_of_range min max lr.0 lr.1) (invalid_range v) _ (some set') g in
      let f = some_range ((lr.0 == min) && (lr.1 == max)) (insert_range 1 lr.0 lr.1 set) set' k in
      let units = range-units s t lr a in
      added refl f (Denotes.range s t lr.0 lr.1 units.0 units.1 (in_range lr.0 lr.1 inside))
        (λ x. (insert_steps-Adds (suc lr.1 - lr.0) 1 lr.0 lr.1 set x (omega arith) (omega arith)))
    where
      some_range :
          (c : Bool) (xs ys : List ℕ)
          → (if c then done none else done (some xs)) ≡ done (some ys)
          → xs ≡ ys
      some_range true xs ys h = cc
      some_range false xs ys h = cc

  pub value-Added :
      (v : Text) (set set' : List ℕ)
      → field_value min max is_vixie is_dow is_dom v set ≡ done (some set')
      → Added v set set'
  unfolding field_value add_value
  value-Added v set set' h = elim (Option-cases (behind 45 (until 47 v))) [
    | inl f ↦
        let left = until-none 45 (until 47 v) f in
        elim (Option-cases (behind 47 v)) [
          | inl e ↦
              let g = rw (f, e) at h in
              along (sym (left ∙ until-none 47 v e)) (one-Added (until 45 (until 47 v)) set set' g)
          | inr (w, e) ↦
              let g = rw (f, e) at h in
              along (until-behind 47 v w e ∙ ap (λ q. q ++ (47 ∷ w)) (sym left))
                (from-Added (until 45 (until 47 v)) w set set' g)
        ]
    | inr (t, f) ↦
        let left = until-behind 45 (until 47 v) t f in
        elim (Option-cases (behind 47 v)) [
          | inl e ↦
              let g = rw (f, e) at h in
              along (sym (until-none 47 v e) ∙ left)
                (range-Added v (until 45 (until 47 v)) t set set' g)
          | inr (w, e) ↦
              let g = rw (f, e) at h in
              along (until-behind 47 v w e ∙ ap (λ q. q ++ (47 ∷ w)) left)
                (stepped-Added v (until 45 (until 47 v)) t w set set' g)
        ]
  ]
