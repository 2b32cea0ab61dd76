-- ===== src/Cron/Members.antt =====
-- Which numbers a field has: those of the arithmetic progressions that its values denote.
use roxy.Base.{
  ℕ, zero, suc, ◌+◌, ◌-◌, ◌*◌, ◌^◌, ◌≤◌, ◌<◌, ◌≡◌, ◌⊎◌, refl, sym, ap, ◌∙◌, inl, inr, Bool, true,
  false, ◌||◌, Bool-cases, Option, none, some, List, [], ◌∷◌, ◌++◌, ltb, leb, ◌==◌, if◌then◌else◌,
  arith,
}
use roxy.Base.Bytes.{until, behind}
use roxy.Base.Digits.{parse_uint}
use roxy.Cron.{
  Text, Error, Run, panic, fail, done, ◌>>=◌, or_parse_int, insert, insert_steps, parse_step,
}

abbrev pub mem : ℕ → List ℕ → Bool
mem x [] = false
mem x (y ∷ set) = (x == y) || mem x set

mem-insert : (x i : ℕ) (set : List ℕ) → mem x (insert i set) ≡ (x == i) || mem x set
unfolding insert
mem-insert x i [] = refl
mem-insert x i (j ∷ set) = elim (Bool-cases (i == j)) [
  | inl e ↦ rw (e, insert) (ground (arith, e))
  | inr e ↦ elim (Bool-cases (ltb i j)) [
    | inl h ↦ rw (e, insert, h) refl
    | inr h ↦ rw (e, insert, h, mem-insert x i set) (ground arith)
  ]
]

-- From `first` to `last` in steps.
pub record Progression : Type 0 where
  pub first : ℕ
  pub last : ℕ
  pub step : ℕ

pub record Has (p : Progression) (x : ℕ) : Type 0 where
  pub turns : ℕ
  pub reached : x ≡ p.first + turns * p.step
  pub inside : x ≤ p.last

-- `set'` is `set` with the numbers of `p`.
abbrev pub Adds : Progression → List ℕ → List ℕ → ℕ → Type 0
Adds p set set' x =
    (mem x set' ≡ true → (mem x set ≡ true) ⊎ Has p x)
    × ((mem x set ≡ true) ⊎ Has p x → mem x set' ≡ true)

or_cases : (a b : Bool) → a || b ≡ true → (a ≡ true) ⊎ (b ≡ true)
or_cases true b h = inl refl
or_cases false b h = inr h

insert_cases : (x i : ℕ) (set : List ℕ) → mem x (insert i set) ≡ true → (x ≡ i) ⊎ (mem x set ≡ true)
insert_cases x i set m = elim (or_cases (x == i) (mem x set) (sym (mem-insert x i set) ∙ m)) [
  | inl e ↦ inl (ground (arith, e))
  | inr o ↦ inr o
]

insert_old : (x i : ℕ) (set : List ℕ) → mem x set ≡ true → mem x (insert i set) ≡ true
insert_old x i set m = rw (mem-insert x i set, m) (ground arith)

insert_new : (x i : ℕ) (set : List ℕ) → x ≡ i → mem x (insert i set) ≡ true
insert_new x i set e =
    rw (mem-insert x i set) (let same : (x == i) ≡ true = ground (arith, e) in rw same refl)

-- A number of a progression is its first or one of the rest.
Has-cases :
    (i n r x turns : ℕ)
    → x ≡ i + turns * n
    → x ≤ r
    → (x ≡ i) ⊎ Has (record { first = i + n; last = r; step = n }) x
Has-cases i n r x zero e h = inl (omega (arith, e))
Has-cases i n r x (suc k) e h = inr (record { turns = k; reached = omega (arith, e); inside = h })

pub insert_steps-Adds :
    (fuel n i r : ℕ) (set : List ℕ) (x : ℕ)
    → 0 < n
    → suc r - i ≤ fuel
    → Adds (record { first = i; last = r; step = n }) set (insert_steps fuel n i r set) x
unfolding insert_steps
insert_steps-Adds zero n i r set x pos h = (
  λ m. inl m,
  λ d. elim d [
    | inl m ↦ m
    | inr p ↦ absurd (let a = p.reached in let b = p.inside in omega (arith, a, b, h))
  ],
)
insert_steps-Adds (suc fuel) n i r set x pos h = elim (Bool-cases (leb i r)) [
  | inr e ↦
      rw (e, insert_steps)
        (
          λ m. inl m,
          λ d. elim d [
            | inl m ↦ m
            | inr p ↦ absurd (let a = p.reached in let b = p.inside in ground (arith, a, b, e))
          ],
        )
  | inl e ↦
      let below = insert_steps-Adds fuel n (i + n) r (insert i set) x pos (omega (arith, h, pos)) in
      rw (e, insert_steps)
        (
          λ m. elim (below.0 m) [
            | inl m' ↦ elim (insert_cases x i set m') [
              | inl f ↦
                  inr (record {
                    turns = 0;
                    reached = omega (arith, f);
                    inside = ground (arith, e, f);
                  })
              | inr o ↦ inl o
            ]
            | inr p ↦ inr (
                let a = p.reached in
                record { turns = suc p.turns; reached = omega (arith, a); inside = p.inside })
          ],
          λ d. elim d [
            | inl m ↦ below.1 (inl (insert_old x i set m))
            | inr p ↦ elim (Has-cases i n r x p.turns p.reached p.inside) [
              | inl f ↦ below.1 (inl (insert_new x i set f))
              | inr q ↦ below.1 (inr q)
            ]
          ],
        )
]

pub insert-Adds :
    (i : ℕ) (set : List ℕ) (x : ℕ)
    → Adds (record { first = i; last = i; step = 1 }) set (insert i set) x
insert-Adds i set x = (
  λ m. elim (insert_cases x i set m) [
    | inl f ↦ inr (record { turns = 0; reached = omega (arith, f); inside = omega (arith, f) })
    | inr o ↦ inl o
  ],
  λ d. elim d [
    | inl m ↦ insert_old x i set m
    | inr p ↦ insert_new x i set (let a = p.reached in let b = p.inside in omega (arith, a, b))
  ],
)

pub until-behind : (c : ℕ) (s t : Text) → behind c s ≡ some t → s ≡ until c s ++ (c ∷ t)
until-behind c [] t h = cc
until-behind c (b ∷ s) t h = elim (Bool-cases (b == c)) [
  | inl e ↦
      let same_char : b ≡ c = ground (arith, e) in
      let h = rw e at h in (let rest : s ≡ t = cc in rw (e, same_char, rest) refl)
  | inr e ↦ let h = rw e at h in (rw e (ap (λ l. b ∷ l) (until-behind c s t h)))
]

pub until-none : (c : ℕ) (s : Text) → behind c s ≡ none → until c s ≡ s
until-none c [] h = refl
until-none c (b ∷ s) h = elim (Bool-cases (b == c)) [
  | inl e ↦ (let hyp = rw e at h in cc)
  | inr e ↦ let h = rw e at h in (rw e (ap (λ l. b ∷ l) (until-none c s h)))
]

-- What a run that ends in a result did.
pub bind-done :
    {A B : Type 0} (r : Run A) (next : A → Run B) (b : B)
    → r >>= next ≡ done b
    → (a : A) × (r ≡ done a) × (next a ≡ done b)
bind-done panic next b h = cc
bind-done (fail e) next b h = cc
bind-done (done a) next b h = (a, refl, h)

pub if-done :
    {B : Type 0} (c : Bool) (e : Error) (r : Run B) (b : B)
    → (if c then fail e else r) ≡ done b
    → (c ≡ false) × (r ≡ done b)
if-done true e r b h = cc
if-done false e r b h = (refl, h)

or_parse_int-done : (o : Option ℕ) (n : ℕ) → or_parse_int o ≡ done n → o ≡ some n
or_parse_int-done none n h = cc
or_parse_int-done (some m) n h = cc

pub parse_step-pos :
    (s : Text) (n : ℕ) → parse_step s ≡ done n → (parse_uint (2 ^ 64 - 1) s ≡ some n) × (0 < n)
parse_step-pos s n h =
    let (m, e, g) =
      bind-done (or_parse_int (parse_uint (2 ^ 64 - 1) s))
        (λ step. if step == 0 then panic else done step) n h in
    elim (Bool-cases (m == 0)) [
      | inl z ↦ (let hyp = rw z at g in cc)
      | inr z ↦
          let g = rw z at g in
          (let same_step : m ≡ n = cc in
            (or_parse_int-done (parse_uint (2 ^ 64 - 1) s) n (e ∙ g), ground (arith, z, same_step)))
    ]
