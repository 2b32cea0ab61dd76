-- ===== src/Rule/Lookup.antt =====
-- The loop of `contain` against the front parts of the reversed labels.
use mathlib.Core.Path.{subst}
use roxy.Base.{
  ℕ, suc, ◌+◌, ◌≡◌, ◌≢◌, ◌↔◌, ◌⊎◌, inl, inr, refl, sym, ap, ◌∙◌, Bool, true, false, List, [], ◌∷◌,
  ◌++◌, append_assoc, length, length-append, ◌==◌, if◌then◌else◌, arith,
}
use roxy.Base.Bytes.{Bytes}
use roxy.Rule.{dot, has, join, walk}
use roxy.Rule.Segments.{join-snoc}

-- The buffer behind the labels `ds`.
abbrev before : List Bytes → Bytes
before [] = []
before (d ∷ ds) = join (d ∷ ds) ++ (dot ∷ [])

before-append : (ds : List Bytes) (l : Bytes) → before ds ++ l ≡ join (ds ++ (l ∷ []))
unfolding join
before-append [] l = refl
before-append (d ∷ ds) l = append_assoc (join (d ∷ ds)) (dot ∷ []) l ∙ sym (join-snoc d ds l)

before-snoc :
    (ds : List Bytes) (l : Bytes) → before (ds ++ (l ∷ [])) ≡ join (ds ++ (l ∷ [])) ++ (dot ∷ [])
before-snoc [] l = refl
before-snoc (d ∷ ds) l = refl

-- The labels `ds`, with `ls` behind them, are an entry as a whole, or, where they are no entry
-- themselves, a wildcard.
abbrev pub Here : List Bytes → List Bytes → List Bytes → Type 0
Here entries ds ls =
    ((ls ≡ []) × (has (join ds) entries ≡ true))
    ⊎ ((has (join ds) entries ≡ false) × (has (join ds ++ (dot ∷ [])) entries ≡ true))

abbrev Hit : List Bytes → List Bytes → List Bytes → Type 0
Hit entries ds [] = ⊥
Hit entries ds (l ∷ ls) = Here entries (ds ++ (l ∷ [])) ls ⊎ Hit entries (ds ++ (l ∷ [])) ls

-- The tests of a round, `x` and `y` those of the set and `z` whether it is the last.
choice :
    (x y z r : Bool) {E R : Type 0}
    → (z ≡ true → E × ¬ R)
    → (z ≡ false → (¬ E) × ((r ≡ true) ↔ R))
    → ((if x then if z then true else r else if y then true else if z then false else r) ≡ true)
      ↔ (((E × (x ≡ true)) ⊎ ((x ≡ false) × (y ≡ true))) ⊎ R)
choice true y true r at_end on_way = (λ e. inl (inl ((at_end refl).0, refl)), λ h. refl)
choice true y false r at_end on_way =
    let (not_end, rest) = on_way refl in
    (
      λ e. inr (rest.0 e),
      λ h. elim h [
        | inl (inl (end, _)) ↦ absurd (not_end end)
        | inl (inr (f, _)) ↦ cc
        | inr k ↦ rest.1 k
      ],
    )
choice false true z r at_end on_way = (λ e. inl (inr (refl, refl)), λ h. refl)
choice false false true r at_end on_way = (
  λ e. cc,
  λ h. elim h [
    | inl (inl (_, f)) ↦ cc
    | inl (inr (_, f)) ↦ cc
    | inr k ↦ absurd ((at_end refl).1 k)
  ],
)
choice false false false r at_end on_way =
    let (not_end, rest) = on_way refl in
    (
      λ e. inr (rest.0 e),
      λ h. elim h [ inl (inl (_, f)) ↦ cc | inl (inr (_, f)) ↦ cc | inr k ↦ rest.1 k ],
    )

none_left : (entries ds ls : List Bytes) → length ls ≡ 0 → (ls ≡ []) × (¬ Hit entries ds ls)
none_left entries ds [] h = (refl, λ hit. hit)
none_left entries ds (l ∷ ls) h = absurd (omega (arith, h))

module _ (entries : List Bytes) (last : ℕ) where
  walk_iff :
      (ds ls : List Bytes)
      → length ds + length ls ≡ suc last
      → (walk entries last (length ds) (before ds) ls ≡ true) ↔ Hit entries ds ls
  unfolding walk
  walk_iff ds [] h = (λ e. cc, λ hit. absurd hit)
  walk_iff ds (l ∷ ls) h =
      let dl = ds ++ (l ∷ []) in
      let len : length dl ≡ length ds + 1 = length-append ds (l ∷ []) in
      rw (before-append ds l) (
        choice (has (join dl) entries) (has (join dl ++ (dot ∷ [])) entries) (length ds == last)
          (walk entries last (length ds + 1) (join dl ++ (dot ∷ [])) ls)
          (λ at_end. none_left entries dl ls (ground (arith, h)))
          (λ on_way. (
            λ no_more. ground (arith, h, ap length no_more),
            rw (sym len, sym (before-snoc ds l)) (walk_iff dl ls (omega (arith, h, len))),
          )))

-- Some front part of the labels is ruled.
pub record Found (entries ds ls : List Bytes) : Type 0 where
  pub front : List Bytes
  pub back : List Bytes
  pub parts : ls ≡ front ++ back
  pub some_label : front ≢ []
  pub here : Here entries (ds ++ front) back

Hit-Found : (entries ds ls : List Bytes) → Hit entries ds ls → Found entries ds ls
Hit-Found entries ds [] hit = absurd hit
Hit-Found entries ds (l ∷ ls) (inl here) = record {
  front = l ∷ [];
  back = ls;
  parts = refl;
  some_label = λ e. cc;
  here = here;
}
Hit-Found entries ds (l ∷ ls) (inr hit) =
    let f = Hit-Found entries (ds ++ (l ∷ [])) ls hit in
    record {
      front = l ∷ f.front;
      back = f.back;
      parts = ap (λ k. l ∷ k) f.parts;
      some_label = λ e. cc;
      here = subst (λ k. Here entries k f.back) (append_assoc ds (l ∷ []) f.front) f.here;
    }

Here-Hit :
    (entries ds : List Bytes) (f : Bytes) (front back : List Bytes)
    → Here entries (ds ++ (f ∷ front)) back
    → Hit entries ds (f ∷ (front ++ back))
Here-Hit entries ds f [] back here = inl here
Here-Hit entries ds f (g ∷ front) back here = inr (
    Here-Hit entries (ds ++ (f ∷ [])) g front back
      (subst (λ k. Here entries k back) (sym (append_assoc ds (f ∷ []) (g ∷ front))) here))

Found-Hit : (entries ds ls : List Bytes) → Found entries ds ls → Hit entries ds ls
Found-Hit entries ds ls f = by_front f.front f.parts f.some_label f.here
  where
    by_front :
        (front : List Bytes)
        → ls ≡ front ++ f.back
        → front ≢ []
        → Here entries (ds ++ front) f.back
        → Hit entries ds ls
    by_front [] e some_label here = absurd (some_label refl)
    by_front (g ∷ front) e some_label here =
        subst (Hit entries ds) (sym e) (Here-Hit entries ds g front f.back here)

-- The loop finds exactly the labels of which some front part is ruled.
pub walk-iff-Found :
    (entries ls : List Bytes) (last : ℕ)
    → length ls ≡ suc last
    → (walk entries last 0 [] ls ≡ true) ↔ Found entries [] ls
walk-iff-Found entries ls last h =
    let loop = walk_iff entries last [] ls (omega (arith, h)) in
    (λ e. Hit-Found entries [] ls (loop.0 e), λ f. loop.1 (Found-Hit entries [] ls f))
