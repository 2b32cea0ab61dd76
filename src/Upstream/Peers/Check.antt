-- ===== src/Upstream/Peers/Check.antt =====
-- `check_once` and the server that `best` returns after it.
use mathlib.Core.Option
use native.Mathlib.Nat.{add-zero}
use roxy.Base.{
  ℕ, zero, suc, ◌+◌, ◌<◌, ◌≡◌, refl, sym, ap, ◌∙◌, some, List, [], ◌∷◌, arith, length, get_elem?,
  get_elem?-some, ltb, lt→ltb, Option-cases, inl, inr, ◌⊎◌,
}
use roxy.Upstream.Server.{Server, latency, alive}
use roxy.Upstream.Server.History.{latency-push_latency, alive-eq-latency}
use roxy.Upstream.Peers.{
  Peers, Outcome, unwrap_or, u32_max, best, choose, check_each, check_update_score, check_some,
  check_once,
}
use roxy.Upstream.Peers.Best.{
  HasLatencies, latency_at, NoneBelow, IsFastest, IsChoice, kept, found, choose-IsChoice,
}

-- The score that a check gives a server.
abbrev pub score : (ℕ → Outcome) → ℕ → ℕ
score outcomes k = unwrap_or (outcomes k).delay 0

module _ {C : Type 0} where
  alive_of_latency : (s : Server C) {l : ℕ} → latency s ≡ some l → alive s ≡ some (ltb 0 l)
  alive_of_latency s e = alive-eq-latency s ∙ ap (Option.map (ltb 0)) e

  pub HasLatencies-check_each :
      (outcomes : ℕ → Outcome) (i : ℕ) (ss : List (Server C))
      → HasLatencies (check_each outcomes i ss)
  unfolding check_each check_update_score
  HasLatencies-check_each outcomes i [] = tt
  HasLatencies-check_each outcomes i (s ∷ ss) = (
    (score outcomes i, latency-push_latency (outcomes i).at (score outcomes i) s),
    HasLatencies-check_each outcomes (i + 1) ss,
  )

  pub latency_at-check_each :
      (outcomes : ℕ → Outcome) (i : ℕ) (ss : List (Server C)) (k : ℕ)
      → k < length ss
      → latency_at (check_each outcomes i ss) k ≡ some (score outcomes (i + k))
  unfolding check_each check_update_score latency_at
  latency_at-check_each outcomes i [] k h = absurd (omega arith)
  latency_at-check_each outcomes i (s ∷ ss) zero h =
      latency-push_latency (outcomes i).at (score outcomes i) s
      ∙ ap (λ n. some (score outcomes n)) (sym (add-zero i))
  latency_at-check_each outcomes i (s ∷ ss) (suc k) h =
      latency_at-check_each outcomes (i + 1) ss k (omega arith)
      ∙ ap (λ n. some (score outcomes n)) (omega arith)

  pub length-check_each :
      (outcomes : ℕ → Outcome) (i : ℕ) (ss : List (Server C))
      → length (check_each outcomes i ss) ≡ length ss
  unfolding check_each
  length-check_each outcomes i [] = refl
  length-check_each outcomes i (s ∷ ss) = ap suc (length-check_each outcomes (i + 1) ss)

  best-living :
      (p : Peers C) (l : ℕ) → latency_at p.servers p.best ≡ some l → 0 < l → best p ≡ some p.best
  unfolding best latency_at
  best-living p l e living = elim (Option-cases (get_elem? p.servers p.best)) [
    | inl n ↦ cc
    | inr (s, g) ↦
        let lat : latency s ≡ some l = rw g at e in
        rw (g, alive_of_latency s lat, lt→ltb 0 l living)
  ]

  latency_at-lt : (ss : List (Server C)) (k l : ℕ) → latency_at ss k ≡ some l → k < length ss
  unfolding latency_at
  latency_at-lt [] k l e = cc
  latency_at-lt (s ∷ ss) zero l e = omega arith
  latency_at-lt (s ∷ ss) (suc k) l e = omega (arith, latency_at-lt ss k l e)

  -- What the chosen index means for the peers that hold it.
  Chosen : List (Server C) → ℕ → Type 0
  Chosen servers index =
      let p' : Peers C = record { servers = servers; best = index } in
      ((k l : ℕ) × IsFastest servers k l × (best p' ≡ some k))
      ⊎ (NoneBelow servers u32_max × (index ≡ 0))

  IsChoice-Chosen :
      (servers : List (Server C)) (index : ℕ)
      → 0 < length servers
      → IsChoice servers 0 0 u32_max index
      → (index < length servers) × Chosen servers index
  unfolding Chosen
  IsChoice-Chosen servers index h (kept none_below) = (h, inr (none_below, refl))
  IsChoice-Chosen servers index h (found k l _ fast below at) =
      let same : index ≡ k = omega arith in
      let here : latency_at servers index ≡ some l = ap (latency_at servers) same ∙ fast.here in
      (
        latency_at-lt servers index l here,
        inl (
          k,
          l,
          fast,
          best-living (record { servers = servers; best = index }) l here fast.living
              ∙ ap some same,
        ),
      )

  check_once-some :
      (outcomes : ℕ → Outcome) (p : Peers C) (ss : List (Server C))
      → p.servers ≡ ss
      → 0 < length ss
      → check_once outcomes p ≡ check_some outcomes p
  unfolding check_once
  check_once-some outcomes p [] e h = absurd (omega arith)
  check_once-some outcomes p (s ∷ ss) e h = rw (e, check_once) (rw e)

  check_some-eq :
      (outcomes : ℕ → Outcome) (p : Peers C) (index : ℕ)
      → choose (check_each outcomes 0 p.servers) 0 0 u32_max ≡ some index
      → index < length (check_each outcomes 0 p.servers)
      → check_some outcomes p
        ≡ some (record { servers = check_each outcomes 0 p.servers; best = index })
  check_some-eq outcomes p index chosen inside =
      let (s, at) = get_elem?-some (check_each outcomes 0 p.servers) index inside in rw (chosen, at)

  -- A health check of at least one server never panics. It leaves at each index a server whose
  -- latency is the score of its check, 0 for a failed one. If some score is positive and below
  -- u32::MAX, `best` returns the first server with the lowest positive score; otherwise the stored
  -- index is 0.
  pub check_once-best :
      (outcomes : ℕ → Outcome) (p : Peers C)
      → 0 < length p.servers
      → (p' : Peers C) × (check_once outcomes p ≡ some p')
        × (length p'.servers ≡ length p.servers)
        × ((k : ℕ) → k < length p.servers → latency_at p'.servers k ≡ some (score outcomes k))
        × (((k l : ℕ) × IsFastest p'.servers k l × (best p' ≡ some k))
            ⊎ (NoneBelow p'.servers u32_max × (p'.best ≡ 0)))
  unfolding Chosen
  check_once-best outcomes p h =
      let servers = check_each outcomes 0 p.servers in
      let len = length-check_each outcomes 0 p.servers in
      let (index, chosen, choice) =
        choose-IsChoice servers 0 0 u32_max (HasLatencies-check_each outcomes 0 p.servers) in
      let (inside, what) = IsChoice-Chosen servers index (omega arith) choice in
      (
        record { servers = servers; best = index },
        check_once-some outcomes p p.servers refl h ∙ check_some-eq outcomes p index chosen inside,
        len,
        λ k b.
            latency_at-check_each outcomes 0 p.servers k b
            ∙ ap (λ n. some (score outcomes n)) (omega arith),
        what,
      )

  -- Peers from which a server can be chosen: some server, each with a result, and the stored index
  -- in range.
  pub record IsReady (p : Peers C) : Type 0 where
    pub nonempty : 0 < length p.servers
    pub results : HasLatencies p.servers
    pub inside : p.best < length p.servers

  pub check_once-IsReady :
      (outcomes : ℕ → Outcome) (p : Peers C)
      → 0 < length p.servers
      → (p' : Peers C) × (check_once outcomes p ≡ some p') × IsReady p'
  check_once-IsReady outcomes p h =
      let servers = check_each outcomes 0 p.servers in
      let len = length-check_each outcomes 0 p.servers in
      let results = HasLatencies-check_each outcomes 0 p.servers in
      let (index, chosen, choice) = choose-IsChoice servers 0 0 u32_max results in
      let (inside, _) = IsChoice-Chosen servers index (omega arith) choice in
      (
        record { servers = servers; best = index },
        check_once-some outcomes p p.servers refl h ∙ check_some-eq outcomes p index chosen inside,
        record { nonempty = omega arith; results = results; inside = inside },
      )
