-- ===== src/Upstream/Service/Safety.antt =====
-- The shared state stays fit for a choice, whatever the tasks do.
use mathlib.Core.Option.{some-injective}
use mathlib.Core.Path.{subst}
use roxy.Base.{
  ℕ, zero, suc, ◌≤◌, ◌^◌, ◌≡◌, ◌≢◌, refl, ap, Option, none, some, List, [], ◌∷◌, length, get_elem?,
  set, length-set, arith, Result, ok, err, inl, inr, Option-cases,
}
use roxy.Base.Bytes.{Bytes}
use roxy.Upstream.Server.{Server, push_latency}
use roxy.Upstream.Server.History.{latency-push_latency}
use roxy.Upstream.Hash.{F64, jumphash}
use roxy.Upstream.Hash.Jump.{IsIeee}
use roxy.Upstream.Peers as Group
use roxy.Upstream.Peers.{best as best_peer, Peers, Outcome, by_etld, check_once}
use roxy.Upstream.Peers.Best.{HasLatencies}
use roxy.Upstream.Peers.Check.{IsReady, check_once-IsReady}
use roxy.Upstream.Peers.Pick.{IsPick, best-IsPick, by_etld-IsPick}
use roxy.Upstream.Service.{
  LoadBalanceType, ProviderError, Upstream, load, new, pick, pick_by, push_at, recheck, reload,
  Step, pushed, checked, reloaded, Reach, here, next,
}

pick_by-empty :
    (C : Type 0) (f : F64) (suffix : Bytes → Option Bytes) (host : Bytes) (lb : LoadBalanceType)
    → pick_by {C = C} f suffix host lb (record { servers = []; best = 0 }) ≡ none
unfolding pick_by best_peer by_etld jumphash
pick_by-empty C f suffix host LoadBalanceType.best = refl
pick_by-empty C f suffix host LoadBalanceType.etld = refl

-- If the provider returns no configuration, `Upstream::new` succeeds all the same, and then
-- `pick` panics for every host and either kind of load balancing.
pub pick-empty :
    (C : Type 0) (f : F64) (suffix : Bytes → Option Bytes) (host : Bytes) (lb : LoadBalanceType)
    (outcomes : ℕ → Outcome)
    → (u : Upstream C) × (new lb [] outcomes ≡ some u) × (pick f suffix host u ≡ none)
unfolding new load pick Group.new check_once
pick-empty C f suffix host lb outcomes = (
  record { peers = record { servers = []; best = 0 }; lb_type = lb },
  refl,
  pick_by-empty C f suffix host lb,
)

module _ {C : Type 0} where
  HasLatencies-set :
      (ss : List (Server C)) (i now value : ℕ) (s : Server C)
      → HasLatencies ss
      → HasLatencies (set ss i (push_latency now value s))
  HasLatencies-set [] i now value s h = h
  HasLatencies-set (x ∷ ss) zero now value s h = ((value, latency-push_latency now value s), h.1)
  HasLatencies-set (x ∷ ss) (suc i) now value s h = (h.0, HasLatencies-set ss i now value s h.1)

  push_at-IsReady :
      (i now value : ℕ) (u : Upstream C) {v : Upstream C}
      → push_at i now value u ≡ some v
      → IsReady u.peers
      → IsReady v.peers
  unfolding push_at
  push_at-IsReady i now value u e h = elim (Option-cases (get_elem? u.peers.servers i)) [
    | inl n ↦ cc
    | inr (s, g) ↦
        let pushed_servers = set u.peers.servers i (push_latency now value s) in
        let len = length-set u.peers.servers i (push_latency now value s) in
        subst IsReady (ap Upstream.peers (some-injective _ _ (rw g at e))) (record {
          nonempty = omega (arith, h.nonempty);
          results = HasLatencies-set u.peers.servers i now value s h.results;
          inside = omega (arith, h.inside);
        })
  ]

  recheck-IsReady :
      (outcomes : ℕ → Outcome) (u : Upstream C) {v : Upstream C}
      → recheck outcomes u ≡ some v
      → IsReady u.peers
      → IsReady v.peers
  unfolding recheck
  recheck-IsReady outcomes u e h =
      let (p, f, ready) = check_once-IsReady outcomes u.peers h.nonempty in
      subst IsReady (ap Upstream.peers (some-injective _ _ (rw f at e))) ready

  length-load : (configs : List C) → length (load configs) ≡ length configs
  unfolding load
  length-load [] = refl
  length-load (c ∷ cs) = ap suc (length-load cs)

  checked_new-IsReady :
      (configs : List C) (outcomes : ℕ → Outcome)
      → configs ≢ []
      → (p : Peers C) × (check_once outcomes (Group.new (load configs)) ≡ some p) × IsReady p
  checked_new-IsReady [] outcomes h = absurd (h refl)
  checked_new-IsReady (c ∷ cs) outcomes h =
      check_once-IsReady outcomes (Group.new (load (c ∷ cs)))
        (unfold Group.new in omega (arith, length-load (c ∷ cs)))

  reload-IsReady :
      (r : Result ProviderError (List C)) (outcomes : ℕ → Outcome) (u : Upstream C) {v : Upstream C}
      → r ≢ ok []
      → reload r outcomes u ≡ some v
      → IsReady u.peers
      → IsReady v.peers
  unfolding reload
  reload-IsReady (err x) outcomes u ne e h =
      subst IsReady (ap Upstream.peers (some-injective _ _ e)) h
  reload-IsReady (ok configs) outcomes u ne e h =
      let (p, f, ready) = checked_new-IsReady configs outcomes (λ q. ne (ap ok q)) in
      subst IsReady (ap Upstream.peers (some-injective _ _ (rw f at e))) ready

  Step-IsReady : {u v : Upstream C} → Step u v → IsReady u.peers → IsReady v.peers
  Step-IsReady {u} (pushed i now value e) h = push_at-IsReady i now value u e h
  Step-IsReady {u} (checked outcomes e) h = recheck-IsReady outcomes u e h
  Step-IsReady {u} (reloaded r outcomes ne e) h = reload-IsReady r outcomes u ne e h

  pub Reach-IsReady : {u v : Upstream C} → Reach u v → IsReady u.peers → IsReady v.peers
  Reach-IsReady here h = h
  Reach-IsReady (next r s) h = Step-IsReady s (Reach-IsReady r h)

  module _ (f : F64) (ieee : IsIeee f) (suffix : Bytes → Option Bytes) (host : Bytes) where
    pub pick-IsPick :
        (u : Upstream C)
        → IsReady u.peers
        → length u.peers.servers ≤ 2 ^ 31
        → (i : ℕ) × (pick f suffix host u ≡ some i) × IsPick u.peers.servers i
    unfolding pick
    pick-IsPick u h few = by_type u.lb_type
      where
        by_type :
            (lb : LoadBalanceType)
            → (i : ℕ) × (pick_by f suffix host lb u.peers ≡ some i) × IsPick u.peers.servers i
        by_type LoadBalanceType.best = best-IsPick u.peers h.results h.nonempty h.inside
        by_type LoadBalanceType.etld =
            by_etld-IsPick u.peers h.results h.nonempty f ieee few suffix host

    -- If the provider first returns at least one configuration, `Upstream::new` does not panic; and
    -- in every state that it then reaches by pushed latencies, by periodic checks and by reloads
    -- that return an error or at least one configuration, `pick` does not panic, for any host and
    -- either kind of load balancing, with at most 2^31 servers and under IEEE 754 arithmetic: it
    -- returns the index of a living server, or 0 where no server is living.
    pub pick-Reach :
        (lb : LoadBalanceType) (configs : List C) (outcomes : ℕ → Outcome)
        → configs ≢ []
        → (u : Upstream C) × (new lb configs outcomes ≡ some u)
          × ((v : Upstream C)
              → Reach u v
              → length v.peers.servers ≤ 2 ^ 31
              → (i : ℕ) × (pick f suffix host v ≡ some i) × IsPick v.peers.servers i)
    unfolding new
    pick-Reach lb configs outcomes ne =
        let (p, e, ready) = checked_new-IsReady configs outcomes ne in
        (
          record { peers = p; lb_type = lb },
          rw e,
          λ v r few. pick-IsPick v (Reach-IsReady r ready) few,
        )
