-- ===== src/Upstream/Service.antt =====
-- src/upstream/mod.rs, `Upstream`: the current peers behind a lock, and the background tasks that
-- check them and replace them. src/upstream/config.rs: the kind of load balancing.
pub mod Safety
use roxy.Base.{
  ℕ, ◌<◌, ◌≡◌, ◌≢◌, Option, none, some, List, [], ◌∷◌, map, length, get_elem?, set, Result, ok, err,
}
use roxy.Base.Bytes.{Bytes}
use roxy.Base.Options.{◌>>=◌}
use roxy.Upstream.Server.{Server, push_latency}
use roxy.Upstream.Server
use roxy.Upstream.Hash.{F64}
use roxy.Upstream.Peers as Group
use roxy.Upstream.Peers.{best as best_peer, Peers, Outcome, by_etld, check_once, choose, u32_max}

-- src/upstream/provider.rs, `Error`: what can go wrong with a load, with the status of an answer.
pub data ProviderError : Type 0 where
  invalid_uri decode http server_url : ProviderError
  unexpected : ℕ → ProviderError

pub data LoadBalanceType : Type 0 where
  best etld : LoadBalanceType

pub record Upstream (C : Type 0) : Type 0 where
  pub peers : Peers C
  pub lb_type : LoadBalanceType

module _ {C : Type 0} where
  -- `Provider::load`, of the configurations that `fetch` returned.
  unfoldable pub load : List C → List (Server C)
  load configs = map Server.new configs

  -- `Upstream::new` once the provider has answered: the first check is made before it returns.
  unfoldable pub new : LoadBalanceType → List C → (ℕ → Outcome) → Option (Upstream C)
  unfolding load
  new lb configs outcomes = do
    p ← check_once outcomes (Group.new (load configs))
    some (record { peers = p; lb_type = lb })

  -- `suffix` is `publicsuffix::effective_tld_plus_one`.
  pick_by : F64 → (Bytes → Option Bytes) → Bytes → LoadBalanceType → Peers C → Option ℕ
  pick_by f suffix host LoadBalanceType.best p = best_peer p
  pick_by f suffix host LoadBalanceType.etld p = by_etld f suffix host p

  unfoldable pub pick : F64 → (Bytes → Option Bytes) → Bytes → Upstream C → Option ℕ
  unfolding pick_by
  pick f suffix host u = pick_by f suffix host u.lb_type u.peers

  -- A latency, or a failure with value 0, pushed to the server at `i`.
  unfoldable pub push_at : ℕ → ℕ → ℕ → Upstream C → Option (Upstream C)
  push_at i now value u = do
    s ← get_elem? u.peers.servers i
    some (record u {
      peers = record u.peers { servers = set u.peers.servers i (push_latency now value s) };
    })

  -- `check_once` by the periodic task, with the peers of this moment.
  unfoldable pub recheck : (ℕ → Outcome) → Upstream C → Option (Upstream C)
  recheck outcomes u = do p ← check_once outcomes u.peers; some (record u { peers = p })

  -- A reload: what the provider returned is checked, and then takes the place of the peers; after
  -- an error they stay.
  unfoldable pub reload :
      Result ProviderError (List C) → (ℕ → Outcome) → Upstream C → Option (Upstream C)
  unfolding load
  reload (ok configs) outcomes u = do
    p ← check_once outcomes (Group.new (load configs))
    some (record u { peers = p })
  reload (err e) outcomes u = some u

  -- What the tasks and the relays can do to the shared state, in any order. A failure that is
  -- reported for a server of replaced peers reaches nothing that is still shared.
  pub data Step (u : Upstream C) : Upstream C → Type 0 where
    pushed : (i now value : ℕ) {v : Upstream C} → push_at i now value u ≡ some v → Step u v
    checked : (outcomes : ℕ → Outcome) {v : Upstream C} → recheck outcomes u ≡ some v → Step u v
    reloaded :
        (configs : Result ProviderError (List C)) (outcomes : ℕ → Outcome) {v : Upstream C}
        → configs ≢ ok []
        → reload configs outcomes u ≡ some v
        → Step u v

  pub data Reach (u : Upstream C) : Upstream C → Type 0 where
    here : Reach u u
    next : {v w : Upstream C} → Reach u v → Step v w → Reach u w
