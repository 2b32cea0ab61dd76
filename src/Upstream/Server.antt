-- ===== src/Upstream/Server.antt =====
-- src/upstream/server.rs: one proxy server and its latency history. The configuration is the
-- parameter `C`. The mutex makes each method atomic; a method that changes the history returns the
-- new server. `Instant::now()` is the argument `now`.
pub mod History
use roxy.Base.{
  ℕ, suc, ◌+◌, Bool, Option, none, some, List, [], ◌∷◌, ◌++◌, length, drop, ltb, ◌==◌,
  if◌then◌else◌,
}
use mathlib.Core.Option

abbrev pub max_history : ℕ
max_history = 10

pub record Latency : Type 0 where
  pub timestamp : ℕ
  pub value : ℕ

pub record Server (C : Type 0) : Type 0 where
  pub config : C
  pub latencies : List Latency

-- `VecDeque::back`
abbrev pub back {ℓ} : {A : Type ℓ} → List A → Option A
back [] = none
back (x ∷ []) = some x
back (x ∷ y ∷ xs) = back (y ∷ xs)

module _ {C : Type 0} where
  unfoldable pub new : C → Server C
  new config = record { config = config; latencies = [] }

  -- `none` is the panic of `expect` on an empty history.
  unfoldable pub latency : Server C → Option ℕ
  latency s = Option.map (λ (l : Latency). l.value) (back s.latencies)

  unfoldable pub alive : Server C → Option Bool
  alive s = Option.map (λ (l : Latency). ltb 0 l.value) (back s.latencies)

  -- A full deque loses its front.
  unfoldable pub push_latency : ℕ → ℕ → Server C → Server C
  push_latency now value s =
      let history = if length s.latencies == max_history then drop 1 s.latencies else s.latencies in
      record s { latencies = history ++ (record { timestamp = now; value = value } ∷ []) }

  unfoldable pub report_failure : ℕ → Server C → Server C
  unfolding push_latency
  report_failure now s = push_latency now 0 s
