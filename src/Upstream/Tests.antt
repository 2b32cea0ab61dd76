-- ===== src/Upstream/Tests.antt =====
-- Runs of the upstream component, and its theorems at concrete servers.
use native.Mathlib.Nat.{le-div_iff_mul-le}
use roxy.Base.{
  ℕ, zero, suc, ◌-◌, ◌*◌, ◌/◌, ◌≤◌, ◌<◌, ◌^◌, ◌≡◌, refl, Option, none, some, [], ◌∷◌, length, drop,
  arith, ok, err, ◌⊎◌,
}
use roxy.Base.Bytes.{Bytes, codes}
use roxy.Base.Int.{pos, negsuc}
use roxy.Socks5.{ErrorKind}
use roxy.Upstream.Server.{latency, Server, Latency, max_history, new}
use roxy.Upstream.Server.History.{push_all, latencies-push_all}
use roxy.Upstream.Hash.{F64, fnv, jumphash}
use roxy.Upstream.Hash.Jump.{IsIeee, jumphash-bucket}
use roxy.Upstream.Peers.{Peers, Outcome, best, by_etld, check_once, u32_max}
use roxy.Upstream.Peers.Best.{latency_at, NoneBelow, IsFastest, HasLatencies}
use roxy.Upstream.Peers.Check.{check_once-best, score}
use roxy.Upstream.Peers.Pick.{IsPick, best-IsPick, by_etld-IsPick}
use roxy.Upstream.Service
use roxy.Upstream.Service.{Upstream, LoadBalanceType, pick, Reach}
use roxy.Upstream.Service.Safety.{pick-Reach, pick-empty}

abbrev l : ℕ → ℕ → Latency
l at v = record { timestamp = at; value = v }

-- Whole numbers with truncated division, in place of floats.
abbrev pub integers : F64
integers = record {
  Float = ℕ;
  of_int = λ n. n;
  mul = λ a b. a * b;
  div = λ a b. a / b;
  to_i64 = λ n. n;
}

one-le-div_of_le : (a b : ℕ) → 0 < b → b ≤ a → 1 ≤ a / b
one-le-div_of_le a b h k = (le-div_iff_mul-le h).1 (omega arith)

le-mul_of_one : (x y : ℕ) → 1 ≤ y → x ≤ x * y
le-mul_of_one x y h = grind arith

pub integers-IsIeee : IsIeee integers
integers-IsIeee = record {
  Le = λ a b. a ≤ b;
  exact = λ n h. refl;
  truncate_mono = λ x y h. h;
  one-le-div = λ a b h k _. one-le-div_of_le a b h k;
  le-mul = λ x y h. le-mul_of_one x y h;
}

fnv_a : fnv (codes "a") ≡ 106652627936467
unfolding fnv
fnv_a = refl

jumphash_empty : jumphash integers 17 0 ≡ some (negsuc 0)
unfolding jumphash
jumphash_empty = refl

jumphash_five : jumphash integers 17 5 ≡ some (pos 4)
unfolding jumphash
jumphash_five = refl

abbrev port : ℕ
port = 443

abbrev fresh : Server ℕ
fresh = new port

latencies-push_all_example :
    ((push_all (l 1 5 ∷ l 2 6 ∷ []) fresh).latencies ≡ drop (2 - max_history) (l 1 5 ∷ l 2 6 ∷ []))
    × (length (push_all (l 1 5 ∷ l 2 6 ∷ []) fresh).latencies ≤ max_history)
latencies-push_all_example = latencies-push_all port (l 1 5 ∷ l 2 6 ∷ [])

jumphash-bucket_example : (i : ℕ) × (jumphash integers 17 5 ≡ some (pos i)) × (i < 5)
jumphash-bucket_example = jumphash-bucket integers integers-IsIeee 17 5 (omega arith) (omega arith)

-- The first server fails, the second takes 30 ms and the third 20 ms.
abbrev outcomes : ℕ → Outcome
outcomes zero = record { at = 7; delay = err ErrorKind.timed_out }
outcomes (suc zero) = record { at = 7; delay = ok 30 }
outcomes (suc (suc n)) = record { at = 7; delay = ok 20 }

abbrev three : Peers ℕ
three = record { servers = new 1 ∷ new 2 ∷ new 3 ∷ []; best = 0 }

check_once-best_example :
    (p' : Peers ℕ) × (check_once outcomes three ≡ some p')
    × (length p'.servers ≡ 3)
    × ((k : ℕ) → k < 3 → latency_at p'.servers k ≡ some (score outcomes k))
    × (((k l : ℕ) × IsFastest p'.servers k l × (best p' ≡ some k))
        ⊎ (NoneBelow p'.servers u32_max × (p'.best ≡ 0)))
check_once-best_example = check_once-best outcomes three (omega arith)

abbrev pub seen : ℕ → ℕ → Server ℕ
seen c v = record { config = c; latencies = l 1 v ∷ [] }

abbrev pub two : Peers ℕ
two = record { servers = seen 1 0 ∷ seen 2 9 ∷ []; best = 0 }

pub two-HasLatencies : HasLatencies two.servers
unfolding latency
two-HasLatencies = ((0, refl), ((9, refl), tt))

best-IsPick_example : (i : ℕ) × (best two ≡ some i) × IsPick two.servers i
best-IsPick_example = best-IsPick two two-HasLatencies (omega arith) (omega arith)

abbrev pub no_suffix : Bytes → Option Bytes
no_suffix b = none

by_etld-IsPick_example :
    (i : ℕ) × (by_etld integers no_suffix (codes "a.io") two ≡ some i) × IsPick two.servers i
by_etld-IsPick_example =
    by_etld-IsPick two two-HasLatencies (omega arith) integers integers-IsIeee (omega arith)
      no_suffix (codes "a.io")

pick-Reach_example :
    (u : Upstream ℕ) × (Service.new LoadBalanceType.etld (1 ∷ 2 ∷ []) outcomes ≡ some u)
    × ((v : Upstream ℕ)
        → Reach u v
        → length v.peers.servers ≤ 2 ^ 31
        → (i : ℕ) × (pick integers no_suffix (codes "a.io") v ≡ some i) × IsPick v.peers.servers i)
pick-Reach_example =
    pick-Reach integers integers-IsIeee no_suffix (codes "a.io") LoadBalanceType.etld (1 ∷ 2 ∷ [])
      outcomes (λ e. cc)

pick-empty_example :
    (u : Upstream ℕ) × (Service.new LoadBalanceType.best [] outcomes ≡ some u)
    × (pick integers no_suffix (codes "a.io") u ≡ none)
pick-empty_example = pick-empty ℕ integers no_suffix (codes "a.io") LoadBalanceType.best outcomes
