-- ===== src/Upstream/Peers.antt =====
-- src/upstream/mod.rs, `Peers`: the servers, the index of the best, and the choice of one. A server
-- is shared by `Arc`, so a choice is the index of a server, and `none` is a panic.
pub mod Best
pub mod Check
pub mod Pick
use mathlib.Core.Option
use roxy.Base.{
  ℕ, zero, suc, ◌+◌, ◌%◌, ◌^◌, Bool, true, false, Option, none, some, List, [], ◌∷◌, length,
  get_elem?, ltb, ◌==◌, if◌then◌else◌, Result, ok, err,
}
use roxy.Base.Options.{◌>>=◌}
use roxy.Base.Bytes.{Bytes}
use roxy.Base.Int.{ℤ, pos, negsuc}
use roxy.Socks5.{ErrorKind}
use roxy.Upstream.Server.{Server, latency, alive, push_latency}
use roxy.Upstream.Hash.{F64, fnv, jumphash}

pub record Peers (C : Type 0) : Type 0 where
  pub servers : List (Server C)
  pub best : ℕ

-- `index as usize` of a negative index is past every vector.
abbrev pub index_of : ℤ → Option ℕ
index_of (pos i) = some i
index_of (negsuc n) = none

-- What the health check of one server found: the delay in milliseconds, or an error.
pub record Outcome : Type 0 where
  pub at : ℕ
  pub delay : Result ErrorKind ℕ

-- `Result::unwrap_or`
abbrev pub unwrap_or : Result ErrorKind ℕ → ℕ → ℕ
unwrap_or (ok a) d = a
unwrap_or (err e) d = d

abbrev pub u32_max : ℕ
u32_max = 4294967295

module _ {C : Type 0} where
  unfoldable pub new : List (Server C) → Peers C
  new servers = record { servers = servers; best = 0 }

  -- The loop of `fallback`: the first living server, counted from `i`.
  unfoldable pub first_alive : List (Server C) → ℕ → Option (Option ℕ)
  first_alive [] i = some none
  first_alive (s ∷ ss) i = elim (alive s) [
    | none ↦ none
    | some true ↦ some (some i)
    | some false ↦ first_alive ss (i + 1)
  ]

  -- `self.servers[0].clone()`
  abbrev pub first : List (Server C) → Option ℕ
  first [] = none
  first (s ∷ ss) = some 0

  unfoldable pub fallback : Peers C → Option ℕ
  unfolding first_alive
  fallback p = do
    found ← first_alive p.servers 0
    elim found [ some i ↦ some i | none ↦ first p.servers ]

  unfoldable pub best : Peers C → Option ℕ
  unfolding fallback
  best p = do
    server ← get_elem? p.servers p.best
    up ← alive server
    if up then some p.best else fallback p

  -- A round of the loop of `by_etld`; `key += 1` wraps, in a build without overflow checks.
  module _ (f : F64) where
    unfoldable pub probe : ℕ → ℕ → Peers C → Option ℕ
    unfolding fallback
    probe zero key p = fallback p
    probe (suc rounds) key p =
        let rest = probe rounds ((key + 1) % 2 ^ 64) p in
        do
          index ← jumphash f key (length p.servers)
          i ← index_of index
          server ← get_elem? p.servers i
          up ← alive server
          elim up [ true ↦ some i | false ↦ rest ]

    -- `etld` is `publicsuffix::effective_tld_plus_one`, `none` where it fails.
    unfoldable pub by_etld : (Bytes → Option Bytes) → Bytes → Peers C → Option ℕ
    unfolding probe fnv
    by_etld etld host p =
        let key : Bytes = elim (etld host) [ some e ↦ e | none ↦ host ] in probe 5 (fnv key) p

  -- The loop of `check_once` over the servers from index `i` on.
  unfoldable pub choose : List (Server C) → ℕ → ℕ → ℕ → Option ℕ
  choose [] i best_index best_latency = some best_index
  choose (s ∷ ss) i best_index best_latency = do
    l ← latency s
    let better = if l == 0 then false else ltb l best_latency
    choose ss (i + 1) (if better then i else best_index) (if better then l else best_latency)

  -- `Checker::check_update_score`
  unfoldable pub check_update_score : Outcome → Server C → Server C
  unfolding push_latency
  check_update_score o s = push_latency o.at (unwrap_or o.delay 0) s

  -- Every server is checked, the one at index `i` with the outcome `outcomes i`.
  unfoldable pub check_each : (ℕ → Outcome) → ℕ → List (Server C) → List (Server C)
  unfolding check_update_score
  check_each outcomes i [] = []
  check_each outcomes i (s ∷ ss) =
      check_update_score (outcomes i) s ∷ check_each outcomes (i + 1) ss

  abbrev pub check_some : (ℕ → Outcome) → Peers C → Option (Peers C)
  check_some outcomes p = do
    let servers = check_each outcomes 0 p.servers
    best_index ← choose servers 0 0 u32_max
    server ← get_elem? servers best_index
    some (record { servers = servers; best = best_index })

  -- With no server it returns at once.
  unfoldable pub check_once : (ℕ → Outcome) → Peers C → Option (Peers C)
  unfolding check_each choose
  check_once outcomes p = elim p.servers [ [] ↦ some p | s ∷ ss ↦ check_some outcomes p ]
