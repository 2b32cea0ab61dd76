-- ===== src/Upstream/Peers/Pick.antt =====
-- A choice of a server never panics on checked servers, and takes a living one if there is one.
use mathlib.Core.Option
use roxy.Base.{
  ℕ, zero, suc, ◌+◌, ◌≤◌, ◌<◌, ◌%◌, ◌^◌, ◌≡◌, refl, ap, ◌∙◌, Bool, true, false, Option, none, some,
  List, [], ◌∷◌, arith, length, get_elem?, ltb, Bool-cases, inl, inr, ◌⊎◌,
}
use roxy.Base.Bytes.{Bytes}
use roxy.Base.Options.{◌>>=◌}
use roxy.Upstream.Server.{Server, latency, alive}
use roxy.Upstream.Server.History.{alive-eq-latency}
use roxy.Upstream.Hash.{F64}
use roxy.Upstream.Hash.Jump.{IsIeee, jumphash-bucket}
use roxy.Upstream.Peers.{Peers, first_alive, first, fallback, best, probe, by_etld}
use roxy.Upstream.Peers.Best.{HasLatencies}

module _ {C : Type 0} where
  unfoldable pub alive_at : List (Server C) → ℕ → Option Bool
  alive_at ss i = get_elem? ss i >>= alive

  abbrev pub NoneAlive : List (Server C) → Type 0
  NoneAlive ss = (k : ℕ) (b : Bool) → alive_at ss k ≡ some b → b ≡ false

  -- The index of a living server; or 0, where no server is living.
  pub record IsPick (ss : List (Server C)) (i : ℕ) : Type 0 where
    pub inside : i < length ss
    pub living : (alive_at ss i ≡ some true) ⊎ ((i ≡ 0) × NoneAlive ss)

  alive-some : (s : Server C) {l : ℕ} → latency s ≡ some l → alive s ≡ some (ltb 0 l)
  alive-some s e = alive-eq-latency s ∙ ap (Option.map (ltb 0)) e

  alive_at-some :
      (ss : List (Server C)) (i : ℕ)
      → HasLatencies ss
      → i < length ss
      → (s : Server C) × (get_elem? ss i ≡ some s) × (b : Bool) × (alive s ≡ some b)
  alive_at-some [] i h b = absurd (omega arith)
  alive_at-some (s ∷ ss) zero h b = (s, refl, ltb 0 h.0.0, alive-some s h.0.1)
  alive_at-some (s ∷ ss) (suc i) h b = alive_at-some ss i h.1 (omega arith)

  -- What the loop of `fallback` returns.
  data Scan (ss : List (Server C)) (i : ℕ) : Option ℕ → Type 0 where
    nothing : NoneAlive ss → Scan ss i none
    hit : (k j : ℕ) → k < length ss → j ≡ i + k → alive_at ss k ≡ some true → Scan ss i (some j)

  NoneAlive-cons :
      (s : Server C) (ss : List (Server C))
      → alive s ≡ some false
      → NoneAlive ss
      → NoneAlive (s ∷ ss)
  unfolding alive_at
  NoneAlive-cons s ss e h zero b g = cc
  NoneAlive-cons s ss e h (suc k) b g = h k b g

  Scan-cons :
      (s : Server C) (ss : List (Server C)) (i : ℕ) {o : Option ℕ}
      → alive s ≡ some false
      → Scan ss (i + 1) o
      → Scan (s ∷ ss) i o
  unfolding alive_at
  Scan-cons s ss i e (nothing h) = nothing (NoneAlive-cons s ss e h)
  Scan-cons s ss i e (hit k j b at a) = hit (suc k) j (omega arith) (omega arith) a

  first_alive-Scan :
      (ss : List (Server C)) (i : ℕ)
      → HasLatencies ss
      → (o : Option ℕ) × (first_alive ss i ≡ some o) × Scan ss i o
  unfolding first_alive
  first_alive-Scan [] i h = (none, refl, nothing (unfold alive_at in λ k b g. cc))
  first_alive-Scan (s ∷ ss) i h = elim (Bool-cases (ltb 0 h.0.0)) [
    | inl up ↦
        let e : alive s ≡ some true = alive-some s h.0.1 ∙ ap some up in
        (some i, rw (e, first_alive), hit 0 i (omega arith) (omega arith) (unfold alive_at in e))
    | inr down ↦
        let e : alive s ≡ some false = alive-some s h.0.1 ∙ ap some down in
        let (o, f, scan) = first_alive-Scan ss (i + 1) h.1 in
        (o, rw (e, first_alive) f, Scan-cons s ss i e scan)
  ]

  first-some : (ss : List (Server C)) → 0 < length ss → first ss ≡ some 0
  first-some [] h = absurd (omega arith)
  first-some (s ∷ ss) h = refl

  alive_at-eq :
      (ss : List (Server C)) (i : ℕ) (s : Server C) {b : Bool}
      → get_elem? ss i ≡ some s
      → alive s ≡ some b
      → alive_at ss i ≡ some b
  unfolding alive_at
  alive_at-eq ss i s g e = rw (g, e)

  module _ (p : Peers C) (h : HasLatencies p.servers) (nonempty : 0 < length p.servers) where
    fallback-Scan :
        (o : Option ℕ)
        → first_alive p.servers 0 ≡ some o
        → Scan p.servers 0 o
        → (i : ℕ) × (fallback p ≡ some i) × IsPick p.servers i
    unfolding fallback
    fallback-Scan none e (nothing dead) = (
      0,
      rw (e, first-some p.servers nonempty),
      record { inside = nonempty; living = inr (refl, dead) },
    )
    fallback-Scan (some j) e (hit k _ b at a) =
        let same : j ≡ k = omega arith in
        (j, rw e, record { inside = omega arith; living = inl (ap (alive_at p.servers) same ∙ a) })

    fallback-IsPick : (i : ℕ) × (fallback p ≡ some i) × IsPick p.servers i
    fallback-IsPick = let (o, e, scan) = first_alive-Scan p.servers 0 h in fallback-Scan o e scan

    -- On at least one server, all checked before, with the stored index in range, `best` does not
    -- panic, and it returns the index of a living server, or 0 where no server is living.
    pub best-IsPick : p.best < length p.servers → (i : ℕ) × (best p ≡ some i) × IsPick p.servers i
    unfolding best
    best-IsPick b =
        let (s, g, up, e) = alive_at-some p.servers p.best h b in
        elim (Bool-cases up) [
          | inl yes_up ↦
              let e' : alive s ≡ some true = e ∙ ap some yes_up in
              (
                p.best,
                rw (g, e'),
                record { inside = b; living = inl (alive_at-eq p.servers p.best s g e') },
              )
          | inr down ↦ let (i, f, pick) = fallback-IsPick in (i, rw (g, e ∙ ap some down) f, pick)
        ]

    module _ (f : F64) (ieee : IsIeee f) (few : length p.servers ≤ 2 ^ 31) where
      probe-IsPick :
          (rounds key : ℕ) → (i : ℕ) × (probe f rounds key p ≡ some i) × IsPick p.servers i
      unfolding probe
      probe-IsPick zero key = fallback-IsPick
      probe-IsPick (suc rounds) key =
          let (i, j, b) = jumphash-bucket f ieee key (length p.servers) nonempty few in
          let (s, g, up, e) = alive_at-some p.servers i h b in
          elim (Bool-cases up) [
            | inl yes_up ↦
                let e' : alive s ≡ some true = e ∙ ap some yes_up in
                (
                  i,
                  rw (j, g, e'),
                  record { inside = b; living = inl (alive_at-eq p.servers i s g e') },
                )
            | inr down ↦
                let (k, r, pick) = probe-IsPick rounds ((key + 1) % 2 ^ 64) in
                (k, rw (j, g, e ∙ ap some down) r, pick)
          ]

      -- On at least one and at most 2^31 servers, all checked before, and under IEEE 754 arithmetic,
      -- `by_etld` does not panic for any host, and it returns the index of a living server, or 0
      -- where no server is living.
      pub by_etld-IsPick :
          (etld : Bytes → Option Bytes) (host : Bytes)
          → (i : ℕ) × (by_etld f etld host p ≡ some i) × IsPick p.servers i
      unfolding by_etld
      by_etld-IsPick etld host = probe-IsPick 5 _
