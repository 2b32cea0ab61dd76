-- ===== src/Upstream/Peers/Best.antt =====
-- What a health check establishes: the index of the fastest living server.
use roxy.Base.{
  ℕ, zero, suc, ◌+◌, ◌≤◌, ◌<◌, ◌≡◌, refl, Option, some, List, [], ◌∷◌, arith, get_elem?, ltb, ◌==◌,
  Bool-cases, inl, inr, ◌⊎◌,
}
use roxy.Base.Options.{◌>>=◌}
use roxy.Upstream.Server.{Server, latency}
use roxy.Upstream.Peers.{choose}

module _ {C : Type 0} where
  -- Every server has a result in its history.
  abbrev pub HasLatencies : List (Server C) → Type 0
  HasLatencies [] = Unit
  HasLatencies (s ∷ ss) = ((l : ℕ) × (latency s ≡ some l)) × HasLatencies ss

  unfoldable pub latency_at : List (Server C) → ℕ → Option ℕ
  latency_at ss i = get_elem? ss i >>= latency

  -- No server is living and faster than `bound`: each latency is 0 or at least `bound`.
  abbrev pub NoneBelow : List (Server C) → ℕ → Type 0
  NoneBelow ss bound = (k l : ℕ) → latency_at ss k ≡ some l → (l ≡ 0) ⊎ (bound ≤ l)

  -- The server at `k` is living with latency `l`, none is faster, and those before it are slower.
  pub record IsFastest (ss : List (Server C)) (k l : ℕ) : Type 0 where
    pub here : latency_at ss k ≡ some l
    pub living : 0 < l
    pub lowest : NoneBelow ss l
    pub earliest : (j m : ℕ) → j < k → latency_at ss j ≡ some m → (m ≡ 0) ⊎ (l < m)

  -- What `choose` returns from index `i` on.
  pub data IsChoice (ss : List (Server C)) (i default bound : ℕ) : ℕ → Type 0 where
    kept : NoneBelow ss bound → IsChoice ss i default bound default
    found :
        (k l index : ℕ)
        → IsFastest ss k l
        → l < bound
        → index ≡ i + k
        → IsChoice ss i default bound index

  latency_at-zero : (s : Server C) (ss : List (Server C)) → latency_at (s ∷ ss) 0 ≡ latency s
  unfolding latency_at
  latency_at-zero s ss = refl

  latency_at-suc :
      (s : Server C) (ss : List (Server C)) (k : ℕ) → latency_at (s ∷ ss) (suc k) ≡ latency_at ss k
  unfolding latency_at
  latency_at-suc s ss k = refl

  module _ (s : Server C) (ss : List (Server C)) (l : ℕ) (e : latency s ≡ some l) where
    NoneBelow-cons :
        (bound : ℕ) → (l ≡ 0) ⊎ (bound ≤ l) → NoneBelow ss bound → NoneBelow (s ∷ ss) bound
    unfolding latency_at
    NoneBelow-cons bound h t zero m g = ground (arith, h)
    NoneBelow-cons bound h t (suc k) m g = t k m g

    IsFastest-cons : (k m : ℕ) → (l ≡ 0) ⊎ (m < l) → IsFastest ss k m → IsFastest (s ∷ ss) (suc k) m
    unfolding latency_at
    IsFastest-cons k m h f = record {
      here = f.here;
      living = f.living;
      lowest = NoneBelow-cons m (ground (arith, h)) f.lowest;
      earliest = before;
    }
      where
        before : (j n : ℕ) → j < suc k → latency_at (s ∷ ss) j ≡ some n → (n ≡ 0) ⊎ (m < n)
        before zero n _ g = ground (arith, h)
        before (suc j) n b g = f.earliest j n (omega arith) g

    IsFastest-head : 0 < l → NoneBelow ss l → IsFastest (s ∷ ss) 0 l
    unfolding latency_at
    IsFastest-head pos t = record {
      here = e;
      living = pos;
      lowest = NoneBelow-cons l (inr (omega arith)) t;
      earliest = λ j m b _. absurd (omega arith);
    }

    skip :
        {i default bound index : ℕ}
        → (l ≡ 0) ⊎ (bound ≤ l)
        → IsChoice ss (i + 1) default bound index
        → IsChoice (s ∷ ss) i default bound index
    skip {bound = b} h (kept t) = kept (NoneBelow-cons b h t)
    skip h (found k m index f b at) =
        found (suc k) m index (IsFastest-cons k m (ground (arith, h)) f) b (omega arith)

    take_head :
        {i default bound index : ℕ}
        → 0 < l
        → l < bound
        → IsChoice ss (i + 1) i l index
        → IsChoice (s ∷ ss) i default bound index
    take_head {i} pos b (kept t) = found 0 l i (IsFastest-head pos t) b (omega arith)
    take_head pos b (found k m index f c at) =
        found (suc k) m index (IsFastest-cons k m (inr c) f) (omega arith) (omega arith)

  pub choose-IsChoice :
      (ss : List (Server C)) (i default bound : ℕ)
      → HasLatencies ss
      → (index : ℕ) × (choose ss i default bound ≡ some index) × IsChoice ss i default bound index
  unfolding choose
  choose-IsChoice [] i default bound h = (default, refl, kept (unfold latency_at in λ k l g. cc))
  choose-IsChoice (s ∷ ss) i default bound h = elim (Bool-cases (l == 0)) [
    | inl dead ↦
        let (index, e, c) = choose-IsChoice ss (i + 1) default bound h.1 in
        (index, rw (h.0.1, dead) e, skip s ss l h.0.1 (inl (ground arith)) c)
    | inr living ↦ elim (Bool-cases (ltb l bound)) [
      | inl better ↦
          let (index, e, c) = choose-IsChoice ss (i + 1) i l h.1 in
          (
            index,
            rw (h.0.1, living, better) e,
            take_head s ss l h.0.1 (ground arith) (ground arith) c,
          )
      | inr worse ↦
          let (index, e, c) = choose-IsChoice ss (i + 1) default bound h.1 in
          (index, rw (h.0.1, living, worse) e, skip s ss l h.0.1 (inr (ground arith)) c)
    ]
  ]
    where
      l : ℕ
      l = h.0.0
