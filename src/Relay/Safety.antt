-- ===== src/Relay/Safety.antt =====
-- A connection is served by the first attempt that is not refused.
use roxy.Base.{
  ℕ, zero, suc, ◌+◌, ◌^◌, ◌≤◌, ◌<◌, ◌≡◌, refl, Bool, true, false, Option, none, some, length, inl,
  inr, arith, ◌⊎◌, Bool-cases, get_elem?-some, set, length-set, ap, ◌∙◌,
}
use roxy.Base.Bytes.{Bytes}
use roxy.Socks5.{ErrorKind}
use roxy.Sniff.{done}
use roxy.Upstream.Server.{Server, push_latency}
use roxy.Upstream.Hash.{F64}
use roxy.Upstream.Hash.Jump.{IsIeee}
use roxy.Upstream.Peers.Check.{IsReady}
use roxy.Upstream.Service.{Upstream, pick, push_at, Reach, here, next, pushed}
use roxy.Upstream.Service.Safety.{Reach-IsReady, pick-IsPick}
use roxy.Relay.{
  Reply, refused, closed, broken, panicked, Turn, Served, served, not_connected, report, attempts,
  connection,
}

abbrev pub is_refused : Reply → Bool
is_refused (refused e) = true
is_refused closed = false
is_refused (broken e) = false
is_refused panicked = false

-- What the task returns after an attempt that was not refused.
abbrev pub after_reply : {C : Type 0} → Reply → Upstream C → Option (Served × Upstream C)
after_reply (refused e) v = some (served, v)
after_reply closed v = some (served, v)
after_reply (broken e) v = some (served, v)
after_reply panicked v = none

-- The other tasks only do what they do, keep the servers few, and keep their number unless they
-- replace them.
pub record IsFair {C : Type 0} (t : Turn C) : Type 0 where
  pub before_steps : (u : Upstream C) → Reach u (t.before u)
  pub during_steps : (u : Upstream C) → Reach u (t.during u)
  pub before_few :
      (u : Upstream C)
      → length u.peers.servers ≤ 2 ^ 31
      → length (t.before u).peers.servers ≤ 2 ^ 31
  pub during_few :
      (u : Upstream C)
      → length u.peers.servers ≤ 2 ^ 31
      → length (t.during u).peers.servers ≤ 2 ^ 31
  pub kept :
      (u : Upstream C) → t.lost ≡ false → length (t.during u).peers.servers ≡ length u.peers.servers

Reply-cases :
    (r : Reply)
    → ((e : ErrorKind) × (r ≡ refused e))
      ⊎ ((r ≡ closed) ⊎ (((e : ErrorKind) × (r ≡ broken e)) ⊎ (r ≡ panicked)))
Reply-cases (refused e) = inl (e, refl)
Reply-cases closed = inr (inl refl)
Reply-cases (broken e) = inr (inr (inl (e, refl)))
Reply-cases panicked = inr (inr (inr refl))

module _ {C : Type 0} where
  -- The first `n` attempts from `i` on are all refused.
  abbrev AllRefused : (ℕ → Turn C) → ℕ → ℕ → Type 0
  AllRefused turns n i = (j : ℕ) → j < n → is_refused (turns (i + j)).reply ≡ true

  AllRefused-cons :
      (turns : ℕ → Turn C) (n i : ℕ)
      → is_refused (turns i).reply ≡ true
      → AllRefused turns n (suc i)
      → AllRefused turns (suc n) i
  AllRefused-cons turns n i first later zero h = let e : i + 0 ≡ i = omega arith in rw e first
  AllRefused-cons turns n i first later (suc j) h =
      let e : i + suc j ≡ suc i + j = omega arith in rw e (later j (omega arith))

  Reach-trans : {u v w : Upstream C} → Reach u v → Reach v w → Reach u w
  Reach-trans r here = r
  Reach-trans r (next s t) = next (Reach-trans r s) t

  report-Reach :
      (t : Turn C) (k : ℕ) (u : Upstream C)
      → (t.lost ≡ false → k < length u.peers.servers)
      → (v : Upstream C) × (report t k u ≡ some v)
        × Reach u v
        × (length u.peers.servers ≤ 2 ^ 31 → length v.peers.servers ≤ 2 ^ 31)
  unfolding report push_at
  report-Reach t k u h = elim (Bool-cases t.lost) [
    | inl gone ↦ (u, rw (gone, report) refl, here, λ few. few)
    | inr kept ↦
        let (s, e) = get_elem?-some u.peers.servers k (h kept) in
        let pushes : push_at k t.now 0 u ≡ some (pushed_state s) = rw e refl in
        (
          pushed_state s,
          rw (kept, report, e) refl,
          next here (pushed k t.now 0 pushes),
          λ few. omega (arith, few, length-set u.peers.servers k (push_latency t.now 0 s)),
        )
  ]
    where
      pushed_state : Server C → Upstream C
      pushed_state s = record u {
        peers = record u.peers { servers = set u.peers.servers k (push_latency t.now 0 s) };
      }

  module _ (f : F64) (ieee : IsIeee f) (suffix : Bytes → Option Bytes) (host : Bytes)
      (turns : ℕ → Turn C) where
    -- How `n` attempts from `i` on end.
    Ended : ℕ → ℕ → Upstream C → Type 0
    Ended n i u =
        (v : Upstream C) × Reach u v
        × (((attempts f suffix turns n i host u ≡ some (not_connected, v)) × AllRefused turns n i)
            ⊎ ((j : ℕ) × (j < n)
                × (attempts f suffix turns n i host u ≡ after_reply (turns (i + j)).reply v)
                × (is_refused (turns (i + j)).reply ≡ false)
                × AllRefused turns j i))

    attempts-refused :
        (n i : ℕ) (u : Upstream C) (k : ℕ) (w : Upstream C) (e : ErrorKind)
        → pick f suffix host ((turns i).before u) ≡ some k
        → (turns i).reply ≡ refused e
        → report (turns i) k ((turns i).during ((turns i).before u)) ≡ some w
        → attempts f suffix turns (suc n) i host u ≡ attempts f suffix turns n (suc i) host w
    unfolding attempts
    attempts-refused n i u k w e picked q reported = simp (picked, q, attempts, reported)

    attempts-closed :
        (n i : ℕ) (u : Upstream C) (k : ℕ)
        → pick f suffix host ((turns i).before u) ≡ some k
        → (turns i).reply ≡ closed
        → attempts f suffix turns (suc n) i host u
          ≡ some (served, (turns i).during ((turns i).before u))
    unfolding attempts
    attempts-closed n i u k picked q = simp (picked, q, attempts)

    attempts-broken :
        (n i : ℕ) (u : Upstream C) (k : ℕ) (w : Upstream C) (e : ErrorKind)
        → pick f suffix host ((turns i).before u) ≡ some k
        → (turns i).reply ≡ broken e
        → report (turns i) k ((turns i).during ((turns i).before u)) ≡ some w
        → attempts f suffix turns (suc n) i host u ≡ some (served, w)
    unfolding attempts
    attempts-broken n i u k w e picked q reported = simp (picked, q, attempts, reported)

    attempts-panicked :
        (n i : ℕ) (u : Upstream C) (k : ℕ)
        → pick f suffix host ((turns i).before u) ≡ some k
        → (turns i).reply ≡ panicked
        → attempts f suffix turns (suc n) i host u ≡ none
    unfolding attempts
    attempts-panicked n i u k picked q = simp (picked, q, attempts)

    attempts-Ended :
        (fair : (i : ℕ) → IsFair (turns i)) (n i : ℕ) (u : Upstream C)
        → IsReady u.peers
        → length u.peers.servers ≤ 2 ^ 31
        → Ended n i u
    unfolding Ended
    attempts-Ended fair zero i u ready few =
        (u, here, inl ((unfold attempts in refl), λ j h. absurd (omega arith)))
    attempts-Ended fair (suc n) i u ready few =
        let t = turns i in
        let u1 = t.before u in
        let r1 = (fair i).before_steps u in
        let few1 = (fair i).before_few u few in
        let (k, picked, pick_ok) =
          pick-IsPick f ieee suffix host u1 (Reach-IsReady r1 ready) few1 in
        let u2 = t.during u1 in
        let r2 = Reach-trans r1 ((fair i).during_steps u1) in
        let few2 = (fair i).during_few u1 few1 in
        let (w, reported, r3, few3) =
          report-Reach t k u2 (λ kept. omega (arith, (fair i).kept u1 kept, pick_ok.inside)) in
        elim (Reply-cases t.reply) [
          | inl (e, q) ↦
              let (v, r4, how) =
                attempts-Ended fair n (suc i) w (Reach-IsReady (Reach-trans r2 r3) ready)
                  (few3 few2) in
              let refusal : is_refused t.reply ≡ true = rw q refl in
              elim how [
                | inl (ends, all) ↦ (
                  v,
                  Reach-trans (Reach-trans r2 r3) r4,
                  inl (
                    attempts-refused n i u k w e picked q reported ∙ ends,
                    AllRefused-cons turns n i refusal all,
                  ),
                )
                | inr found ↦
                    let (j, inside, ends, accepted, all) = found in
                    let shift : i + suc j ≡ suc i + j = omega arith in
                    (
                      v,
                      Reach-trans (Reach-trans r2 r3) r4,
                      inr (
                        suc j,
                        omega arith,
                        attempts-refused n i u k w e picked q reported ∙ (rw shift ends),
                        rw shift accepted,
                        AllRefused-cons turns j i refusal all,
                      ),
                    )
              ]
          | inr (inl q) ↦ (
            u2,
            r2,
            inr (
              0,
              omega arith,
              attempts-closed n i u k picked q ∙ first_reply closed u2 q,
              at_first (ap is_refused q),
              λ j h. absurd (omega arith),
            ),
          )
          | inr (inr (inl (e, q))) ↦ (
            w,
            Reach-trans r2 r3,
            inr (
              0,
              omega arith,
              attempts-broken n i u k w e picked q reported ∙ first_reply (broken e) w q,
              at_first (ap is_refused q),
              λ j h. absurd (omega arith),
            ),
          )
          | inr (inr (inr q)) ↦ (
            u2,
            r2,
            inr (
              0,
              omega arith,
              attempts-panicked n i u k picked q ∙ first_reply panicked u2 q,
              at_first (ap is_refused q),
              λ j h. absurd (omega arith),
            ),
          )
        ]
      where
        first_reply :
            (r : Reply) (v : Upstream C)
            → (turns i).reply ≡ r
            → after_reply r v ≡ after_reply (turns (i + 0)).reply v
        first_reply r v q = let e : i + 0 ≡ i = omega arith in rw (e, q) refl

        at_first : is_refused (turns i).reply ≡ false → is_refused (turns (i + 0)).reply ≡ false
        at_first h = let e : i + 0 ≡ i = omega arith in rw e h

    -- In a state fit for a choice, with at most 2^31 servers, whatever the other tasks do in between
    -- and under IEEE 754 arithmetic, a sniffed connection ends in one of three ways: all five attempts
    -- are refused and it ends as not connected, or the first of the five that is not refused serves
    -- it, or that attempt panics in opening or using its own connection. So the choices of a server
    -- and the reports of failures do not panic.
    pub connection_serves :
        ((i : ℕ) → IsFair (turns i))
        → (port : ℕ) (u : Upstream C) → IsReady u.peers
        → length u.peers.servers ≤ 2 ^ 31
        → (v : Upstream C) × Reach u v
          × (((connection f suffix turns (done (host, port)) u ≡ some (not_connected, v))
                × AllRefused turns 5 0)
              ⊎ ((j : ℕ) × (j < 5)
                  × (connection f suffix turns (done (host, port)) u
                      ≡ after_reply (turns j).reply v)
                  × (is_refused (turns j).reply ≡ false)
                  × AllRefused turns j 0))
    unfolding connection Ended
    connection_serves fair port u ready few =
        let (v, r, how) = attempts-Ended fair 5 0 u ready few in
        elim how [
          | inl never ↦ (v, r, inl never)
          | inr (j, inside, ends, accepted, all) ↦
              let e : 0 + j ≡ j = omega arith in
              (
                v,
                r,
                inr (
                  j,
                  inside,
                  ends ∙ ap (λ k. after_reply (turns k).reply v) e,
                  rw e at accepted,
                  all,
                ),
              )
        ]
