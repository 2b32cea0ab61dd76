-- ===== src/Upstream/Server/History.antt =====
-- The history of a server is the last ten results that were pushed.
use roxy.Base.{
  ℕ, zero, suc, ◌-◌, ◌≤◌, ◌≡◌, refl, sym, ap, ◌∙◌, some, List, [], ◌∷◌, ◌++◌, append_assoc,
  append-nil, arith, length, drop, length-append, length-drop, ltb, ◌==◌, if◌then◌else◌,
}
use mathlib.Core.Option
use roxy.Upstream.Server.{Latency, Server, max_history, back, new, latency, alive, push_latency}

pub back-append {ℓ} : {A : Type ℓ} (xs : List A) (x : A) → back (xs ++ (x ∷ [])) ≡ some x
back-append [] x = refl
back-append (y ∷ []) x = refl
back-append (y ∷ z ∷ xs) x = back-append (z ∷ xs) x

abbrev last_results {ℓ} : {A : Type ℓ} → List A → List A
last_results xs = drop (length xs - max_history) xs

module _ {C : Type 0} where
  -- Results pushed one after the other.
  pub push_all : List Latency → Server C → Server C
  push_all [] s = s
  push_all (l ∷ ls) s = push_all ls (push_latency l.timestamp l.value s)

  pub latency-push_latency :
      (now value : ℕ) (s : Server C) → latency (push_latency now value s) ≡ some value
  unfolding latency push_latency
  latency-push_latency now value s = rw back-append

  pub alive-push_latency :
      (now value : ℕ) (s : Server C) → alive (push_latency now value s) ≡ some (ltb 0 value)
  unfolding alive push_latency
  alive-push_latency now value s = rw back-append

  -- `alive` is a positive latency, and both panic on the same servers.
  pub alive-eq-latency : (s : Server C) → alive s ≡ Option.map (ltb 0) (latency s)
  unfolding alive latency
  alive-eq-latency s = ground arith

drop-append {ℓ} :
    {A : Type ℓ} (n : ℕ) (xs ys : List A) → n ≤ length xs → drop n (xs ++ ys) ≡ drop n xs ++ ys
drop-append zero xs ys h = refl
drop-append (suc n) [] ys h = absurd (omega arith)
drop-append (suc n) (x ∷ xs) ys h = drop-append n xs ys (omega arith)

drop-drop_one {ℓ} : {A : Type ℓ} (n : ℕ) (xs : List A) → drop 1 (drop n xs) ≡ drop (suc n) xs
drop-drop_one zero xs = refl
drop-drop_one (suc n) [] = refl
drop-drop_one (suc n) (x ∷ xs) = drop-drop_one n xs

-- One push onto the last ten of `xs` gives the last ten of the longer list.
push_last :
    {A : Type 0} (xs : List A) (x : A)
    → (if length (last_results xs) == max_history
          then drop 1 (last_results xs)
          else last_results xs)
        ++ (x ∷ [])
      ≡ last_results (xs ++ (x ∷ []))
push_last xs x = ground (
  arith,
  length-append xs (x ∷ []),
  length-drop (length xs - max_history) xs,
  drop-drop_one (length xs - max_history) xs,
  drop-append (suc (length xs - max_history)) xs (x ∷ []),
  drop-append (length xs - max_history) xs (x ∷ []),
)

module _ {C : Type 0} where
  push_all-last :
      (past ls : List Latency) (s : Server C)
      → s.latencies ≡ last_results past
      → (push_all ls s).latencies ≡ last_results (past ++ ls)
  unfolding push_all push_latency
  push_all-last past [] s h = h ∙ ap last_results (sym (append-nil past))
  push_all-last past (l ∷ ls) s h =
      push_all-last (past ++ (l ∷ [])) ls (push_latency l.timestamp l.value s)
        (rw h (push_last past l))
      ∙ ap last_results (append_assoc past (l ∷ []) ls)

  -- After any pushes onto a new server its history is the last ten results pushed, oldest first, so
  -- it never holds more than `max_history`.
  pub latencies-push_all :
      (config : C) (ls : List Latency)
      → ((push_all ls (new config)).latencies ≡ drop (length ls - max_history) ls)
        × (length (push_all ls (new config)).latencies ≤ max_history)
  unfolding new
  latencies-push_all config ls =
      let kept = push_all-last [] ls (new config) refl in
      (kept, rw kept (omega (arith, length-drop (length ls - max_history) ls)))
