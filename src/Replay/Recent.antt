-- ===== src/Replay/Recent.antt =====
-- A nonce that was set is still known after as many others as a filter holds.
use roxy.Base.{
  ℕ, suc, ◌+◌, ◌≤◌, ◌≡◌, ◌⊎◌, inl, inr, refl, Bool, true, false, Bool-cases, ◌||◌, List, [], ◌∷◌,
  length, leb, arith,
}
use roxy.Base.Bytes.{Bytes}
use roxy.Replay.{Bloom, Side, zeroth, first, other, PingPongBloom, turn, set_current, check_and_set}

-- What a Bloom filter gives: what was set is found, and stays so until it is cleared.
pub record NoFalseNegatives {B : Type 0} (f : Bloom B) : Type 0 where
  pub check_set : (b : B) (x : Bytes) → f.check (f.set b x) x ≡ true
  pub kept : (b : B) (x y : Bytes) → f.check b x ≡ true → f.check (f.set b y) x ≡ true

or_right : (a b : Bool) → b ≡ true → (a || b) ≡ true
or_right true b h = refl
or_right false b h = h

module _ {B : Type 0} (f : Bloom B) where
  -- The filters after a sequence of nonces.
  unfoldable pub after : List Bytes → PingPongBloom B → PingPongBloom B
  after [] p = p
  after (y ∷ ys) p = after ys (check_and_set f y p).1

module _ {B : Type 0} (f : Bloom B) (sound : NoFalseNegatives f) (x : Bytes) where
  -- `x` is in the filter of the side `s`, or in the other one, and that of `s` has room for `n` more.
  abbrev HeldAt : PingPongBloom B → ℕ → Side → Type 0
  HeldAt p n s =
      (f.check (p.blooms s) x ≡ true)
      ⊎ ((f.check (p.blooms (other s)) x ≡ true) × (p.bloom_count s + n ≤ p.item_count))

  abbrev Held : PingPongBloom B → ℕ → Type 0
  Held p n = HeldAt p n p.current

  Held-found : (p : PingPongBloom B) (n : ℕ) → Held p n → (check_and_set f x p).0 ≡ true
  unfolding check_and_set
  Held-found p n h = rw (known p.current h, check_and_set) refl
    where
      known :
          (s : Side)
          → HeldAt p n s
          → (f.check (p.blooms zeroth) x || f.check (p.blooms first) x) ≡ true
      known zeroth (inl e) = rw e refl
      known zeroth (inr (e, _)) =
          or_right (f.check (p.blooms zeroth) x) (f.check (p.blooms first) x) e
      known first (inl e) = or_right (f.check (p.blooms zeroth) x) (f.check (p.blooms first) x) e
      known first (inr (e, _)) = rw e refl

  Held-set :
      (s : Side) (p : PingPongBloom B) (y : Bytes) (n : ℕ)
      → HeldAt p (suc n) s
      → Held (set_current f y (record p { current = s })) n
  Held-set zeroth p y n (inl e) = inl (sound.kept (p.blooms zeroth) x y e)
  Held-set zeroth p y n (inr (e, room)) = inr (e, omega (arith, room))
  Held-set first p y n (inl e) = inl (sound.kept (p.blooms first) x y e)
  Held-set first p y n (inr (e, room)) = inr (e, omega (arith, room))

  Held-turned :
      (s : Side) (p : PingPongBloom B) (y : Bytes) (n : ℕ)
      → HeldAt p (suc n) s
      → p.item_count ≤ p.bloom_count s
      → suc n ≤ p.item_count
      → Held (set_current f y (turn f (record p { current = s }))) n
  Held-turned zeroth p y n (inl e) is_full few = inr (e, omega (arith, few))
  Held-turned first p y n (inl e) is_full few = inr (e, omega (arith, few))
  Held-turned s p y n (inr (e, room)) is_full few = absurd (omega (arith, room, is_full))

  Held-step :
      (p : PingPongBloom B) (y : Bytes) (n : ℕ)
      → Held p (suc n)
      → suc n ≤ p.item_count
      → Held (check_and_set f y p).1 n × ((check_and_set f y p).1.item_count ≡ p.item_count)
  unfolding check_and_set
  Held-step p y n h few =
      elim (Bool-cases (f.check (p.blooms zeroth) y || f.check (p.blooms first) y)) [
        | inl seen ↦ rw (seen, check_and_set) (weaker h, refl)
        | inr unseen ↦ elim (Bool-cases (leb p.item_count (p.bloom_count p.current))) [
          | inl is_full ↦
              rw (unseen, check_and_set, is_full)
                (Held-turned p.current p y n h (ground arith) few, refl)
          | inr room ↦ rw (unseen, check_and_set, room) (Held-set p.current p y n h, refl)
        ]
      ]
    where
      weaker : Held p (suc n) → Held p n
      weaker (inl e) = inl e
      weaker (inr (e, k)) = inr (e, omega (arith, k))

  Held-after :
      (ys : List Bytes) (p : PingPongBloom B)
      → Held p (length ys)
      → length ys ≤ p.item_count
      → (check_and_set f x (after f ys p)).0 ≡ true
  unfolding after
  Held-after [] p h few = Held-found p 0 h
  Held-after (y ∷ ys) p h few =
      let (h', same) = Held-step p y (length ys) h few in
      Held-after ys (check_and_set f y p).1 h' (omega (arith, few, same))

  set-in :
      (s : Side) (p : PingPongBloom B)
      → f.check ((set_current f x (record p { current = s })).blooms s) x ≡ true
  set-in zeroth p = sound.check_set (p.blooms zeroth) x
  set-in first p = sound.check_set (p.blooms first) x

  Held-new :
      (p : PingPongBloom B) (n : ℕ)
      → (check_and_set f x p).0 ≡ false
      → Held (check_and_set f x p).1 n × ((check_and_set f x p).1.item_count ≡ p.item_count)
  unfolding check_and_set
  Held-new p n is_new =
      elim (Bool-cases (f.check (p.blooms zeroth) x || f.check (p.blooms first) x)) [
        | inl seen ↦ (let bad : true ≡ false = rw (seen, check_and_set) at is_new in cc)
        | inr unseen ↦ elim (Bool-cases (leb p.item_count (p.bloom_count p.current))) [
          | inl is_full ↦
              rw (unseen, check_and_set, is_full) (inl (set-in (other p.current) (turn f p)), refl)
          | inr room ↦ rw (unseen, check_and_set, room) (inl (set-in p.current p), refl)
        ]
      ]

  -- A nonce that is new is reported as known when it comes again after any `item_count` others or
  -- fewer, whatever they are.
  pub check_and_set-again :
      (p : PingPongBloom B) (ys : List Bytes)
      → (check_and_set f x p).0 ≡ false
      → length ys ≤ p.item_count
      → (check_and_set f x (after f ys (check_and_set f x p).1)).0 ≡ true
  check_and_set-again p ys is_new few =
      let (held, same) = Held-new p (length ys) is_new in
      Held-after ys (check_and_set f x p).1 held (omega (arith, few, same))
