-- ===== src/Upstream/Hash/Jump.antt =====
-- `jumphash` ends, and its result is a bucket.
use roxy.Base.{
  ℕ, zero, suc, ◌+◌, ◌*◌, ◌/◌, ◌%◌, ◌^◌, ◌≤◌, ◌<◌, ◌≡◌, ap, ◌∙◌, true, false, some, arith, ltb,
  Bool-cases, inl, inr,
}
use roxy.Base.Int.{ℤ, pos, negsuc}
use roxy.Upstream.Hash.{F64, jump, jump_loop, jumphash, as_i32}

-- What IEEE 754 gives on the values that occur: integers up to 2^53 are exact, a quotient of a
-- number by one that is not larger is at least 1, multiplying by such a factor does not decrease,
-- and truncation is monotone.
pub record IsIeee (f : F64) : Type 1 where
  pub Le : F64.Float f → F64.Float f → Type 0
  pub exact : (n : ℕ) → n ≤ 2 ^ 53 → f.to_i64 (f.of_int n) ≡ n
  pub truncate_mono : (x y : f.Float) → Le x y → f.to_i64 x ≤ f.to_i64 y
  pub one-le-div :
      (a b : ℕ) → 0 < b → b ≤ a → a ≤ 2 ^ 53 → Le (f.of_int 1) (f.div (f.of_int a) (f.of_int b))
  pub le-mul : (x y : f.Float) → Le (f.of_int 1) y → Le x (f.mul x y)

as_i32_small : (i : ℕ) → i < 2 ^ 31 → as_i32 (pos i) ≡ pos i
as_i32_small i h = ground arith

module _ (f : F64) (ieee : IsIeee f) where
  jump_grows : (b key : ℕ) → b < 2 ^ 53 → key < 2 ^ 64 → b < jump f b key
  unfolding jump
  jump_grows b key hb hk = omega (
    arith,
    ieee.exact (b + 1) (omega arith),
    ieee.truncate_mono (f.of_int (b + 1)) (f.mul (f.of_int (b + 1)) _) (
        ieee.le-mul (f.of_int (b + 1)) (f.div (f.of_int (2 ^ 31)) (f.of_int (key / 2 ^ 33 + 1)))
          (ieee.one-le-div (2 ^ 31) (key / 2 ^ 33 + 1) (omega arith) (omega arith) (omega arith))),
  )

  abbrev next_key : ℕ → ℕ
  next_key key = (key * 2862933555777941757 + 1) % 2 ^ 64

  jump_loop-more :
      (fuel buckets : ℕ) (b : ℤ) (j key : ℕ)
      → ltb j buckets ≡ true
      → jump_loop f (suc fuel) buckets b j key
        ≡ jump_loop f fuel buckets (pos j) (jump f j (next_key key)) (next_key key)
  unfolding jump_loop
  jump_loop-more fuel buckets b j key h = rw (h, jump_loop)

  jump_loop-done :
      (fuel buckets : ℕ) (b : ℤ) (j key : ℕ)
      → ltb j buckets ≡ false
      → jump_loop f (suc fuel) buckets b j key ≡ some b
  unfolding jump_loop
  jump_loop-done fuel buckets b j key h = rw (h, jump_loop)

  jump_loop-bucket :
      (fuel buckets : ℕ) (b : ℤ) (j key : ℕ)
      → buckets ≤ 2 ^ 53
      → buckets < fuel + j
      → ltb j buckets ≡ true
      → (i : ℕ) × (jump_loop f fuel buckets b j key ≡ some (pos i)) × (i < buckets)
  jump_loop-bucket zero buckets b j key small enough h = absurd (ground arith)
  jump_loop-bucket (suc zero) buckets b j key small enough h = absurd (ground arith)
  jump_loop-bucket (suc (suc fuel)) buckets b j key small enough h =
      elim (Bool-cases (ltb next buckets)) [
        | inl more ↦
            let (i, e, below) =
              jump_loop-bucket (suc fuel) buckets (pos j) next (next_key key) small
                (omega (arith, grows)) more in
            (i, jump_loop-more (suc fuel) buckets b j key h ∙ e, below)
        | inr done ↦ (
          j,
          jump_loop-more (suc fuel) buckets b j key h
              ∙ jump_loop-done fuel buckets (pos j) next (next_key key) done,
          ground arith,
        )
      ]
    where
      next : ℕ
      next = jump f j (next_key key)

      grows : j < next
      grows = jump_grows j (next_key key) (ground arith) (omega arith)

  -- Under IEEE 754 arithmetic, for at least one bucket and at most 2^31, the loop of `jumphash` ends
  -- within the fuel, and the result is the index of a bucket.
  pub jumphash-bucket :
      (key buckets : ℕ)
      → 0 < buckets
      → buckets ≤ 2 ^ 31
      → (i : ℕ) × (jumphash f key buckets ≡ some (pos i)) × (i < buckets)
  unfolding jumphash
  jumphash-bucket key buckets nonempty small =
      let (i, e, below) =
        jump_loop-bucket (suc buckets) buckets (negsuc 0) 0 key (omega arith) (omega arith)
          (ground arith) in
      (i, rw e (ap some (as_i32_small i (omega arith))), below)
