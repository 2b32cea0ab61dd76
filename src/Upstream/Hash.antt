-- ===== src/Upstream/Hash.antt =====
-- src/upstream/hash.rs: FNV over 64 bits, and the jump consistent hash.
pub mod Jump
use Prim.Native.Nat.{bit_xor}
use roxy.Base.{
  ℕ, zero, suc, ◌+◌, ◌*◌, ◌/◌, ◌%◌, ◌^◌, Bool, true, false, Option, none, some, List, [], ◌∷◌, ◌-◌,
  ltb, if◌then◌else◌,
}
use mathlib.Core.Option
use roxy.Base.Bytes.{Bytes}
use roxy.Base.Int.{ℤ, pos, negsuc}

abbrev fnv_from : ℕ → Bytes → ℕ
fnv_from hash [] = hash
fnv_from hash (b ∷ bs) = fnv_from (bit_xor hash b * 0x100000001b3 % 2 ^ 64) bs

unfoldable pub fnv : Bytes → ℕ
fnv bytes = fnv_from 0 bytes

-- The operations of `f64` that `jumphash` uses; `to_i64` is `as i64` of a value that is not
-- negative.
pub record F64 : Type 1 where
  pub Float : Type 0
  pub of_int : ℕ → Float
  pub mul : Float → Float → Float
  pub div : Float → Float → Float
  pub to_i64 : Float → ℕ

-- The number that the 32-bit pattern `w` stands for.
abbrev signed32 : ℕ → ℤ
signed32 w = if ltb w (2 ^ 31) then pos w else negsuc (2 ^ 32 - w - 1)

-- `b as i32`: the low 32 bits, as a signed number.
abbrev pub as_i32 : ℤ → ℤ
as_i32 (pos n) = signed32 (n % 2 ^ 32)
as_i32 (negsuc n) = signed32 (2 ^ 32 - 1 - n % 2 ^ 32)

module _ (f : F64) where
  open f use {of_int, mul, div, to_i64}

  -- `((b + 1) as f64 * ((1 << 31) as f64 / ((key >> 33) + 1) as f64)) as i64` at `b ≥ 0`
  unfoldable pub jump : ℕ → ℕ → ℕ
  jump b key = to_i64 (mul (of_int (b + 1)) (div (of_int (2 ^ 31)) (of_int (key / 2 ^ 33 + 1))))

  -- The loop, on fuel; `none` means that the fuel ran out.
  unfoldable pub jump_loop : ℕ → ℕ → ℤ → ℕ → ℕ → Option ℤ
  unfolding jump
  jump_loop zero buckets b j key = none
  jump_loop (suc fuel) buckets b j key = elim (ltb j buckets) [
    | false ↦ some b
    | true ↦
        let key' = (key * 2862933555777941757 + 1) % 2 ^ 64 in
        jump_loop fuel buckets (pos j) (jump j key') key'
  ]

  -- Each round raises `j`, so one round for each bucket and one for the last test are enough.
  unfoldable pub jumphash : ℕ → ℕ → Option ℤ
  unfolding jump_loop
  jumphash key buckets = Option.map as_i32 (jump_loop (suc buckets) buckets (negsuc 0) 0 key)
