-- ===== src/Crypto/Nonce.antt =====
-- The nonce counts the messages, so it does not repeat.
use mathlib.Core.Path.{ap₂}
use native.Mathlib.Nat.{mod-eq_of_lt, add-mul-mod_self_right, mod-add-mod, add-zero}
use roxy.Base.{
  ℕ, zero, suc, ◌+◌, ◌*◌, ◌/◌, ◌%◌, ◌^◌, ◌≤◌, ◌<◌, ◌≡◌, refl, sym, ap, ◌∙◌, [], ◌∷◌, arith, length,
  take, replicate,
}
use roxy.Base.Bytes.{Bytes, IsBytes}
use roxy.Crypto.{carry, increase, n_max}

-- The number that the first `n` bytes hold, least significant first.
pub little_endian : ℕ → Bytes → ℕ
little_endian zero bs = 0
little_endian (suc n) [] = 0
little_endian (suc n) (b ∷ bs) = b + 256 * little_endian n bs

-- 256 ^ n, by doublings of the exponent's unary form.
pub modulus : ℕ → ℕ
modulus zero = 1
modulus (suc n) = 256 * modulus n

little_endian-lt : (n : ℕ) (bs : Bytes) → IsBytes bs → little_endian n bs < modulus n
unfolding little_endian modulus
little_endian-lt zero bs w = omega arith
little_endian-lt (suc n) [] w = omega (arith, little_endian-lt n [] tt)
little_endian-lt (suc n) (b ∷ bs) w = omega (arith, little_endian-lt n bs w.1)

-- The loop adds its carry, and what runs over the last byte is lost.
carry-adds :
    (n c : ℕ) (bs : Bytes)
    → n ≤ length bs
    → IsBytes bs
    → c < 256
    → (k : ℕ) × (little_endian n (carry n c bs) + k * modulus n ≡ little_endian n bs + c)
unfolding little_endian carry modulus
carry-adds zero c bs h w b = (c, omega arith)
carry-adds (suc n) c [] h w b = absurd (omega arith)
carry-adds (suc n) c (x ∷ bs) h w b =
    let (k, e) = carry-adds n ((c + x) / 256) bs (omega arith) w.1 (omega arith) in
    (k, omega (arith, e))

IsBytes-carry : (n c : ℕ) (bs : Bytes) → IsBytes bs → IsBytes (carry n c bs)
unfolding carry
IsBytes-carry zero c bs w = w
IsBytes-carry (suc n) c [] w = w
IsBytes-carry (suc n) c (b ∷ bs) w = (omega arith, IsBytes-carry n ((c + b) / 256) bs w.1)

length-carry : (n c : ℕ) (bs : Bytes) → length (carry n c bs) ≡ length bs
unfolding carry
length-carry zero c bs = refl
length-carry (suc n) c [] = refl
length-carry (suc n) c (b ∷ bs) = ap suc (length-carry n ((c + b) / 256) bs)

-- `increase` is `carry` with a carry of 1 into the first byte.
increase-eq-carry : (n : ℕ) (bs : Bytes) → 0 < n → n ≤ length bs → increase n bs ≡ carry n 1 bs
unfolding increase carry
increase-eq-carry zero bs h k = absurd (omega arith)
increase-eq-carry (suc n) [] h k = absurd (omega arith)
increase-eq-carry (suc n) (b ∷ bs) h k =
    ap₂ ◌∷◌ (omega arith) (ap₂ (λ m c. carry m c bs) (omega arith) (omega arith))

little_endian-carry :
    (n : ℕ) (bs : Bytes)
    → n ≤ length bs
    → IsBytes bs
    → little_endian n (carry n 1 bs) ≡ (little_endian n bs + 1) % modulus n
little_endian-carry n bs h w =
    let (k, e) = carry-adds n 1 bs h w (omega arith) in
    let below = little_endian-lt n (carry n 1 bs) (IsBytes-carry n 1 bs w) in
    sym (
      ap (λ x. x % modulus n) (sym e)
      ∙ add-mul-mod_self_right (little_endian n (carry n 1 bs)) k (modulus n)
      ∙ mod-eq_of_lt below)

-- The nonce after `m` messages.
unfoldable pub after : ℕ → ℕ → Bytes → Bytes
after nlen zero nonce = nonce
after nlen (suc m) nonce = increase nlen (after nlen m nonce)

record IsNonce (nlen : ℕ) (bs : Bytes) : Type 0 where
  bytes : IsBytes bs
  fits : nlen ≤ length bs

module _ (nlen : ℕ) (some_byte : 0 < nlen) where
  increase-IsNonce : (bs : Bytes) → IsNonce nlen bs → IsNonce nlen (increase nlen bs)
  increase-IsNonce bs v = rw (increase-eq-carry nlen bs some_byte v.fits) (record {
    bytes = IsBytes-carry nlen 1 bs v.bytes;
    fits = rw (length-carry nlen 1 bs) v.fits;
  })

  after-IsNonce : (m : ℕ) (bs : Bytes) → IsNonce nlen bs → IsNonce nlen (after nlen m bs)
  unfolding after
  after-IsNonce zero bs v = v
  after-IsNonce (suc m) bs v = increase-IsNonce (after nlen m bs) (after-IsNonce m bs v)

  after-counts :
      (m : ℕ) (bs : Bytes)
      → IsNonce nlen bs
      → little_endian nlen (after nlen m bs) ≡ (little_endian nlen bs + m) % modulus nlen
  unfolding after
  after-counts zero bs v = sym (
      ap (λ x. x % modulus nlen) (add-zero (little_endian nlen bs))
      ∙ mod-eq_of_lt (little_endian-lt nlen bs v.bytes))
  after-counts (suc m) bs v =
      let w = after-IsNonce m bs v in
      ap (little_endian nlen) (increase-eq-carry nlen (after nlen m bs) some_byte w.fits)
      ∙ little_endian-carry nlen (after nlen m bs) w.fits w.bytes
      ∙ ap (λ x. (x + 1) % modulus nlen) (after-counts m bs v)
      ∙ mod-add-mod (little_endian nlen bs + m) (modulus nlen) 1
      ∙ ap (λ x. x % modulus nlen) (omega arith)

pub little_endian-take : (n : ℕ) (bs : Bytes) → little_endian n (take n bs) ≡ little_endian n bs
unfolding little_endian
little_endian-take zero bs = refl
little_endian-take (suc n) [] = refl
little_endian-take (suc n) (b ∷ bs) = ap (λ x. b + 256 * x) (little_endian-take n bs)

abbrev pub zeros : Bytes
zeros = replicate n_max 0

pub zeros_count : (m : ℕ) → little_endian 12 (after 12 m zeros) ≡ m % 2 ^ 96
unfolding little_endian modulus
zeros_count m =
    after-counts 12 (omega arith) m zeros (record { bytes = omega arith; fits = omega arith })
    ∙ ap (λ x. x % 2 ^ 96) (omega arith)
