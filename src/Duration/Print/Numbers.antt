-- ===== src/Duration/Print/Numbers.antt =====
-- What the printer of durations makes of one number.
use roxy.Base.{
  ℕ, zero, suc, ◌+◌, ◌*◌, ◌-◌, ◌/◌, ◌%◌, ◌^◌, ◌<◌, ◌≡◌, refl, sym, ap, ◌∙◌, inl, inr, true, false,
  Bool-cases, [], ◌∷◌, ◌++◌, append_assoc, ◌==◌, arith,
}
use roxy.Base.Bytes.{Bytes}
use roxy.Duration.{is_digit}
use roxy.Duration.Parts.{Digits, value, TimeUnit, nanos_of}
use roxy.Duration.Sum.{Part, number, nanos}
use roxy.Duration.Print.{frac_loop, fmt_frac, int_loop, fmt_int}

-- `n` zeros behind `u`.
abbrev pub scale : ℕ → ℕ → ℕ
scale zero u = u
scale (suc n) u = 10 * scale n u

frac_loop_zeros : (n u : ℕ) (tail : Bytes) → frac_loop n false tail (scale n u) ≡ (false, tail, u)
unfolding frac_loop
frac_loop_zeros zero u tail = refl
frac_loop_zeros (suc n) u tail =
    let a : 10 * scale n u % 10 ≡ 0 = omega arith in
    let b : 10 * scale n u / 10 ≡ scale n u = omega arith in rw (a, b) (frac_loop_zeros n u tail)

pub fmt_frac_zeros : (n u v : ℕ) (tail : Bytes) → v ≡ scale n u → fmt_frac tail v n ≡ (tail, u)
unfolding fmt_frac
fmt_frac_zeros n u v tail e = rw (e, frac_loop_zeros n u tail) refl

value-snoc : (x : ℕ) (s : Bytes) (c : ℕ) → value x (s ++ (c ∷ [])) ≡ 10 * value x s + (c - 48)
value-snoc x [] c = refl
value-snoc x (d ∷ s) c = value-snoc (10 * x + (d - 48)) s c

Digits-snoc : (s : Bytes) (c : ℕ) → Digits s → is_digit c ≡ true → Digits (s ++ (c ∷ []))
Digits-snoc [] c h k = (k, tt)
Digits-snoc (d ∷ s) c h k = (h.0, Digits-snoc s c h.1 k)

-- The digits of `v`, ahead of `tail`.
record Spells (text tail : Bytes) (v : ℕ) : Type 0 where
  digits : Bytes
  are : Digits digits
  text_is : text ≡ digits ++ tail
  spells : value 0 digits ≡ v

int_loop-Spells :
    (fuel : ℕ) (tail : Bytes) (v : ℕ) → v < scale fuel 1 → Spells (int_loop fuel tail v) tail v
unfolding int_loop
int_loop-Spells zero tail v h = record {
  digits = [];
  are = tt;
  text_is = refl;
  spells = omega (arith, h);
}
int_loop-Spells (suc fuel) tail v h = elim (Bool-cases (v == 0)) [
  | inl e ↦
      rw (e, int_loop)
        (record { digits = []; are = tt; text_is = refl; spells = ground (arith, e) })
  | inr e ↦
      let r = int_loop-Spells fuel ((v % 10 + 48) ∷ tail) (v / 10) (omega (arith, h)) in
      let digit : is_digit (v % 10 + 48) ≡ true = ground arith in
      rw (e, int_loop)
        (record {
          digits = r.digits ++ ((v % 10 + 48) ∷ []);
          are = Digits-snoc r.digits (v % 10 + 48) r.are digit;
          text_is = r.text_is ∙ sym (append_assoc r.digits ((v % 10 + 48) ∷ []) tail);
          spells = value-snoc 0 r.digits (v % 10 + 48) ∙ (let e' = r.spells in omega (arith, e'));
        })
]

-- A printed number is a part of the text.
pub record IsPart (text tail : Bytes) (v : ℕ) (u : TimeUnit) : Type 0 where
  pub part : Part
  pub are : Digits (number part)
  pub unit_is : part.unit ≡ u
  pub text_is : text ≡ number part ++ tail
  pub amount : value 0 (number part) ≡ v

pub fmt_int-IsPart :
    (tail : Bytes) (v : ℕ) (u : TimeUnit) → v < 2 ^ 64 → IsPart (fmt_int tail v) tail v u
unfolding fmt_int
fmt_int-IsPart tail v u h = elim (Bool-cases (v == 0)) [
  | inl e ↦
      rw (e, fmt_int)
        (record {
          part = record { first = 48; digits = []; unit = u };
          are = (refl, tt);
          unit_is = refl;
          text_is = refl;
          amount = ground (arith, e);
        })
  | inr e ↦
      let r = int_loop-Spells 20 tail v (omega (arith, h)) in
      rw (e, fmt_int) (by_digits r.digits r.are r.text_is r.spells (ground (arith, e)))
]
  where
    by_digits :
        (ds : Bytes)
        → Digits ds
        → int_loop 20 tail v ≡ ds ++ tail
        → value 0 ds ≡ v
        → 0 < v
        → IsPart (int_loop 20 tail v) tail v u
    by_digits [] a t s pos = absurd (omega (arith, s))
    by_digits (d ∷ ds) a t s pos = record {
      part = record { first = d; digits = ds; unit = u };
      are = a;
      unit_is = refl;
      text_is = t;
      amount = s;
    }

-- The text of one part, and its amount.
pub nanos-IsPart :
    {text tail : Bytes} {v : ℕ} {u : TimeUnit} (x : IsPart text tail v u)
    → nanos x.part ≡ v * nanos_of u
nanos-IsPart {v = v} {u = u} x =
    ap (λ w. value 0 (number x.part) * nanos_of w) x.unit_is ∙ ap (λ n. n * nanos_of u) x.amount
