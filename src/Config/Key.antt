-- ===== src/Config/Key.antt =====
-- The derived key against the chain of digests that it is cut from.
use roxy.Base.{
  ℕ, zero, suc, ◌+◌, ◌-◌, ◌≤◌, ◌<◌, ◌≡◌, refl, sym, ap, ◌∙◌, min, inl, inr, false, Bool-cases, some,
  [], ◌∷◌, ◌++◌, append_assoc, append-nil, length, length-append, length-take, take, ltb, arith,
  List,
}
use roxy.Base.Bytes.{Bytes}
use roxy.Config.{key_from, bytes_to_key}

module _ (md5 : Bytes → Bytes) (password : Bytes) where
  -- `n` digests, each of the one before it and the password, put together.
  unfoldable pub digests : ℕ → Bytes → Bytes
  digests zero last = []
  digests (suc n) last = let digest = md5 (last ++ password) in digest ++ digests n digest

take-append {ℓ} :
    {A : Type ℓ} (k : ℕ) (xs ys : List A)
    → take k (xs ++ ys) ≡ take (min k (length xs)) xs ++ take (k - length xs) ys
take-append zero xs ys =
    let a : min 0 (length xs) ≡ 0 = omega arith in
    let b : 0 - length xs ≡ 0 = omega arith in rw (a, b) refl
take-append (suc k) [] ys =
    let a : min (suc k) 0 ≡ 0 = omega arith in
    let b : suc k - 0 ≡ suc k = omega arith in rw (a, b) refl
take-append (suc k) (x ∷ xs) ys =
    let a : min (suc k) (suc (length xs)) ≡ suc (min k (length xs)) = omega arith in
    let b : suc k - suc (length xs) ≡ k - length xs = omega arith in
    rw (a, b) (ap (λ l. x ∷ l) (take-append k xs ys))

module _ (md5 : Bytes → Bytes) (sixteen : (s : Bytes) → length (md5 s) ≡ 16)
    (password : Bytes) where
  key_from-digests :
      (fuel n : ℕ) (key last : Bytes)
      → length key ≤ n
      → n ≤ length key + fuel
      → key_from md5 password fuel n key last
        ≡ some (key ++ take (n - length key) (digests md5 password fuel last))
  unfolding key_from digests
  key_from-digests zero n key last h enough =
      let over : ltb (length key) n ≡ false = ground (arith, enough) in
      let zero_left : n - length key ≡ 0 = omega (arith, enough) in
      rw (over, zero_left, append-nil key) refl
  key_from-digests (suc fuel) n key last h enough = elim (Bool-cases (ltb (length key) n)) [
    | inr e ↦
        let zero_left : n - length key ≡ 0 = ground (arith, e) in
        rw (e, key_from, zero_left, append-nil key) refl
    | inl e ↦
        let digest = md5 (last ++ password) in
        let amt = min (n - length key) (length digest) in
        let next = key ++ take amt digest in
        let size = sixteen (last ++ password) in
        let more : length key < n = ground (arith, e) in
        let long : length next ≡ length key + amt =
          omega (arith, length-append key (take amt digest), length-take amt digest) in
        let left : n - length next ≡ (n - length key) - length digest = omega (arith, long) in
        rw (e, key_from)
          (key_from-digests fuel n next digest (omega (arith, long, more))
              (omega (arith, long, more, size, enough))
            ∙ ap (λ i. some (next ++ take i (digests md5 password fuel digest))) left
            ∙ ap some (append_assoc key (take amt digest) _)
            ∙ ap (λ v. some (key ++ v))
                (sym (take-append (n - length key) digest (digests md5 password fuel digest))))
  ]

  length-digests : (n : ℕ) (last : Bytes) → n ≤ length (digests md5 password n last)
  unfolding digests
  length-digests zero last = omega arith
  length-digests (suc n) last =
      let digest = md5 (last ++ password) in
      omega (
        arith,
        length-append digest (digests md5 password n digest),
        sixteen (last ++ password),
        length-digests n digest,
      )

  -- With digests of 16 bytes the derived key is the first `key_len` bytes of the chain of digests,
  -- where each digest is of the one before it and the password; in particular the loop ends and the
  -- key has that length.
  pub bytes_to_key-digests :
      (key_len : ℕ)
      → (bytes_to_key md5 password key_len ≡ some (take key_len (digests md5 password key_len [])))
        × (length (take key_len (digests md5 password key_len [])) ≡ key_len)
  unfolding bytes_to_key
  bytes_to_key-digests key_len = (
    (let whole : key_len - 0 ≡ key_len = omega arith in
        key_from-digests key_len key_len [] [] (omega arith) (omega arith)
        ∙ ap (λ i. some (take i (digests md5 password key_len []))) whole),
    omega (arith, length-take key_len (digests md5 password key_len []), length-digests key_len []),
  )
