-- ===== src/Sniff/Http.antt =====
-- The host of a request, by the lines of its head.
use roxy.Base.{
  ℕ, zero, suc, ◌+◌, ◌≤◌, ◌<◌, ◌≡◌, ◌≢◌, refl, ap, inl, inr, true, false, Bool-cases, Option, none,
  some, Option-cases, List, [], ◌∷◌, length, get_elem?, take, drop, length-take, length-drop, ltb,
  ◌==◌, if◌then◌else◌, arith,
}
use roxy.Base.Bytes.{Bytes, codes}
use roxy.Rule.{same}
use roxy.Rule.Segments.{same_sound}
use roxy.Sniff.{Run, fail, SniffError, header_value, header_loop, http_host}

abbrev pub Absent : ℕ → Bytes → Type 0
Absent b [] = Unit
Absent b (c ∷ s) = (c ≢ b) × Absent b s

-- `memchr`: the first place of the byte, if there is one.
pub record IsMemchr (memchr : ℕ → Bytes → Option ℕ) : Type 0 where
  pub missing : (b : ℕ) (s : Bytes) → memchr b s ≡ none → Absent b s
  pub found :
      (b : ℕ) (s : Bytes) (i : ℕ)
      → memchr b s ≡ some i
      → (get_elem? s i ≡ some b) × Absent b (take i s)

extend : ℕ → List Bytes → List Bytes
extend c [] = []
extend c (l ∷ ls) = (c ∷ l) ∷ ls

-- The lines that a line feed ends, without it.
unfoldable pub lines : Bytes → List Bytes
unfolding extend
lines [] = []
lines (c ∷ s) = let rest = lines s in if c == 10 then [] ∷ rest else extend c rest

-- The first line that begins with `Host:` names the host; an empty line ends the head.
unfoldable pub host_of : List Bytes → Run Bytes
unfolding same header_value
host_of [] = fail SniffError.host_not_found
host_of ([] ∷ ls) = fail SniffError.host_not_found
host_of ((c ∷ l) ∷ ls) =
    let rest = host_of ls in
    if same (take 5 (c ∷ l)) (codes "Host:") then header_value (drop 5 (c ∷ l)) else rest

lines-Absent : (s : Bytes) → Absent 10 s → lines s ≡ []
unfolding lines
lines-Absent [] h = refl
lines-Absent (c ∷ s) h =
    let e : (c == 10) ≡ false = ground (arith, h.0) in rw (e, lines, lines-Absent s h.1) refl

lines-cons :
    (s : Bytes) (i : ℕ)
    → get_elem? s i ≡ some 10
    → Absent 10 (take i s)
    → lines s ≡ take i s ∷ lines (drop (suc i) s)
unfolding lines
lines-cons [] i h a = cc
lines-cons (c ∷ s) zero h a = let e : (c == 10) ≡ true = ground (arith, h) in rw (e, lines) refl
lines-cons (c ∷ s) (suc i) h a =
    let e : (c == 10) ≡ false = ground (arith, a.0) in rw (e, lines, lines-cons s i h a.1) refl

get_elem?-lt : (s : Bytes) (i b : ℕ) → get_elem? s i ≡ some b → i < length s
get_elem?-lt [] i b h = cc
get_elem?-lt (c ∷ s) zero b h = omega arith
get_elem?-lt (c ∷ s) (suc i) b h = omega (arith, get_elem?-lt s i b h)

take-take : (m n : ℕ) (s : Bytes) → m ≤ n → take m (take n s) ≡ take m s
take-take zero n s h = refl
take-take (suc m) zero s h = absurd (omega arith)
take-take (suc m) (suc n) [] h = refl
take-take (suc m) (suc n) (c ∷ s) h = ap (λ l. c ∷ l) (take-take m n s (omega arith))

-- A short line is not the header.
same-short : (l : Bytes) → length l < 5 → same (take 5 l) (codes "Host:") ≡ false
same-short l h = elim (Bool-cases (same (take 5 l) (codes "Host:"))) [
  | inl e ↦
      let long : length (take 5 l) ≡ 5 = ap length (same_sound _ _ e) in
      absurd (omega (arith, long, length-take 5 l))
  | inr e ↦ e
]

host_of-cons :
    (l : Bytes) (ls : List Bytes)
    → host_of (l ∷ ls) ≡ (
        if length l == 0
        then fail SniffError.host_not_found
        else if same (take 5 l) (codes "Host:")
        then header_value (drop 5 l)
        else host_of ls)
unfolding host_of
host_of-cons [] ls = refl
host_of-cons (c ∷ l) ls = let e : (length (c ∷ l) == 0) ≡ false = ground arith in rw e refl

module _ (memchr : ℕ → Bytes → Option ℕ) (law : IsMemchr memchr) where
  header_loop_lem :
      (fuel : ℕ) (s : Bytes) → length s < fuel → header_loop memchr fuel s ≡ host_of (lines s)
  unfolding header_loop
  header_loop_lem zero s h = absurd (omega arith)
  header_loop_lem (suc fuel) s h = elim (Option-cases (memchr 10 s)) [
    | inl e ↦ rw (e, header_loop, lines-Absent s (law.missing 10 s e)) (unfold host_of in refl)
    | inr (i, e) ↦
        let (at_i, before) = law.found 10 s i e in
        let inside = get_elem?-lt s i 10 at_i in
        let next : i + 1 ≡ suc i = omega arith in
        let rest : header_loop memchr fuel (drop (i + 1) s) ≡ host_of (lines (drop (suc i) s)) =
          rw next (header_loop_lem fuel (drop (suc i) s) (omega (arith, length-drop (suc i) s))) in
        let long : length (take i s) ≡ i = omega (arith, length-take i s, inside) in
        rw (e, header_loop, lines-cons s i at_i before, host_of-cons, long)
          (elim (Bool-cases (i == 0)) [
            | inl z ↦ rw (z, header_loop) refl
            | inr z ↦ elim (Bool-cases (ltb i 5)) [
              | inl short ↦ rw (z, short, header_loop, same-short (take i s) (ground arith)) rest
              | inr enough ↦
                  rw (z, enough, header_loop, take-take 5 i s (ground arith))
                    (elim (Bool-cases (same (take 5 s) (codes "Host:"))) [
                      | inl m ↦ rw (m, header_loop) refl
                      | inr m ↦ rw (m, header_loop) rest
                    ])
            ]
          ])
  ]

  -- The host of a request is what its lines say: the first one, ahead of an empty line, that begins
  -- with `Host:` gives it, and without such a line it is not found.
  pub http_host_by_lines : (buf : Bytes) → http_host memchr buf ≡ host_of (lines buf)
  unfolding http_host
  http_host_by_lines buf = header_loop_lem (suc (length buf)) buf (omega arith)
