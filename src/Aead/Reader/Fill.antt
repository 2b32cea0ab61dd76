-- ===== src/Aead/Reader/Fill.antt =====
-- What `pool_read_exact` leaves in the buffer.
use roxy.Base.{
  ℕ, suc, ◌-◌, ◌≤◌, ◌<◌, min, ◌≡◌, ◌⊎◌, inl, inr, refl, sym, ap, ◌∙◌, false, Bool-cases, List, [],
  ◌∷◌, ◌++◌, append_assoc, append-nil, length, take, drop, ltb, arith, length-append, length-take,
  take-append-drop,
}
use roxy.Base.Bytes.{Bytes}
use roxy.Socks5.{ErrorKind}
use roxy.Aead.Frames.{pending, ready, fail}
use roxy.Aead.Reader.{Arrival, later, arrived, breaks, Filled, fill}

-- The stream broke with this error.
abbrev pub Broke : ErrorKind → List Arrival → Type 0
Broke e [] = ⊥
Broke e (x ∷ xs) = (x ≡ breaks e) ⊎ Broke e xs

-- How a read ends: the bytes read and those to come stay the same bytes.
pub data Reads (size : ℕ) (buffer wire : Bytes) (xs : List Arrival) (o : Filled) : Type 0 where
  waits :
      o.poll ≡ pending
      → length o.buffer < size
      → o.buffer ++ o.wire ≡ buffer ++ wire
      → length o.arrivals ≤ length xs
      → Reads size buffer wire xs o
  broke :
      (e : ErrorKind)
      → o.poll ≡ fail e
      → Broke e xs
      → length o.buffer < size
      → o.buffer ++ o.wire ≡ buffer ++ wire
      → length o.arrivals ≤ length xs
      → Reads size buffer wire xs o
  full :
      o.poll ≡ ready size
      → length o.buffer ≡ size
      → o.buffer ++ o.wire ≡ buffer ++ wire
      → length o.arrivals ≤ length xs
      → (length buffer < size → length o.arrivals < length xs)
      → ((e : ErrorKind) → Broke e o.arrivals → Broke e xs)
      → Reads size buffer wire xs o
  closed :
      o.poll ≡ ready 0
      → buffer ≡ []
      → wire ≡ []
      → o.buffer ≡ []
      → o.wire ≡ []
      → Reads size buffer wire xs o
  cut :
      o.poll ≡ fail ErrorKind.unexpected_eof
      → 0 < length (buffer ++ wire)
      → length (buffer ++ wire) < size
      → Reads size buffer wire xs o

-- One more answer, whose bytes went from the stream to the buffer.
Reads-more :
    (size : ℕ) (buffer wire : Bytes) (x : Arrival) (xs : List Arrival) (buffer' wire' : Bytes)
    (o : Filled)
    → buffer' ++ wire' ≡ buffer ++ wire
    → 0 < length buffer'
    → Reads size buffer' wire' xs o
    → Reads size buffer wire (x ∷ xs) o
Reads-more size buffer wire x xs buffer' wire' o same grown (waits p l e a) =
    waits p l (e ∙ same) (omega (arith, a))
Reads-more size buffer wire x xs buffer' wire' o same grown (broke k p m l e a) =
    broke k p (inr m) l (e ∙ same) (omega (arith, a))
Reads-more size buffer wire x xs buffer' wire' o same grown (full p l e a s b) =
    full p l (e ∙ same) (omega (arith, a)) (λ _. omega (arith, a)) (λ k m. inr (b k m))
Reads-more size buffer wire x xs buffer' wire' o same grown (closed p b w b' w') =
    absurd (omega (arith, ap length b))
Reads-more size buffer wire x xs buffer' wire' o same grown (cut p g l) =
    cut p (omega (arith, g, ap length same)) (omega (arith, l, ap length same))

full_already :
    (size : ℕ) (buffer wire : Bytes) (xs : List Arrival)
    → ltb (length buffer) size ≡ false
    → length buffer ≤ size
    → Reads size buffer wire xs
        (record { poll = ready size; buffer = buffer; wire = wire; arrivals = xs })
full_already size buffer wire xs h le =
    full refl (ground arith) refl (omega arith) (λ lt. absurd (ground arith)) (λ e m. m)

-- No byte came: the stream has ended.
ended :
    (size : ℕ) (buffer wire : Bytes) (x : Arrival) (xs : List Arrival) (k : ℕ)
    → length buffer < size
    → take (min (suc k) (size - length buffer)) wire ≡ []
    → Reads size buffer wire (x ∷ xs) (record {
      poll = elim buffer [ [] ↦ ready 0 | _ ∷ _ ↦ fail ErrorKind.unexpected_eof ];
      buffer = buffer;
      wire = wire;
      arrivals = xs;
    })
ended size [] [] x xs k lt h = closed refl refl refl refl refl
ended size (b ∷ buffer) [] x xs k lt h =
    cut refl (omega arith) (omega (arith, lt, ap length (append-nil buffer)))
ended size buffer (c ∷ wire) x xs k lt h =
    absurd (omega (arith, length-take (min (suc k) (size - length buffer)) (c ∷ wire), ap length h))

pub fill-Reads :
    (size : ℕ) (buffer wire : Bytes) (xs : List Arrival)
    → length buffer ≤ size
    → Reads size buffer wire xs (fill size buffer wire xs)
unfolding fill
fill-Reads size buffer wire [] le = elim (Bool-cases (ltb (length buffer) size)) [
  | inl more ↦ rw (more, fill) (waits refl (ground arith) refl (omega arith))
  | inr done ↦ rw (done, fill) (full_already size buffer wire [] done le)
]
fill-Reads size buffer wire (later ∷ xs) le = elim (Bool-cases (ltb (length buffer) size)) [
  | inl more ↦ rw (more, fill) (waits refl (ground arith) refl (omega arith))
  | inr done ↦ rw (done, fill) (full_already size buffer wire (later ∷ xs) done le)
]
fill-Reads size buffer wire (breaks e ∷ xs) le = elim (Bool-cases (ltb (length buffer) size)) [
  | inl more ↦ rw (more, fill) (broke e refl (inl refl) (ground arith) refl (omega arith))
  | inr done ↦ rw (done, fill) (full_already size buffer wire (breaks e ∷ xs) done le)
]
fill-Reads size buffer wire (arrived k ∷ xs) le = elim (Bool-cases (ltb (length buffer) size)) [
  | inr done ↦ rw (done, fill) (full_already size buffer wire (arrived k ∷ xs) done le)
  | inl more ↦
      rw (more, fill)
        (by_bytes (λ buffer' wire' fits. fill-Reads size buffer' wire' xs fits) (ground arith)
          (take n wire) refl)
]
  where
    n : ℕ
    n = min (suc k) (size - length buffer)

    by_bytes :
        ((buffer' wire' : Bytes)
          → length buffer' ≤ size
          → Reads size buffer' wire' xs (fill size buffer' wire' xs))
        → length buffer < size
        → (got : Bytes) → take n wire ≡ got
        → Reads size buffer wire (arrived k ∷ xs) (elim got [
          | [] ↦ record {
            poll = elim buffer [ [] ↦ ready 0 | _ ∷ _ ↦ fail ErrorKind.unexpected_eof ];
            buffer = buffer;
            wire = wire;
            arrivals = xs;
          }
          | b ∷ bs ↦ fill size (buffer ++ (b ∷ bs)) (drop n wire) xs
        ])
    by_bytes more_reads lt [] e = ended size buffer wire (arrived k) xs k lt e
    by_bytes more_reads lt (b ∷ bs) e =
        let same : (buffer ++ (b ∷ bs)) ++ drop n wire ≡ buffer ++ wire =
          append_assoc buffer (b ∷ bs) (drop n wire)
          ∙ ap (λ l. buffer ++ (l ++ drop n wire)) (sym e)
          ∙ ap (λ l. buffer ++ l) (take-append-drop n wire) in
        let len = length-append buffer (b ∷ bs) in
        let fits : length (buffer ++ (b ∷ bs)) ≤ size =
          omega (arith, len, length-take n wire, ap length e) in
        Reads-more size buffer wire (arrived k) xs (buffer ++ (b ∷ bs)) (drop n wire) _ same
          (omega (arith, len)) (more_reads (buffer ++ (b ∷ bs)) (drop n wire) fits)
