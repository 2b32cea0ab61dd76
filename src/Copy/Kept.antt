-- ===== src/Copy/Kept.antt =====
-- What a copy keeps: nothing is lost, repeated or miscounted.
use roxy.Base.{
  ℕ, zero, suc, ◌+◌, ◌-◌, ◌%◌, ◌^◌, ◌≤◌, ◌<◌, ◌≡◌, ◌≢◌, refl, sym, ap, ◌∙◌, min, inl, inr, true,
  false, not, ◌&&◌, Bool-cases, List, [], ◌∷◌, ◌++◌, append_assoc, length, length-append,
  length-take, length-drop, take, drop, take-length, drop-add, take_all, ltb, ◌==◌, arith,
}
use roxy.Base.Bytes.{Bytes}
use roxy.Socks5.{ErrorKind}
use roxy.Aead.Frames.{Poll, pending, panic, ready, fail}
use roxy.Aead.Writer.{Answer}
use roxy.Aead.Reader.{Arrival}
use roxy.Copy.{
  CopyBuffer, World, Step, go, stop, filled, read_from, fill_buffer, advanced, write_out, and_then,
}

-- What stands in the buffer and is not written.
abbrev pub unsent : CopyBuffer → Bytes
unsent c = take (c.cap - c.pos) (drop c.pos c.buf)

-- Of `text`, the writer has `sent`, the buffer the next bytes and the reader the rest, and `amt`
-- counts.
pub record IsCopying (text : Bytes) (c : CopyBuffer) (source sent : Bytes) : Type 0 where
  pub bytes : sent ++ (unsent c ++ source) ≡ text
  pub counted : c.amt ≡ length sent % 2 ^ 64
  pub inside : (c.pos ≤ c.cap) × (c.cap ≤ length c.buf)
  pub room : 0 < length c.buf
  pub ended : c.read_done ≡ true → source ≡ []

abbrev pub Copying : Bytes → World → Type 0
Copying text w = IsCopying text w.copy w.source w.sent

-- How a poll may end: as long as the text is not copied, it is pending or fails.
abbrev pub Ends : Bytes → Poll ErrorKind ℕ → World → Type 0
Ends text pending w = Unit
Ends text panic w = true ≡ false
Ends text (fail e) w = Unit
Ends text (ready n) w = (w.sent ≡ text) × (n ≡ length text % 2 ^ 64)

-- A part of the loop keeps the copy, and goes on only in a state that satisfies `P`.
abbrev pub Keeps : Bytes → (World → Type 0) → Step → Type 0
Keeps text P (go w) = Copying text w × P w
Keeps text P (stop p w) = Copying text w × Ends text p w

take-add {ℓ} :
    {A : Type ℓ} (m n : ℕ) (xs : List A) → take (m + n) xs ≡ take m xs ++ take n (drop m xs)
take-add zero n xs = ap (λ k. take k xs) (omega arith)
take-add (suc m) n [] = take_all (suc m + n) [] (omega arith) ∙ sym (take_all n [] (omega arith))
take-add (suc m) n (x ∷ xs) =
    let e : suc m + n ≡ suc (m + n) = omega arith in
    ap (λ k. take k (x ∷ xs)) e ∙ ap (λ l. x ∷ l) (take-add m n xs)

advanced-IsCopying :
    (text : Bytes) (n : ℕ) (w : World)
    → n ≤ w.copy.cap - w.copy.pos
    → Copying text w
    → Copying text (advanced n w)
advanced-IsCopying text n w h k =
    let b = drop w.copy.pos w.copy.buf in
    let left = w.copy.cap - (w.copy.pos + n) in
    let parts : w.copy.cap - w.copy.pos ≡ n + left = omega (arith, h, k.inside) in
    let cut : unsent w.copy ≡ take n b ++ take left (drop (w.copy.pos + n) w.copy.buf) =
      ap (λ i. take i b) parts
      ∙ take-add n left b
      ∙ ap (λ l. take n b ++ take left l) (drop-add n w.copy.pos w.copy.buf) in
    let size : length (take n b) ≡ n =
      omega (arith, length-take n b, length-drop w.copy.pos w.copy.buf, h, k.inside) in
    record {
      bytes =
          append_assoc w.sent (take n b) (take left (drop (w.copy.pos + n) w.copy.buf) ++ w.source)
          ∙ ap (λ l. w.sent ++ l)
              (sym (append_assoc (take n b) (take left (drop (w.copy.pos + n) w.copy.buf)) w.source)
                ∙ ap (λ l. l ++ w.source) (sym cut))
          ∙ k.bytes;
      counted = omega (arith, k.counted, length-append w.sent (take n b), size);
      inside = (omega (arith, h, k.inside), k.inside.1);
      room = k.room;
      ended = k.ended;
    }

pub and_then-Keeps :
    (text : Bytes) (P Q : World → Type 0) (s : Step) (next : World → Step)
    → Keeps text P s
    → ((v : World) → Copying text v → P v → Keeps text Q (next v))
    → Keeps text Q (and_then s next)
and_then-Keeps text P Q (go w) next k f = f w k.0 k.1
and_then-Keeps text P Q (stop p w) next k f = k

-- A buffer that was written out, with what was not touched.
abbrev pub Written : World → World → Type 0
Written w v =
    (v.copy.pos ≡ v.copy.cap) × (v.copy.read_done ≡ w.copy.read_done) × (v.arrivals ≡ w.arrivals)

pub write_out-Keeps :
    (text : Bytes) (xs : List Answer) (w : World)
    → Copying text w
    → Keeps text (Written w) (write_out xs w)
unfolding write_out
write_out-Keeps text [] w k = elim (Bool-cases (ltb w.copy.pos w.copy.cap)) [
  | inl e ↦ rw e (k, tt)
  | inr e ↦ rw e (k, ((let le = k.inside.0 in ground (arith, le)), refl, refl))
]
write_out-Keeps text (x ∷ xs) w k = elim (Bool-cases (ltb w.copy.pos w.copy.cap)) [
  | inr e ↦ rw (e, write_out) (k, ((let le = k.inside.0 in ground (arith, le)), refl, refl))
  | inl e ↦
      rw (e, write_out)
        (by_answer
          (λ m h.
            write_out-Keeps text xs (advanced (suc m) w) (advanced-IsCopying text (suc m) w h k))
          x)
]
  where
    by_count :
        ((m : ℕ)
          → suc m ≤ w.copy.cap - w.copy.pos
          → Keeps text (Written w) (write_out xs (advanced (suc m) w)))
        → (n : ℕ) → n ≤ w.copy.cap - w.copy.pos
        → Keeps text (Written w) (elim n as (λ _. Step) [
          | zero ↦ stop (fail ErrorKind.write_zero) (record w { answers = xs })
          | suc m ↦ write_out xs (advanced (suc m) w)
        ])
    by_count rest zero h = (k, tt)
    by_count rest (suc m) h = rest m h

    by_answer :
        ((m : ℕ)
          → suc m ≤ w.copy.cap - w.copy.pos
          → Keeps text (Written w) (write_out xs (advanced (suc m) w)))
        → (y : Answer)
        → Keeps text (Written w) (elim y as (λ _. Step) [
          | Answer.later ↦ stop pending (record w { answers = xs })
          | Answer.breaks e ↦ stop (fail e) (record w { answers = xs })
          | Answer.takes n ↦ elim (min n (w.copy.cap - w.copy.pos)) as (λ _. Step) [
            | zero ↦ stop (fail ErrorKind.write_zero) (record w { answers = xs })
            | suc m ↦ write_out xs (advanced (suc m) w)
          ]
        ])
    by_answer rest Answer.later = (k, tt)
    by_answer rest (Answer.breaks e) = (k, tt)
    by_answer rest (Answer.takes n) = by_count rest (min n (w.copy.cap - w.copy.pos)) (omega arith)

take-drop_taken {ℓ} : {A : Type ℓ} (m : ℕ) (s : List A) → take m s ++ drop (length (take m s)) s ≡ s
take-drop_taken zero s = refl
take-drop_taken (suc m) [] = refl
take-drop_taken (suc m) (x ∷ s) = ap (λ l. x ∷ l) (take-drop_taken m s)

empty {ℓ} : {A : Type ℓ} (s : List A) → length s ≡ 0 → s ≡ []
empty [] h = refl
empty (x ∷ s) h = absurd (omega arith)

-- A fill goes on with fewer answers to come, if it reads.
abbrev pub Filled : World → World → Type 0
Filled w v =
    (length v.arrivals ≤ length w.arrivals)
    × (w.copy.pos ≡ w.copy.cap → w.copy.read_done ≡ false → length v.arrivals < length w.arrivals)

filled-arrivals : (got : Bytes) (w : World) → (filled got w).arrivals ≡ w.arrivals
filled-arrivals got w = elim (Bool-cases (length got == 0)) [
  | inl e ↦ rw e refl
  | inr e ↦ rw e refl
]

filled-Copying :
    (text : Bytes) (n : ℕ) (w : World)
    → w.copy.pos ≡ w.copy.cap
    → w.copy.read_done ≡ false
    → Copying text w
    → Copying text (filled (take (min (suc n) (length w.copy.buf)) w.source) w)
filled-Copying text n w none_left open_end k =
    let got = take (min (suc n) (length w.copy.buf)) w.source in
    let size = length-take (min (suc n) (length w.copy.buf)) w.source in
    let before : unsent w.copy ≡ [] =
      (let zero_left : w.copy.cap - w.copy.pos ≡ 0 = omega (arith, none_left) in
        ap (λ i. take i (drop w.copy.pos w.copy.buf)) zero_left) in
    elim (Bool-cases (length got == 0)) [
      | inl e ↦ rw e (record {
        bytes = k.bytes;
        counted = k.counted;
        inside = k.inside;
        room = k.room;
        ended = λ _. empty w.source (ground (arith, size, k.room));
      })
      | inr e ↦ rw e (record {
        bytes =
            ap (λ l. w.sent ++ l)
              (ap (λ l. l ++ drop (length got) w.source)
                  (take-length got _ (length got - 0) (omega arith))
                ∙ take-drop_taken (min (suc n) (length w.copy.buf)) w.source
                ∙ ap (λ l. l ++ w.source) (sym before))
            ∙ k.bytes;
        counted = k.counted;
        inside = (omega arith, omega (arith, length-append got (drop (length got) w.copy.buf)));
        room = omega (
          arith,
          length-append got (drop (length got) w.copy.buf),
          length-drop (length got) w.copy.buf,
          k.room,
          size,
        );
        ended = λ q. (let bad : true ≡ false = sym q ∙ open_end in cc);
      })
    ]

pub empties :
    (c : CopyBuffer)
    → ((c.pos == c.cap) && not c.read_done) ≡ true
    → (c.pos ≡ c.cap) × (c.read_done ≡ false)
empties c h = ground (arith, h)

not_empties :
    (c : CopyBuffer)
    → ((c.pos == c.cap) && not c.read_done) ≡ false
    → c.pos ≡ c.cap
    → c.read_done ≢ false
not_empties c h = ground (arith, h)

pub fill_buffer-Keeps :
    (text : Bytes) (w : World) → Copying text w → Keeps text (Filled w) (fill_buffer w)
unfolding fill_buffer
fill_buffer-Keeps text w k =
    elim (Bool-cases ((w.copy.pos == w.copy.cap) && not w.copy.read_done)) [
      | inl e ↦ let both = empties w.copy e in rw e (by_arrivals both.0 both.1 w.arrivals refl)
      | inr e ↦ rw e (k, (omega arith, λ q d. absurd (not_empties w.copy e q d)))
    ]
  where
    by_arrivals :
        w.copy.pos ≡ w.copy.cap
        → w.copy.read_done ≡ false
        → (xs : List Arrival) → w.arrivals ≡ xs
        → Keeps text (Filled w) (read_from xs w)
    by_arrivals all open_end [] q = (k, tt)
    by_arrivals all open_end (Arrival.later ∷ xs) q = (k, tt)
    by_arrivals all open_end (Arrival.breaks e ∷ xs) q = (k, tt)
    by_arrivals all open_end (Arrival.arrived n ∷ xs) q =
        let v = record w { arrivals = xs } in
        let left = filled-arrivals (take (min (suc n) (length w.copy.buf)) w.source) v in
        let less : length w.arrivals ≡ suc (length xs) = ap length q in
        (
          filled-Copying text n v all open_end k,
          (rw left (omega (arith, less)), λ _ _. rw left (omega (arith, less))),
        )
