-- ===== src/Copy/Finish.antt =====
-- A copy whose reader and writer always answer comes to its end.
use mathlib.Core.Option.{some-injective}
use roxy.Base.{
  ℕ, zero, suc, ◌+◌, ◌-◌, ◌%◌, ◌^◌, ◌≤◌, ◌<◌, ◌≡◌, refl, sym, ap, ◌∙◌, min, inl, inr, ◌⊎◌, true,
  false, not, ◌&&◌, Bool-cases, Option, some, List, [], ◌∷◌, length, length-append, length-take,
  length-drop, take, drop, ltb, ◌==◌, arith,
}
use roxy.Base.Bytes.{Bytes}
use roxy.Socks5.{ErrorKind}
use roxy.Aead.Frames.{Poll, ready, fail}
use roxy.Aead.Writer.{Answer}
use roxy.Aead.Reader.{Arrival}
use roxy.Copy.{
  World, Step, go, stop, filled, read_from, fill_buffer, advanced, write_out, flushes, finish,
  and_then, turn, rounds, poll_copy,
}
use roxy.Copy.Kept.{Copying, Ends, empties}
use roxy.Copy.Turns.{poll_copy-Polled}

-- The reader never waits, and the writer always takes a byte.
abbrev pub AllArrive : List Arrival → Type 0
AllArrive [] = Unit
AllArrive (Arrival.arrived n ∷ xs) = AllArrive xs
AllArrive (_ ∷ xs) = true ≡ false

abbrev pub AllTake : List Answer → Type 0
AllTake [] = Unit
AllTake (Answer.takes n ∷ xs) = (0 < n) × AllTake xs
AllTake (_ ∷ xs) = true ≡ false

-- There are answers enough for what is left.
pub record IsServed (w : World) : Type 0 where
  pub arrive : AllArrive w.arrivals
  pub taken : AllTake w.answers
  pub reads : length w.source < length w.arrivals ⊎ (w.copy.read_done ≡ true)
  pub writes : (w.copy.cap - w.copy.pos) + length w.source ≤ length w.answers
  pub room : 0 < length w.copy.buf

-- A part of the loop goes on, or the copy is ready.
abbrev Lives : Step → Type 0
Lives (go w) = IsServed w
Lives (stop p w) = (n : ℕ) × (p ≡ ready n)

and_then-Lives :
    (s : Step) (next : World → Step)
    → Lives s
    → ((v : World) → IsServed v → Lives (next v))
    → Lives (and_then s next)
and_then-Lives (go w) next h f = f w h
and_then-Lives (stop p w) next h f = h

write_out-Lives :
    (xs : List Answer) (w : World)
    → AllArrive w.arrivals
    → AllTake xs
    → length w.source < length w.arrivals ⊎ (w.copy.read_done ≡ true)
    → (w.copy.cap - w.copy.pos) + length w.source ≤ length xs
    → 0 < length w.copy.buf
    → Lives (write_out xs w)
unfolding write_out
write_out-Lives [] w arrive taken reads writes room =
    let over : ltb w.copy.pos w.copy.cap ≡ false = ground (arith, writes) in
    rw over (record { arrive = arrive; taken = tt; reads = reads; writes = writes; room = room })
write_out-Lives (Answer.later ∷ xs) w arrive taken reads writes room = cc
write_out-Lives (Answer.breaks e ∷ xs) w arrive taken reads writes room = cc
write_out-Lives (Answer.takes k ∷ xs) w arrive taken reads writes room =
    elim (Bool-cases (ltb w.copy.pos w.copy.cap)) [
      | inr e ↦
          rw (e, write_out)
            (record { arrive = arrive; taken = taken; reads = reads; writes = writes; room = room })
      | inl e ↦
          rw (e, write_out)
            (by_count
              (λ m le.
                write_out-Lives xs (advanced (suc m) w) arrive taken.1 reads
                  (omega (arith, writes, le)) room)
              (min k (w.copy.cap - w.copy.pos)) (ground (arith, e, taken.0)) (omega arith))
    ]
  where
    by_count :
        ((m : ℕ) → suc m ≤ w.copy.cap - w.copy.pos → Lives (write_out xs (advanced (suc m) w)))
        → (n : ℕ) → 0 < n
        → n ≤ w.copy.cap - w.copy.pos
        → Lives (elim n as (λ _. Step) [
          | zero ↦ stop (fail ErrorKind.write_zero) (record w { answers = xs })
          | suc m ↦ write_out xs (advanced (suc m) w)
        ])
    by_count rest zero pos le = absurd (omega arith)
    by_count rest (suc m) pos le = rest m le

still_open :
    (w : World) → IsServed w → w.copy.read_done ≡ false → length w.source < length w.arrivals
still_open w h open_end = elim h.reads [
  | inl less ↦ less
  | inr d ↦ (let bad : true ≡ false = sym d ∙ open_end in cc)
]

filled-IsServed :
    (n : ℕ) (xs : List Arrival) (w : World)
    → IsServed w
    → w.arrivals ≡ Arrival.arrived n ∷ xs
    → w.copy.pos ≡ w.copy.cap
    → w.copy.read_done ≡ false
    → IsServed
        (filled (take (min (suc n) (length w.copy.buf)) w.source) (record w { arrivals = xs }))
filled-IsServed n xs w h e all open_end =
    let got = take (min (suc n) (length w.copy.buf)) w.source in
    let size = length-take (min (suc n) (length w.copy.buf)) w.source in
    let more : length w.arrivals ≡ suc (length xs) = ap length e in
    let arrive : AllArrive xs = rw e at h.arrive in
    let left = length-drop (length got) w.source in
    let less = still_open w h open_end in
    elim (Bool-cases (length got == 0)) [
      | inl z ↦ rw z (record {
        arrive = arrive;
        taken = h.taken;
        reads = inr refl;
        writes = h.writes;
        room = h.room;
      })
      | inr z ↦
          let some_got : 0 < length got = ground (arith, z) in
          rw z (record {
            arrive = arrive;
            taken = h.taken;
            reads = inl (omega (arith, left, less, more, some_got));
            writes = omega (arith, left, size, h.writes);
            room = omega (arith, length-append got (drop (length got) w.copy.buf), some_got);
          })
    ]

fill_buffer-Lives : (w : World) → IsServed w → Lives (fill_buffer w)
unfolding fill_buffer
fill_buffer-Lives w h = elim (Bool-cases ((w.copy.pos == w.copy.cap) && not w.copy.read_done)) [
  | inl e ↦ (let both = empties w.copy e in rw e (by_arrivals both.0 both.1 w.arrivals refl))
  | inr e ↦ rw e h
]
  where
    by_arrivals :
        w.copy.pos ≡ w.copy.cap
        → w.copy.read_done ≡ false
        → (xs : List Arrival) → w.arrivals ≡ xs
        → Lives (read_from xs w)
    by_arrivals all open_end [] e =
        let gone : length w.arrivals ≡ 0 = ap length e in
        absurd (omega (arith, still_open w h open_end, gone))
    by_arrivals all open_end (Arrival.later ∷ xs) e =
        (let bad : true ≡ false = rw e at h.arrive in cc)
    by_arrivals all open_end (Arrival.breaks x ∷ xs) e =
        (let bad : true ≡ false = rw e at h.arrive in cc)
    by_arrivals all open_end (Arrival.arrived n ∷ xs) e = filled-IsServed n xs w h e all open_end

finish-Lives : (w : World) → IsServed w → Lives (finish flushes w)
unfolding finish
finish-Lives w h = elim (Bool-cases ((w.copy.pos == w.copy.cap) && w.copy.read_done)) [
  | inl e ↦ rw e (w.copy.amt, refl)
  | inr e ↦ rw e h
]

turn-Lives : (w : World) → IsServed w → Lives (turn flushes w)
unfolding turn
turn-Lives w h =
    and_then-Lives (and_then (fill_buffer w) (λ v. write_out v.answers v)) (finish flushes)
      (and_then-Lives (fill_buffer w) (λ v. write_out v.answers v) (fill_buffer-Lives w h)
        (λ v k. write_out-Lives v.answers v k.arrive k.taken k.reads k.writes k.room))
      finish-Lives

rounds-ready :
    (fuel : ℕ) (w v : World) (p : Poll ErrorKind ℕ)
    → IsServed w
    → rounds fuel flushes w ≡ some (p, v)
    → (n : ℕ) × (p ≡ ready n)
unfolding rounds
rounds-ready zero w v p h e = cc
rounds-ready (suc fuel) w v p h e =
    by_step (turn flushes w) (turn-Lives w h) (λ u k. rounds-ready fuel u v p k) e
  where
    by_step :
        (s : Step)
        → Lives s
        → ((u : World) → IsServed u → rounds fuel flushes u ≡ some (p, v) → (n : ℕ) × (p ≡ ready n))
        → elim s as (λ _. Option (Poll ErrorKind ℕ × World)) [
          | stop q u ↦ some (q, u)
          | go u ↦ rounds fuel flushes u
        ]
          ≡ some (p, v)
        → (n : ℕ) × (p ≡ ready n)
    by_step (go u) k rest f = rest u k f
    by_step (stop q u) k rest f = (
      k.0,
      (let same = some-injective _ _ f in
          ap (λ (x : Poll ErrorKind ℕ × World). x.0) (sym same) ∙ k.1),
    )

-- A copy whose reader always gives and whose writer always takes a byte, with more answers of the
-- reader than bytes to read and as many of the writer as bytes to write, and whose writer flushes,
-- is ready after one poll, with the whole text copied, and returns its length modulo 2^64.
pub poll_copy_finishes :
    (text : Bytes) (w : World)
    → Copying text w
    → IsServed w
    → (v : World) × (poll_copy flushes w ≡ some (ready (length text % 2 ^ 64), v)) × (v.sent ≡ text)
unfolding poll_copy
poll_copy_finishes text w k h =
    let r = poll_copy-Polled text flushes w k in
    let (n, e) = rounds-ready (length w.arrivals + 2) w r.world r.poll h r.is in
    let done : Ends text (ready n) r.world = rw e at r.ends in
    (r.world, r.is ∙ ap (λ q. some (q, r.world)) (e ∙ ap ready done.1), done.0)
