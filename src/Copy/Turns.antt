-- ===== src/Copy/Turns.antt =====
-- The rounds of a copy keep it, and come to an end.
use roxy.Base.{
  ℕ, zero, suc, ◌+◌, ◌-◌, ◌%◌, ◌^◌, ◌<◌, ◌≡◌, refl, sym, ap, ◌∙◌, inl, inr, true, false, ◌&&◌,
  Bool-cases, Option, some, [], ◌++◌, append-nil, length, take, drop, ◌==◌, arith,
}
use roxy.Base.Bytes.{Bytes}
use roxy.Socks5.{ErrorKind}
use roxy.Aead.Frames.{Poll}
use roxy.Copy.{
  World, Step, go, stop, fill_buffer, write_out, Flush, later, flushes, breaks, flushed, finish,
  and_then, turn, rounds, poll_copy,
}
use roxy.Copy.Kept.{
  unsent, Copying, Ends, Keeps, and_then-Keeps, Written, write_out-Keeps, Filled, fill_buffer-Keeps,
}

-- A round that goes on: what was read is written out, and the reader has not ended.
abbrev pub Turned : World → World → Type 0
Turned w v = (v.copy.pos ≡ v.copy.cap) × (v.copy.read_done ≡ false) × Filled w v

finish-Keeps :
    (text : Bytes) (flush : Flush) (w v u : World)
    → Filled w u
    → Copying text v
    → Written u v
    → Keeps text (Turned w) (finish flush v)
unfolding finish
finish-Keeps text flush w v u f k (all, same, left) =
    elim (Bool-cases ((v.copy.pos == v.copy.cap) && v.copy.read_done)) [
      | inl e ↦
          let over : v.copy.read_done ≡ true = ground (arith, e) in
          rw e (by_flush (k.ended over) flush)
      | inr e ↦
          let open_end : v.copy.read_done ≡ false = ground (arith, e, all) in
          rw e (k, (all, open_end, rw left f))
    ]
  where
    by_flush : v.source ≡ [] → (g : Flush) → Keeps text (Turned w) (flushed g v)
    by_flush none_left later = (k, tt)
    by_flush none_left (breaks e) = (k, tt)
    by_flush none_left flushes =
        let zero_left : v.copy.cap - v.copy.pos ≡ 0 = omega (arith, all) in
        let whole : v.sent ≡ text =
          sym (append-nil v.sent)
          ∙ ap (λ n. v.sent ++ take n (drop v.copy.pos v.copy.buf)) (sym zero_left)
          ∙ ap (λ l. v.sent ++ l) (sym (append-nil (unsent v.copy)))
          ∙ ap (λ l. v.sent ++ (unsent v.copy ++ l)) (sym none_left)
          ∙ k.bytes in
        (k, (whole, k.counted ∙ ap (λ l. length l % 2 ^ 64) whole))

turn-Keeps :
    (text : Bytes) (flush : Flush) (w : World)
    → Copying text w
    → Keeps text (Turned w) (turn flush w)
unfolding turn
turn-Keeps text flush w k =
    and_then-Keeps text (λ v. (u : World) × Filled w u × Written u v) (Turned w)
      (and_then (fill_buffer w) (λ v. write_out v.answers v)) (finish flush)
      (and_then-Keeps text (Filled w) (λ v. (u : World) × Filled w u × Written u v) (fill_buffer w)
        (λ v. write_out v.answers v) (fill_buffer-Keeps text w k)
        (λ u c f. written text u f (write_out u.answers u) (write_out-Keeps text u.answers u c)))
      (λ v c h. finish-Keeps text flush w v h.0 h.1 c h.2)
  where
    written :
        (text : Bytes) (u : World)
        → Filled w u
        → (s : Step) → Keeps text (Written u) s
        → Keeps text (λ v. (u : World) × Filled w u × Written u v) s
    written text u f (go v) h = (h.0, (u, f, h.1))
    written text u f (stop p v) h = h

-- The outcome of a poll: the copy is kept, and a poll that is ready has copied it all.
pub record Polled (text : Bytes) (found : Option (Poll ErrorKind ℕ × World)) : Type 0 where
  pub poll : Poll ErrorKind ℕ
  pub world : World
  pub is : found ≡ some (poll, world)
  pub copying : Copying text world
  pub ends : Ends text poll world

-- A round, and the rounds behind it.
round-Polled :
    (text : Bytes) (flush : Flush) (fuel : ℕ) (w : World) (s : Step)
    → turn flush w ≡ s
    → Keeps text (Turned w) s
    → ((v : World) → Copying text v → Turned w v → Polled text (rounds fuel flush v))
    → Polled text (rounds (suc fuel) flush w)
unfolding rounds
round-Polled text flush fuel w (stop p v) e k rest = record {
  poll = p;
  world = v;
  is = rw (e, rounds) refl;
  copying = k.0;
  ends = k.1;
}
round-Polled text flush fuel w (go v) e k rest =
    let r = rest v k.0 k.1 in
    record {
      poll = r.poll;
      world = r.world;
      is = rw (e, rounds) r.is;
      copying = r.copying;
      ends = r.ends;
    }

rounds_again-Polled :
    (text : Bytes) (flush : Flush) (fuel : ℕ) (w : World)
    → Copying text w
    → w.copy.pos ≡ w.copy.cap
    → w.copy.read_done ≡ false
    → length w.arrivals < fuel
    → Polled text (rounds fuel flush w)
rounds_again-Polled text flush zero w k all open_end h = absurd (omega arith)
rounds_again-Polled text flush (suc fuel) w k all open_end h =
    round-Polled text flush fuel w (turn flush w) refl (turn-Keeps text flush w k) λ v c t.
      rounds_again-Polled text flush fuel v c t.0 t.1 (omega (arith, h, t.2.1 all open_end))

-- A poll of a copy does not panic and comes to an end within the rounds that it has, whatever the
-- reader and the writer answer; what the writer took, the buffer and what the reader has yet to give
-- stay the text in order, `amt` counts what the writer took modulo 2^64, and a poll that is ready has
-- copied the whole text and returns its length.
pub poll_copy-Polled :
    (text : Bytes) (flush : Flush) (w : World) → Copying text w → Polled text (poll_copy flush w)
unfolding poll_copy
poll_copy-Polled text flush w k =
    let enough : length w.arrivals + 2 ≡ suc (suc (length w.arrivals)) = omega arith in
    rw enough (
      round-Polled text flush (suc (length w.arrivals)) w (turn flush w) refl
        (turn-Keeps text flush w k)
        λ v c t.
          rounds_again-Polled text flush (suc (length w.arrivals)) v c t.0 t.1
            (omega (arith, t.2.0)))
