-- ===== src/Aead/Reader/Loop.antt =====
-- `DecryptedReader::poll_read_decrypted`: the loop over the states of the reader.
use roxy.Base.{
  ℕ, zero, suc, ◌+◌, ◌*◌, ◌-◌, min, Bool, true, false, Option, none, some, [], length, take, drop,
  ltb,
}
use roxy.Base.Bytes.{Bytes}
use roxy.Crypto.{Primitives}
use roxy.Aead.Frames.{Poll, pending, panic, ready, fail, ProtocolError}
use roxy.Aead.Reader.{
  DecryptReadState, wait_salt, read_length, read_data, buffered_data, World, with_reader,
  poll_read_salt, poll_read_length, poll_read_data,
}

-- One round of the loop: another one, or the result and the bytes put into the caller's buffer.
pub data Turn : Type 0 where
  again : World → Turn
  return : Poll ProtocolError Unit → Bytes → World → Turn

-- A step that has not ended well ends the poll.
abbrev pub or_return : {A : Type 0} → Poll ProtocolError A × World → (A → World → Turn) → Turn
or_return (pending, w) next = return pending [] w
or_return (panic, w) next = return panic [] w
or_return (fail e, w) next = return (fail e) [] w
or_return (ready a, w) next = next a w

abbrev pub start_length : Bool → World → World
start_length handshaked w =
    with_reader w (record w.reader { buffer = []; state = read_length; handshaked = handshaked })

-- What follows a length that was read; without one the stream has ended.
abbrev pub after_length : Option ℕ → World → Turn
after_length none w' = return (ready tt) [] w'
after_length (some size) w' =
    again (with_reader w' (record w'.reader { buffer = []; state = read_data size }))

module _ (p : Primitives) where
  -- `room` is the space left in the caller's buffer.
  unfoldable pub turn : ℕ → DecryptReadState → World → Turn
  unfolding poll_read_salt poll_read_length poll_read_data
  turn room (wait_salt key) w =
      or_return (poll_read_salt p key w) λ _ w'. again (start_length true w')
  turn room read_length w = or_return (poll_read_length p w) after_length
  turn room (read_data size) w =
      or_return (poll_read_data p size w)
        λ _ w'. again (with_reader w' (record w'.reader { state = buffered_data 0 }))
  turn room (buffered_data pos) w = elim (ltb pos (length w.reader.buffer)) [
    | false ↦ again (start_length w.reader.handshaked w)
    | true ↦
        let consumed = min (length w.reader.buffer - pos) room in
        return (ready tt) (take consumed (drop pos w.reader.buffer))
          (with_reader w (record w.reader { state = buffered_data (pos + consumed) }))
  ]

  -- The loop, for at most `fuel` rounds; `none` where they do not suffice.
  unfoldable pub rounds : ℕ → ℕ → World → Option (Poll ProtocolError Unit × Bytes × World)
  unfolding turn
  rounds zero room w = none
  rounds (suc fuel) room w = elim (turn room w.reader.state w) [
    | return poll out w' ↦ some (poll, out, w')
    | again w' ↦ rounds fuel room w'
  ]

  -- Each read takes an answer of the stream, and each buffer that was read is given out or dropped.
  unfoldable pub poll_read_decrypted : ℕ → World → Option (Poll ProtocolError Unit × Bytes × World)
  unfolding rounds
  poll_read_decrypted room w = rounds (2 * length w.arrivals + 2) room w
