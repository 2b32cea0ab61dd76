-- ===== src/Replay.antt =====
-- lib/shadowsocks/src/security/replay/ppbloom.rs: two Bloom filters that take turns. The filter of
-- the crate `bloomfilter` is a parameter, with its rate of false positives fixed.
pub mod Recent
mod Tests
use roxy.Base.{ℕ, ◌+◌, ◌/◌, Bool, true, false, ◌||◌, leb, if◌then◌else◌}
use roxy.Base.Bytes.{Bytes}

pub record Bloom (B : Type 0) : Type 0 where
  pub new_for_fp_rate : ℕ → B
  pub check : B → Bytes → Bool
  pub set : B → Bytes → B
  pub clear : B → B

-- An index of the arrays of two.
pub data Side : Type 0 where
  zeroth first : Side

-- `(i + 1) % 2`
abbrev pub other : Side → Side
other zeroth = first
other first = zeroth

abbrev pub assign {ℓ} : {A : Type ℓ} → Side → A → (Side → A) → Side → A
assign zeroth v array zeroth = v
assign zeroth v array first = array first
assign first v array zeroth = array zeroth
assign first v array first = v

pub record PingPongBloom (B : Type 0) : Type 0 where
  pub blooms : Side → B
  pub bloom_count : Side → ℕ
  pub item_count : ℕ
  pub current : Side

module _ {B : Type 0} (f : Bloom B) where
  unfoldable pub new : PingPongBloom B
  new =
      let item_count = 10000 / 2 in
      record {
        blooms = λ _. f.new_for_fp_rate item_count;
        bloom_count = λ _. 0;
        item_count = item_count;
        current = zeroth;
      }

  -- The other filter, cleared, becomes the current one.
  abbrev pub turn : PingPongBloom B → PingPongBloom B
  turn p =
      let next = other p.current in
      record p {
        current = next;
        bloom_count = assign next 0 p.bloom_count;
        blooms = assign next (f.clear (p.blooms next)) p.blooms;
      }

  abbrev pub set_current : Bytes → PingPongBloom B → PingPongBloom B
  set_current buf p = record p {
    blooms = assign p.current (f.set (p.blooms p.current) buf) p.blooms;
    bloom_count = assign p.current (p.bloom_count p.current + 1) p.bloom_count;
  }

  unfoldable pub check_and_set : Bytes → PingPongBloom B → Bool × PingPongBloom B
  check_and_set buf p =
      if f.check (p.blooms zeroth) buf || f.check (p.blooms first) buf
      then (true, p)
      else if leb p.item_count (p.bloom_count p.current)
      then (false, set_current buf (turn p))
      else (false, set_current buf p)
