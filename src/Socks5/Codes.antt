-- ===== src/Socks5/Codes.antt =====
-- Reply codes against the wire bytes.
use roxy.Base.{ℕ, ◌≤◌, ◌≡◌, arith}
use roxy.Socks5.{Reply, as_u8, from_u8}

-- A reply that a byte can name: an `other_reply` holds no code of the nine named replies.
abbrev pub IsCanonical : Reply → Type 0
IsCanonical (Reply.other_reply c) = 9 ≤ c
IsCanonical _ = Unit

-- Decoding any code and encoding the reply gives the code back, and the reply is canonical;
-- encoding a canonical reply and decoding the code gives the reply back.
pub from_u8-as_u8 :
    (code : ℕ) (r : Reply) → IsCanonical r → (as_u8 (from_u8 code) ≡ code) × (from_u8 (as_u8 r) ≡ r)
unfolding as_u8 from_u8
from_u8-as_u8 code Reply.succeeded h = ground arith
from_u8-as_u8 code _ h = ground arith
