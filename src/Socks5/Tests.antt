-- ===== src/Socks5/Tests.antt =====
-- The theorems on reply codes at concrete codes.
use roxy.Base.{◌≡◌}
use roxy.Socks5.{Reply, as_u8, from_u8}
use roxy.Socks5.Codes.{from_u8-as_u8}

from_u8-as_u8_example :
    (as_u8 (from_u8 5) ≡ 5) × (from_u8 (as_u8 Reply.ttl_expired) ≡ Reply.ttl_expired)
from_u8-as_u8_example = from_u8-as_u8 5 Reply.ttl_expired tt
