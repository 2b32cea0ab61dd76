-- ===== src/Socks5.antt =====
-- lib/shadowsocks/src/socks5.rs: reply codes and the errors of the address protocol.
pub mod Codes
mod Tests
use roxy.Base.{ℕ, ◌==◌, if◌then◌else◌}

-- The kinds of `std::io::ErrorKind` that the sources name; any other is `other`.
pub data ErrorKind : Type 0 where
  connection_refused unexpected_eof write_zero timed_out invalid_data other : ErrorKind

pub data Reply : Type 0 where
  succeeded general_failure connection_not_allowed network_unreachable : Reply
  host_unreachable connection_refused ttl_expired : Reply
  command_not_supported address_type_not_supported : Reply
  other_reply : ℕ → Reply

unfoldable pub as_u8 : Reply → ℕ
as_u8 Reply.succeeded = 0x00
as_u8 Reply.general_failure = 0x01
as_u8 Reply.connection_not_allowed = 0x02
as_u8 Reply.network_unreachable = 0x03
as_u8 Reply.host_unreachable = 0x04
as_u8 Reply.connection_refused = 0x05
as_u8 Reply.ttl_expired = 0x06
as_u8 Reply.command_not_supported = 0x07
as_u8 Reply.address_type_not_supported = 0x08
as_u8 (Reply.other_reply c) = c

unfoldable pub from_u8 : ℕ → Reply
from_u8 code =
    if code == 0x00
    then Reply.succeeded
    else if code == 0x01
    then Reply.general_failure
    else if code == 0x02
    then Reply.connection_not_allowed
    else if code == 0x03
    then Reply.network_unreachable
    else if code == 0x04
    then Reply.host_unreachable
    else if code == 0x05
    then Reply.connection_refused
    else if code == 0x06
    then Reply.ttl_expired
    else if code == 0x07
    then Reply.command_not_supported
    else if code == 0x08
    then Reply.address_type_not_supported
    else Reply.other_reply code

-- `Error`; an I/O error is its kind.
pub data Error : Type 0 where
  io : ErrorKind → Error
  address_type_not_supported : ℕ → Error
  address_domain_invalid_encoding : Error
  unsupported_socks_version : ℕ → Error
  unsupported_command : ℕ → Error
  unsupported_passwd_auth_version : ℕ → Error
  passwd_auth_invalid_request : Error
  reply : Reply → Error

io_reply : ErrorKind → Reply
io_reply ErrorKind.connection_refused = Reply.connection_refused
io_reply _ = Reply.general_failure

unfoldable pub as_reply : Error → Reply
unfolding io_reply
as_reply (Error.io kind) = io_reply kind
as_reply (Error.address_type_not_supported _) = Reply.address_type_not_supported
as_reply Error.address_domain_invalid_encoding = Reply.general_failure
as_reply (Error.unsupported_socks_version _) = Reply.general_failure
as_reply (Error.unsupported_command _) = Reply.command_not_supported
as_reply (Error.unsupported_passwd_auth_version _) = Reply.general_failure
as_reply Error.passwd_auth_invalid_request = Reply.general_failure
as_reply (Error.reply r) = r

-- `From<Error> for io::Error`: an I/O error passes through, the rest becomes `ErrorKind::Other`.
unfoldable pub into_io : Error → ErrorKind
into_io (Error.io kind) = kind
into_io _ = ErrorKind.other
