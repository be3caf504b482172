-- ===== src/Proto/Error.antt =====
-- crates/quantydb-proto/src/error.rs: the ways in which bytes are refused, and the codes that travel
-- inside an `Error` message.
use quanty_database.Prelude.{ℕ, ◌≡◌, refl, Option, none, some, ◌==◌, if◌then◌else◌, arith}

-- The `&'static str` of `ProtoError::Malformed`.
pub data Field : Type 0 where
  bool_byte reserved_byte refusal_reason handshake_status : Field

pub data ProtoError : Type 0 where
  truncated : (needed available : ℕ) → ProtoError
  too_large : (declared limit : ℕ) → ProtoError
  too_many_elements : (declared limit : ℕ) → ProtoError
  unknown_tag : ℕ → ProtoError
  malformed : Field → ProtoError
  bad_utf8 : ProtoError
  bad_magic : ProtoError
  unsupported_version : ℕ → ProtoError
  trailing_bytes : ℕ → ProtoError

pub data ErrorCode : Type 0 where
  protocol unsupported not_authenticated auth_failed parse execution : ErrorCode
  write_queue shutting_down : ErrorCode

unfoldable pub as_u16 : ErrorCode → ℕ
as_u16 protocol = 0x0001
as_u16 unsupported = 0x0002
as_u16 not_authenticated = 0x0003
as_u16 auth_failed = 0x0004
as_u16 parse = 0x0005
as_u16 execution = 0x0006
as_u16 write_queue = 0x0007
as_u16 shutting_down = 0x0008

unfoldable pub from_u16 : ℕ → Option ErrorCode
from_u16 v =
    if v == 0x0001
    then some protocol
    else if v == 0x0002
    then some unsupported
    else if v == 0x0003
    then some not_authenticated
    else if v == 0x0004
    then some auth_failed
    else if v == 0x0005
    then some parse
    else if v == 0x0006
    then some execution
    else if v == 0x0007
    then some write_queue
    else if v == 0x0008
    then some shutting_down
    else none

-- The code that travels determines the reason, and a number that is read as a reason is its code.
pub from_u16-as_u16 : (c : ErrorCode) → from_u16 (as_u16 c) ≡ some c
unfolding from_u16 as_u16
from_u16-as_u16 protocol = refl
from_u16-as_u16 _ = refl

pub as_u16-from_u16 : (v : ℕ) (c : ErrorCode) → from_u16 v ≡ some c → as_u16 c ≡ v
unfolding from_u16 as_u16
as_u16-from_u16 v c h = ground arith
