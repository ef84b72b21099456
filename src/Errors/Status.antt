-- ===== src/Errors/Status.antt =====
-- The status byte of a response: crates/zydecodb-engine/src/errors.rs.
use zydecodb.Prelude.{ℕ, Option, none, some, ◌==◌, if◌then◌else◌}

-- `enum Status`.
pub data Status : Type 0 where
  success not_found error conflict io_error invalid_key invalid_value engine_busy : Status
  protocol_error policy_rejected unsupported_format unauthorized forbidden : Status

-- `Status::as_u8`.
unfoldable pub as_u8 : Status → ℕ
as_u8 success = 0x00
as_u8 not_found = 0x01
as_u8 error = 0x02
as_u8 conflict = 0x03
as_u8 io_error = 0x04
as_u8 invalid_key = 0x05
as_u8 invalid_value = 0x06
as_u8 engine_busy = 0x07
as_u8 protocol_error = 0x08
as_u8 policy_rejected = 0x09
as_u8 unsupported_format = 0x0a
as_u8 unauthorized = 0x0b
as_u8 forbidden = 0x0c

-- `Status::from_u8`.
unfoldable pub from_u8 : ℕ → Option Status
from_u8 b =
    if b == 0x00
    then some success
    else if b == 0x01
    then some not_found
    else if b == 0x02
    then some error
    else if b == 0x03
    then some conflict
    else if b == 0x04
    then some io_error
    else if b == 0x05
    then some invalid_key
    else if b == 0x06
    then some invalid_value
    else if b == 0x07
    then some engine_busy
    else if b == 0x08
    then some protocol_error
    else if b == 0x09
    then some policy_rejected
    else if b == 0x0a
    then some unsupported_format
    else if b == 0x0b
    then some unauthorized
    else if b == 0x0c
    then some forbidden
    else none
