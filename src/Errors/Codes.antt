-- ===== src/Errors/Codes.antt =====
-- The frozen numbering of the status bytes.
use zydecodb.Prelude.{ℕ, ◌≡◌, refl, some, arith}
use zydecodb.Errors.Status.{Status, as_u8, from_u8, success}

pub from_u8-as_u8 : (s : Status) → from_u8 (as_u8 s) ≡ some s
unfolding from_u8 as_u8
from_u8-as_u8 success = refl
from_u8-as_u8 _ = refl

pub as_u8_of_from_u8 : (b : ℕ) (s : Status) → from_u8 b ≡ some s → as_u8 s ≡ b
unfolding from_u8 as_u8
as_u8_of_from_u8 b s h = ground arith
