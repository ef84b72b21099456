-- ===== src/Frame/Codes.antt =====
-- The frozen numbering of the command bytes.
use zydecodb.Prelude.{ℕ, ◌≡◌, refl, some, arith}
use zydecodb.Frame.Command.{Command, put, as_u8, from_u8}

pub from_u8-as_u8 : (s : Command) → from_u8 (as_u8 s) ≡ some s
unfolding from_u8 as_u8
from_u8-as_u8 put = refl
from_u8-as_u8 _ = refl

pub as_u8_of_from_u8 : (b : ℕ) (s : Command) → from_u8 b ≡ some s → as_u8 s ≡ b
unfolding from_u8 as_u8
as_u8_of_from_u8 b s h = ground arith
