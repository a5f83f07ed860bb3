-- ===== src/Bytes/Words.antt =====
-- Two bytes and the `u16` that they make.
use melsec_mc.Prelude.{ℕ, ◌+◌, ◌/◌, ◌%◌, ◌≡◌, arith, get_or-All}
use melsec_mc.Bytes.{
  Bytes, IsByte, IsU16, IsBytes, from_le_bytes, from_be_bytes, to_le_bytes, to_be_bytes, le_at,
}

from_le_bytes-IsU16 : (a b : ℕ) → IsByte a → IsByte b → IsU16 (from_le_bytes a b)
from_le_bytes-IsU16 a b ha hb = omega arith

from_be_bytes-IsU16 : (a b : ℕ) → IsByte a → IsByte b → IsU16 (from_be_bytes a b)
from_be_bytes-IsU16 a b ha hb = omega arith

from_le-to_le : (w : ℕ) → IsU16 w → from_le_bytes (w % 256) (w / 256 % 256) ≡ w
from_le-to_le w h = omega arith

pub le_at-IsU16 : (buf : Bytes) (i : ℕ) → IsBytes buf → IsU16 (le_at buf i)
le_at-IsU16 buf i h = omega (
  arith,
  get_or-All IsByte buf i 0 h (omega arith),
  get_or-All IsByte buf (i + 1) 0 h (omega arith),
)

pub to_le_bytes-IsBytes : (w : ℕ) → IsBytes (to_le_bytes w)
to_le_bytes-IsBytes w = omega arith

to_be_bytes-IsBytes : (w : ℕ) → IsBytes (to_be_bytes w)
to_be_bytes-IsBytes w = omega arith
