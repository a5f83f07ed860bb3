-- ===== src/Bytes.antt =====
-- Byte buffers of the standard library: checked reads and slices, and the conversions of `u16`
-- to and from two bytes. A byte is a number below 256.
pub mod Reads
pub mod Words
pub mod Bits
use melsec_mc.Prelude.{
  ℕ, ◌+◌, ◌-◌, ◌*◌, ◌/◌, ◌%◌, ◌^◌, ◌<◌, Bool, true, false, ◌&&◌, Option, none, some, List, [], ◌∷◌,
  ◌≡◌, arith, length, get_elem?, get_or, take, drop, All, leb, if◌then◌else◌,
}
use melsec_mc.Error.{Result, ok, panic, ◌>>=◌}

abbrev pub Bytes : Type 0
Bytes = List ℕ

abbrev pub IsByte : ℕ → Type 0
IsByte b = b < 256

abbrev pub IsU16 : ℕ → Type 0
IsU16 w = w < 65536

abbrev pub IsBytes : Bytes → Type 0
IsBytes = All IsByte

-- `buf[i]`
abbrev pub of_option {ℓ} : {A : Type ℓ} → Option A → Result A
of_option none = panic
of_option (some a) = ok a

pub byte_at : Bytes → ℕ → Result ℕ
byte_at buf i = of_option (get_elem? buf i)

-- `u16::from_le_bytes([a, b])` and `u16::from_be_bytes([a, b])`
abbrev pub from_le_bytes : ℕ → ℕ → ℕ
from_le_bytes a b = a + b * 256

abbrev pub from_be_bytes : ℕ → ℕ → ℕ
from_be_bytes a b = a * 256 + b

-- `w.to_le_bytes()` and `w.to_be_bytes()`
abbrev pub to_le_bytes : ℕ → Bytes
to_le_bytes w = (w % 256) ∷ (w / 256 % 256) ∷ []

abbrev pub to_be_bytes : ℕ → Bytes
to_be_bytes w = (w / 256 % 256) ∷ (w % 256) ∷ []

-- `u16::from_le_bytes([buf[i], buf[i + 1]])`
pub u16_at : Bytes → ℕ → Result ℕ
unfolding byte_at
u16_at buf i = do a ← byte_at buf i; b ← byte_at buf (i + 1); ok (from_le_bytes a b)

-- `&buf[lo..hi]`
unfoldable pub slice {ℓ} : {A : Type ℓ} → List A → ℕ → ℕ → Result (List A)
slice buf lo hi =
    if leb lo hi && leb hi (length buf) then ok (take (hi - lo) (drop lo buf)) else panic

-- What `u16_at` reads where it is in range.
abbrev pub le_at : Bytes → ℕ → ℕ
le_at buf i = from_le_bytes (get_or buf i 0) (get_or buf (i + 1) 0)
