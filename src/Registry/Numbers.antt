-- ===== src/Registry/Numbers.antt =====
-- `write_n_bytes`: the bytes it writes.
use native.Mathlib.Nat.{pow-suc}
use melsec_mc.Prelude.{
  ℕ, zero, suc, ◌+◌, ◌*◌, ◌/◌, ◌^◌, ◌<◌, ◌≡◌, refl, ◌∙◌, ap, arith, true, false, [], ◌∷◌, length,
  drop, drop-append_length, take, take-append_length, length-append, if◌then◌else◌, Bool,
}
use mathlib.Core.List.{reverse, reverse-reverse, reverse-cons}
use melsec_mc.Bytes.{Bytes, IsBytes}
use melsec_mc.Bytes.Bits.{bit_and_0xff}
use melsec_mc.Registry.{low_bytes, write_n_bytes}

-- The number that bytes stand for, from the low end.
pub le_number : Bytes → ℕ
le_number [] = 0
le_number (b ∷ bs) = b + 256 * le_number bs

pub length-low_bytes : (n v : ℕ) → length (low_bytes n v) ≡ n
unfolding low_bytes
length-low_bytes zero v = refl
length-low_bytes (suc n) v = ap suc (length-low_bytes n (v / 256))

pub low_bytes-IsBytes : (n v : ℕ) → IsBytes (low_bytes n v)
unfolding low_bytes
low_bytes-IsBytes zero v = tt
low_bytes-IsBytes (suc n) v = (omega (arith, bit_and_0xff v), low_bytes-IsBytes n (v / 256))

pub le_number-low_bytes : (n v : ℕ) → v < 256 ^ n → le_number (low_bytes n v) ≡ v
unfolding low_bytes le_number
le_number-low_bytes zero v h = omega arith
le_number-low_bytes (suc n) v h =
    omega (arith, bit_and_0xff v, le_number-low_bytes n (v / 256) (omega (arith, pow-suc 256 n)))

-- The bytes in the order from the low end.
abbrev pub from_low : Bool → Bytes → Bytes
from_low true bs = bs
from_low false bs = reverse bs

low_bytes-from_low :
    (n v : ℕ) (le : Bool)
    → from_low le (if le then low_bytes n v else reverse (low_bytes n v)) ≡ low_bytes n v
low_bytes-from_low n v true = refl
low_bytes-from_low n v false = reverse-reverse (low_bytes n v)

length-reverse : (bs : Bytes) → length (reverse bs) ≡ length bs
length-reverse [] = refl
length-reverse (b ∷ bs) =
    rw (reverse-cons b bs) (omega (arith, length-append (reverse bs) (b ∷ []), length-reverse bs))

length-written :
    (n v : ℕ) (le : Bool) → length (if le then low_bytes n v else reverse (low_bytes n v)) ≡ n
length-written n v true = length-low_bytes n v
length-written n v false = length-reverse (low_bytes n v) ∙ length-low_bytes n v

-- A number that fits `n` bytes is written as `n` bytes behind what was there, and they stand for
-- it: from the low end in little-endian order, from the high end in big-endian order.
pub write_n_bytes_lem :
    (out : Bytes) (n v : ℕ) (le : Bool)
    → v < 256 ^ n
    → (length (write_n_bytes out n v le) ≡ length out + n)
      × (take (length out) (write_n_bytes out n v le) ≡ out)
      × (le_number (from_low le (drop (length out) (write_n_bytes out n v le))) ≡ v)
unfolding write_n_bytes
write_n_bytes_lem out n v le h = (
  length-append out _ ∙ ap (λ k. length out + k) (length-written n v le),
  take-append_length (length out) out _ refl,
  rw
      (
        drop-append_length (length out) out (if le then low_bytes n v else reverse (low_bytes n v))
            refl,
        low_bytes-from_low n v le,
      )
      (le_number-low_bytes n v h),
)
