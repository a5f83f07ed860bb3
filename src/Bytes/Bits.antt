-- ===== src/Bytes/Bits.antt =====
-- `|`, `&` and shifts on machine words, as arithmetic. The native operations go digit by digit on
-- a count; first the count is shown not to matter.
use Prim.Native.Nat.{max, digits, bitwise, bit_and, bit_or, bit_and-bitwise, bit_or-bitwise}
use native.Mathlib.Nat.{pow-suc}
use melsec_mc.Prelude.{
  ℕ, zero, suc, ◌+◌, ◌*◌, ◌/◌, ◌%◌, ◌^◌, ◌≤◌, ◌<◌, ◌≡◌, refl, sym, ap, ◌∙◌, arith, min,
}

infixl 75 ◌<<◌ ◌>>◌
abbrev pub ◌<<◌ : ℕ → ℕ → ℕ
x << k = x * 2 ^ k

abbrev pub ◌>>◌ : ℕ → ℕ → ℕ
x >> k = x / 2 ^ k

-- One digit at a time, for an operation `f` that gives `z b` at 0 and `b`.
module _ (z : ℕ → ℕ) (f : ℕ → ℕ → ℕ) (at_zero : (b : ℕ) → z b ≡ z (b / 2) * 2 + f 0 (b % 2)) where
  spent : (count b : ℕ) → digits z f count 0 b ≡ z b
  spent zero b = refl
  spent (suc count) b = refl

  -- Any two counts that cover the first number give the same.
  enough : (a b m n : ℕ) → a ≤ m → a ≤ n → digits z f m a b ≡ digits z f n a b
  enough zero b m n p q = spent m b ∙ sym (spent n b)
  enough (suc a) b zero n p q = absurd (omega arith)
  enough (suc a) b (suc m) zero p q = absurd (omega arith)
  enough (suc a) b (suc m) (suc n) p q =
      ap (λ (t : ℕ). t * 2 + f (suc a % 2) (b % 2))
        (enough (suc a / 2) (b / 2) m n (omega arith) (omega arith))

  first_digit : (a b : ℕ) → bitwise z f a b ≡ bitwise z f (a / 2) (b / 2) * 2 + f (a % 2) (b % 2)
  first_digit zero b = at_zero b
  first_digit (suc a) b =
      ap (λ (t : ℕ). t * 2 + f (suc a % 2) (b % 2))
        (enough (suc a / 2) (b / 2) a (suc a / 2) (omega arith) (omega arith))

or_digit : (a b : ℕ) → bit_or a b ≡ bit_or (a / 2) (b / 2) * 2 + max (a % 2) (b % 2)
or_digit a b =
    bit_or-bitwise a b
    ∙ first_digit (λ y. y) max (λ c. omega arith) a b
    ∙ ap (λ (t : ℕ). t * 2 + max (a % 2) (b % 2)) (sym (bit_or-bitwise (a / 2) (b / 2)))

and_digit : (a b : ℕ) → bit_and a b ≡ bit_and (a / 2) (b / 2) * 2 + min (a % 2) (b % 2)
and_digit a b =
    bit_and-bitwise a b
    ∙ first_digit (λ y. 0) min (λ c. omega arith) a b
    ∙ ap (λ (t : ℕ). t * 2 + min (a % 2) (b % 2)) (sym (bit_and-bitwise (a / 2) (b / 2)))

-- With 0 on the right, on a count of digits.
or_right : (n a : ℕ) → a ≤ n → bit_or a 0 ≡ a
or_right n zero h = bit_or-bitwise 0 0
or_right zero (suc a) h = absurd (omega arith)
or_right (suc n) (suc a) h = omega (arith, or_digit (suc a) 0, or_right n (suc a / 2) (omega arith))

and_right : (n a : ℕ) → a ≤ n → bit_and a 0 ≡ 0
and_right n zero h = bit_and-bitwise 0 0
and_right zero (suc a) h = absurd (omega arith)
and_right (suc n) (suc a) h =
    omega (arith, and_digit (suc a) 0, and_right n (suc a / 2) (omega arith))

half_shift : (q k : ℕ) → q << suc k ≡ 2 * (q << k)
half_shift q k = omega (arith, ap (λ (t : ℕ). q * t) (pow-suc 2 k))

-- Fields that do not overlap: `(q << k) | r`, and `r | (q << k)`.
pub bit_or_high : (k q r : ℕ) → r < 2 ^ k → bit_or (q << k) r ≡ (q << k) + r
bit_or_high zero q r h = ground (arith, or_right q q)
bit_or_high (suc k) q r h = ground (
  arith,
  or_digit (q << suc k) r,
  half_shift q k,
  pow-suc 2 k,
  bit_or_high k q (r / 2) (omega (arith, pow-suc 2 k)),
)

pub bit_or_low : (k q r : ℕ) → r < 2 ^ k → bit_or r (q << k) ≡ r + (q << k)
bit_or_low zero q r h = ground (arith, bit_or-bitwise 0 q)
bit_or_low (suc k) q r h = ground (
  arith,
  or_digit r (q << suc k),
  half_shift q k,
  pow-suc 2 k,
  bit_or_low k q (r / 2) (omega (arith, pow-suc 2 k)),
)

-- `a & (2^k - 1)`, at the widths of the code.
pub bit_and_1 : (a : ℕ) → bit_and a 1 ≡ a % 2
bit_and_1 a = omega (arith, and_digit a 1, and_right (a / 2) (a / 2) (omega arith))

bit_and_0x0f : (a : ℕ) → bit_and a 0x0F ≡ a % 16
bit_and_0x0f a =
    omega (
      arith,
      and_digit a 15,
      and_digit (a / 2) 7,
      and_digit (a / 2 / 2) 3,
      bit_and_1 (a / 2 / 2 / 2),
    )

pub bit_and_0xff : (a : ℕ) → bit_and a 0xFF ≡ a % 256
bit_and_0xff a = omega (
  arith,
  and_digit a 255,
  and_digit (a / 2) 127,
  and_digit (a / 2 / 2) 63,
  and_digit (a / 2 / 2 / 2) 31,
  bit_and_0x0f (a / 2 / 2 / 2 / 2),
)

and_12_bits : (a : ℕ) → bit_and a 0xFFF ≡ a % 4096
and_12_bits a = omega (
  arith,
  and_digit a 0xFFF,
  and_digit (a / 2) 0x7FF,
  and_digit (a / 2 / 2) 0x3FF,
  and_digit (a / 2 / 2 / 2) 0x1FF,
  bit_and_0xff (a / 2 / 2 / 2 / 2),
)

pub bit_and_0xffff : (a : ℕ) → bit_and a 0xFFFF ≡ a % 65536
bit_and_0xffff a = omega (
  arith,
  and_digit a 0xFFFF,
  and_digit (a / 2) 0x7FFF,
  and_digit (a / 2 / 2) 0x3FFF,
  and_digit (a / 2 / 2 / 2) 0x1FFF,
  and_12_bits (a / 2 / 2 / 2 / 2),
)
