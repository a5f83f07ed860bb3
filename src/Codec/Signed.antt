-- ===== src/Codec/Signed.antt =====
-- Two's complement at half the modulus `h`.
use melsec_mc.Prelude.{ℤ, pos, negsuc, ℕ, ◌*◌, ◌<◌, ◌≡◌, arith}
use melsec_mc.Codec.{signed, unsigned}

-- The integers of the signed type: -h to h - 1.
abbrev pub IsSigned : ℕ → ℤ → Type 0
IsSigned h (pos n) = n < h
IsSigned h (negsuc n) = n < h

pub signed-unsigned : (h : ℕ) (v : ℤ) → IsSigned h v → signed h (unsigned h v) ≡ v
unfolding signed unsigned
signed-unsigned h (pos n) k = ground arith
signed-unsigned h (negsuc n) k = ground arith

pub unsigned-lt : (h : ℕ) (v : ℤ) → IsSigned h v → unsigned h v < 2 * h
unfolding unsigned
unsigned-lt h (pos n) k = omega arith
unsigned-lt h (negsuc n) k = omega arith
