-- ===== src/Registry/Nibbles.antt =====
-- The points that `create_write_bits_params` packs, two to a byte, and `nibbles_at` reads.
use Prim.Native.Nat.{bit_and, bit_or}
use melsec_mc.Prelude.{
  ℕ, ◌+◌, ◌/◌, ◌%◌, ◌^◌, ◌≡◌, refl, ◌∙◌, Bool, true, false, List, [], ◌∷◌, ◌++◌, arith, length,
  length-append, append_assoc, sym,
}
use melsec_mc.Error.{ok}
use melsec_mc.Bytes.{Bytes}
use melsec_mc.Bytes.Reads.{byte_at-append}
use melsec_mc.Bytes.Bits.{◌<<◌}
use melsec_mc.Registry.Response.{nibbles_of, nibbles_at}

-- `u8::from(v)`
abbrev u8_of : Bool → ℕ
u8_of true = 1
u8_of false = 0

unfoldable pub pack_byte : ℕ → ℕ → ℕ
pack_byte high low = bit_or ((high << 4) % 2 ^ 8) (bit_and low 0x0F)

-- The loop of `create_write_bits_params`.
unfoldable pub pack_nibbles : List Bool → Bytes
unfolding pack_byte
pack_nibbles [] = []
pack_nibbles (v ∷ []) = pack_byte (u8_of v) 0 ∷ []
pack_nibbles (v ∷ w ∷ vs) = pack_byte (u8_of v) (u8_of w) ∷ pack_nibbles vs

nibbles_of-pack_byte : (v w : Bool) → nibbles_of true (pack_byte (u8_of v) (u8_of w)) ≡ (v, w)
unfolding nibbles_of pack_byte
nibbles_of-pack_byte true true = refl
nibbles_of-pack_byte true false = refl
nibbles_of-pack_byte false true = refl
nibbles_of-pack_byte false false = refl

pub length-pack_nibbles : (vs : List Bool) → length (pack_nibbles vs) ≡ (length vs + 1) / 2
unfolding pack_nibbles
length-pack_nibbles [] = refl
length-pack_nibbles (v ∷ []) = refl
length-pack_nibbles (v ∷ w ∷ vs) = omega (arith, length-pack_nibbles vs)

pub nibbles_at-packed :
    (vs : List Bool) (buf before rest : Bytes) (i : ℕ)
    → buf ≡ before ++ (pack_nibbles vs ++ rest)
    → i ≡ length before
    → nibbles_at true buf i (length vs) ≡ ok vs
unfolding nibbles_at pack_nibbles
nibbles_at-packed [] buf before rest i e at = refl
nibbles_at-packed (v ∷ []) buf before rest i e at =
    rw (byte_at-append buf before (pack_byte (u8_of v) 0) rest i e at, nibbles_of-pack_byte v false)
nibbles_at-packed (v ∷ w ∷ vs) buf before rest i e at =
    let b = pack_byte (u8_of v) (u8_of w) in
    rw (
      byte_at-append buf before b (pack_nibbles vs ++ rest) i e at,
      nibbles_of-pack_byte v w,
      nibbles_at-packed vs buf (before ++ (b ∷ [])) rest (i + 1)
          (e ∙ sym (append_assoc before (b ∷ []) (pack_nibbles vs ++ rest)))
          (omega (arith, length-append before (b ∷ []))),
    )

-- The points that are packed for a write take half a byte each, rounded up, and are read back by
-- the reader of nibbles, high half first, whatever bytes stand before and behind them.
pub nibbles_at-pack_nibbles :
    (vs : List Bool) (before rest : Bytes)
    → (length (pack_nibbles vs) ≡ (length vs + 1) / 2)
      × (nibbles_at true (before ++ (pack_nibbles vs ++ rest)) (length before) (length vs) ≡ ok vs)
nibbles_at-pack_nibbles vs before rest = (
  length-pack_nibbles vs,
  nibbles_at-packed vs (before ++ (pack_nibbles vs ++ rest)) before rest (length before) refl refl,
)
