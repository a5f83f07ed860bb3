-- ===== src/Codec.antt =====
-- `FromWords` and `ToWords` of src/mc_client.rs, their six implementations, and the loops of
-- `read_words_as` and `write_words_as` over them. An `f32` is its bit pattern, which `from_bits`
-- and `to_bits` keep.
pub mod Signed
pub mod Bits16
pub mod Laws
pub mod Decode
mod Tests
use Prim.Native.Nat.{bit_and, bit_or}
use mathlib.Core.List.{foldl}
use melsec_mc.Prelude.{
  ℤ, pos, negsuc, ℕ, zero, suc, ◌+◌, ◌*◌, ◌-◌, ◌/◌, ◌%◌, ◌^◌, Bool, true, false, Option, none, some,
  List, [], ◌∷◌, ◌++◌, String, length, drop, ltb, leb, ◌==◌, not, ◌&&◌, if◌then◌else◌,
}
use melsec_mc.Error.{
  Result, ok, err, panic, fail, not_enough_words, count_too_large, count_overflow,
}
use melsec_mc.Bytes.{from_le_bytes}
use melsec_mc.Bytes.Bits.{◌<<◌, ◌>>◌}

pub record FromWords (T : Type 0) : Type 0 where
  pub words : ℕ
  pub from_words_slice : List ℕ → Result (T × ℕ)

pub record ToWords (T : Type 0) : Type 0 where
  pub words : ℕ
  pub to_words : T → List ℕ → List ℕ

-- `iN::from_le_bytes(w.to_le_bytes())` and back, at half the modulus `h`.
pub signed : ℕ → ℕ → ℤ
signed h w = if ltb w h then pos w else negsuc (2 * h - 1 - w)

unfoldable pub unsigned : ℕ → ℤ → ℕ
unsigned h (pos n) = n
unsigned h (negsuc n) = 2 * h - 1 - n

-- `FromWords for u16` and `ToWords for u16`
first_word : String → List ℕ → Result ℕ
first_word name [] = fail (not_enough_words name)
first_word name (w ∷ ws) = ok w

abbrev map_word {ℓ} : {T : Type ℓ} → (ℕ → T) → Result ℕ → Result (T × ℕ)
map_word f (ok w) = ok (f w, 1)
map_word f (err e) = err e
map_word f panic = panic

abbrev push : ℕ → List ℕ → List ℕ
push w out = out ++ (w ∷ [])

pub from_words_u16 : FromWords ℕ
unfolding first_word
from_words_u16 = record {
  words = 1;
  from_words_slice = λ ws. map_word (λ w. w) (first_word "u16" ws);
}

pub to_words_u16 : ToWords ℕ
to_words_u16 = record { words = 1; to_words = λ v out. push v out }

pub from_words_i16 : FromWords ℤ
unfolding first_word signed
from_words_i16 = record {
  words = 1;
  from_words_slice = λ ws. map_word (signed 0x8000) (first_word "i16" ws);
}

pub to_words_i16 : ToWords ℤ
unfolding unsigned
to_words_i16 = record { words = 1; to_words = λ v out. push (unsigned 0x8000 v) out }

-- `[bool; 16]`: bit `i` of the word from `((w >> i) & 0x01) != 0`, for `left` more bits.
pub bits_from : ℕ → ℕ → ℕ → List Bool
bits_from zero i w = []
bits_from (suc left) i w = not (bit_and (w >> i) 0x01 == 0) ∷ bits_from left (i + 1) w

-- `w |= 1u16 << i` for each bit that is set.
pub word_from : List Bool → ℕ → ℕ → ℕ
word_from [] i w = w
word_from (v ∷ vs) i w = word_from vs (i + 1) (if v then bit_or w ((1 << i) % 2 ^ 16) else w)

pub from_words_bits16 : FromWords (List Bool)
unfolding first_word bits_from
from_words_bits16 = record {
  words = 1;
  from_words_slice = λ ws. map_word (bits_from 16 0) (first_word "bits16" ws);
}

pub to_words_bits16 : ToWords (List Bool)
unfolding word_from
to_words_bits16 = record { words = 1; to_words = λ v out. push (word_from v 0 0) out }

-- `(high << 16) | low`
two_words : String → List ℕ → Result ℕ
two_words name [] = fail (not_enough_words name)
two_words name (low ∷ []) = fail (not_enough_words name)
two_words name (low ∷ high ∷ ws) = ok (bit_or ((high << 16) % 2 ^ 32) low)

abbrev map_words {ℓ} : {T : Type ℓ} → (ℕ → T) → Result ℕ → Result (T × ℕ)
map_words f (ok w) = ok (f w, 2)
map_words f (err e) = err e
map_words f panic = panic

-- `low` and `high` of a `u32`, pushed in this order.
abbrev pub push_u32 : ℕ → List ℕ → List ℕ
push_u32 v out = push (bit_and (v >> 16) 0xFFFF % 2 ^ 16) (push (bit_and v 0xFFFF % 2 ^ 16) out)

pub from_words_u32 : FromWords ℕ
unfolding two_words
from_words_u32 = record {
  words = 2;
  from_words_slice = λ ws. map_words (λ w. w) (two_words "u32" ws);
}

pub to_words_u32 : ToWords ℕ
to_words_u32 = record { words = 2; to_words = λ v out. push_u32 v out }

unfoldable pub from_words_i32 : FromWords ℤ
unfolding two_words signed
from_words_i32 = record {
  words = 2;
  from_words_slice = λ ws. map_words (signed 0x8000_0000) (two_words "i32" ws);
}

unfoldable pub to_words_i32 : ToWords ℤ
unfolding unsigned
to_words_i32 = record { words = 2; to_words = λ v out. push_u32 (unsigned 0x8000_0000 v) out }

pub record F32 : Type 0 where
  pub bits : ℕ

pub from_words_f32 : FromWords F32
unfolding two_words
from_words_f32 = record {
  words = 2;
  from_words_slice = λ ws. map_words (λ w. record { bits = w }) (two_words "f32" ws);
}

pub to_words_f32 : ToWords F32
to_words_f32 = record { words = 2; to_words = λ v out. push_u32 v.bits out }

-- `required_words` of `read_words_as`: the product fits a `u32`, since both factors do and
-- `checked_mul` tests it, and must fit a `u16`.
unfoldable pub required_words : ℕ → ℕ → Result ℕ
required_words words count =
    if leb (words * count) (2 ^ 32 - 1)
    then (if ltb 65535 (words * count) then fail count_too_large else ok (words * count))
    else fail count_overflow

-- The loop of `read_words_as` at word index `idx` with `parsed` elements; `none` is out of fuel.
-- An element that does not decode is skipped by one word.
module _ {T : Type 0} (codec : FromWords T) where
  pub decode : ℕ → ℕ → List ℕ → ℕ → ℕ → List T → Option (List T)
  decode zero count words idx parsed out = none
  decode (suc fuel) count words idx parsed out =
      elim (ltb parsed count && leb (idx + codec.words) (length words)) [
        | false ↦ some out
        | true ↦ elim (codec.from_words_slice (drop idx words)) [
          | ok (v, used) ↦ decode fuel count words (idx + used) (parsed + 1) (out ++ (v ∷ []))
          | err e ↦ decode fuel count words (idx + 1) parsed out
          | panic ↦ none
        ]
      ]

  -- Each round uses up an element or a word.
  pub decode_all : ℕ → List ℕ → Option (List T)
  decode_all count words = decode (suc (count + length words)) count words 0 0 []

-- `flat` of `write_words_as`
module _ {T : Type 0} (codec : ToWords T) where
  unfoldable pub flat : List ℕ → List T → List ℕ
  flat out [] = out
  flat out (v ∷ vs) = flat (codec.to_words v out) vs
