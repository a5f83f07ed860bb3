-- ===== src/Codec/Laws.antt =====
-- The law of a codec, and that the six of them keep it.
use Prim.Native.Nat.{bit_and, bit_or}
use melsec_mc.Prelude.{
  ℕ, ◌/◌, ◌%◌, ◌^◌, ◌≤◌, ◌<◌, ◌≡◌, refl, ap, ap₂, ◌∙◌, Bool, List, [], ◌∷◌, ◌++◌, append_assoc,
  arith, length, All,
}
use melsec_mc.Error.{ok}
use melsec_mc.Bytes.{IsU16}
use melsec_mc.Bytes.Bits.{◌<<◌, ◌>>◌, bit_or_high, bit_and_0xffff}
use melsec_mc.Codec.{
  FromWords, ToWords, ℤ, F32, push_u32, unsigned, signed, word_from, from_words_u16, to_words_u16,
  from_words_i16, to_words_i16, from_words_bits16, to_words_bits16, from_words_u32, to_words_u32,
  from_words_i32, to_words_i32, from_words_f32, to_words_f32,
}
use melsec_mc.Codec.Signed.{IsSigned, signed-unsigned, unsigned-lt}
use melsec_mc.Codec.Bits16.{bits_from-word_from, word_from-lt}

-- Encoding appends `words` words, and decoding reads the value back from them, whatever follows.
pub record IsCodec {T : Type 0} (from : FromWords T) (to : ToWords T) (Valid : T → Type 0)
    : Type 0 where
  pub same_words : to.words ≡ from.words
  pub has_words : 1 ≤ from.words
  pub encoded : T → List ℕ
  pub appends : (v : T) (out : List ℕ) → to.to_words v out ≡ out ++ encoded v
  pub length_encoded : (v : T) → length (encoded v) ≡ from.words
  pub encoded_words : (v : T) → Valid v → All IsU16 (encoded v)
  pub decodes :
      (v : T) (rest : List ℕ)
      → Valid v
      → from.from_words_slice (encoded v ++ rest) ≡ ok (v, from.words)

from_words_u16-IsCodec : IsCodec from_words_u16 to_words_u16 IsU16
unfolding from_words_u16 to_words_u16
from_words_u16-IsCodec = record {
  same_words = refl;
  has_words = omega arith;
  encoded = λ v. v ∷ [];
  appends = λ v out. refl;
  length_encoded = λ v. refl;
  encoded_words = λ v h. (h, tt);
  decodes = λ v rest h. refl;
}

from_words_i16-IsCodec : IsCodec from_words_i16 to_words_i16 (IsSigned 0x8000)
unfolding from_words_i16 to_words_i16
from_words_i16-IsCodec = record {
  same_words = refl;
  has_words = omega arith;
  encoded = λ v. unsigned 0x8000 v ∷ [];
  appends = λ v out. refl;
  length_encoded = λ v. refl;
  encoded_words = λ v h. (unsigned-lt 0x8000 v h, tt);
  decodes = λ v rest h. ap (λ x. ok (x, 1)) (signed-unsigned 0x8000 v h);
}

abbrev Is16 : List Bool → Type 0
Is16 v = length v ≡ 16

-- The 16 bits of a word are encoded as one word, and any list of 16 bits is read back from it.
from_words_bits16-IsCodec : IsCodec from_words_bits16 to_words_bits16 Is16
unfolding from_words_bits16 to_words_bits16
from_words_bits16-IsCodec = record {
  same_words = refl;
  has_words = omega arith;
  encoded = λ v. word_from v 0 0 ∷ [];
  appends = λ v out. refl;
  length_encoded = λ v. refl;
  encoded_words = λ v h. (word_from-lt v h, tt);
  decodes = λ v rest h. ap (λ x. ok (x, 1)) (bits_from-word_from v h);
}

abbrev IsU32 : ℕ → Type 0
IsU32 v = v < 2 ^ 32

-- The two words of a `u32`.
low_of : ℕ → ℕ
low_of v = bit_and v 0xFFFF % 2 ^ 16

high_of : ℕ → ℕ
high_of v = bit_and (v >> 16) 0xFFFF % 2 ^ 16

abbrev words_u32 : ℕ → List ℕ
words_u32 v = (bit_and v 0xFFFF % 2 ^ 16) ∷ (bit_and (v >> 16) 0xFFFF % 2 ^ 16) ∷ []

words_u32-IsU16 : (v : ℕ) → All IsU16 (words_u32 v)
words_u32-IsU16 v = omega arith

push_u32-append : (v : ℕ) (out : List ℕ) → push_u32 v out ≡ out ++ words_u32 v
push_u32-append v out = append_assoc out _ _

low_of-mod : (v : ℕ) → low_of v ≡ v % 65536
unfolding low_of
low_of-mod v = omega (arith, bit_and_0xffff v)

high_shifted : (v : ℕ) → IsU32 v → (high_of v << 16) % 2 ^ 32 ≡ (v / 65536) << 16
unfolding high_of
high_shifted v h = omega (arith, bit_and_0xffff (v >> 16))

join_words : (v : ℕ) → IsU32 v → bit_or ((high_of v << 16) % 2 ^ 32) (low_of v) ≡ v
join_words v h =
    ap₂ bit_or (high_shifted v h) (low_of-mod v)
    ∙ bit_or_high 16 (v / 65536) (v % 65536) (omega arith)
    ∙ omega arith

from_words_u32-IsCodec : IsCodec from_words_u32 to_words_u32 IsU32
unfolding from_words_u32 to_words_u32 low_of high_of
from_words_u32-IsCodec = record {
  same_words = refl;
  has_words = omega arith;
  encoded = words_u32;
  appends = push_u32-append;
  length_encoded = λ v. refl;
  encoded_words = λ v h. words_u32-IsU16 v;
  decodes = λ v rest h. ap (λ x. ok (x, 2)) (join_words v h);
}

unsigned-IsU32 : (v : ℤ) → IsSigned 0x8000_0000 v → IsU32 (unsigned 0x8000_0000 v)
unsigned-IsU32 v h = omega (arith, unsigned-lt 0x8000_0000 v h)

-- An `i32` is encoded as two words, the low one first, appended to what is there, and every `i32`
-- is read back from its two words, whatever words follow.
pub from_words_i32-IsCodec : IsCodec from_words_i32 to_words_i32 (IsSigned 0x8000_0000)
unfolding from_words_i32 to_words_i32 low_of high_of
from_words_i32-IsCodec = record {
  same_words = refl;
  has_words = omega arith;
  encoded = λ v. words_u32 (unsigned 0x8000_0000 v);
  appends = λ v out. push_u32-append (unsigned 0x8000_0000 v) out;
  length_encoded = λ v. refl;
  encoded_words = λ v h. words_u32-IsU16 (unsigned 0x8000_0000 v);
  decodes = λ v rest h.
      ap (λ x. ok (signed 0x8000_0000 x, 2))
        (join_words (unsigned 0x8000_0000 v) (unsigned-IsU32 v h))
      ∙ ap (λ x. ok (x, 2)) (signed-unsigned 0x8000_0000 v h);
}

abbrev IsF32 : F32 → Type 0
IsF32 v = IsU32 v.bits

from_words_f32-IsCodec : IsCodec from_words_f32 to_words_f32 IsF32
unfolding from_words_f32 to_words_f32 low_of high_of
from_words_f32-IsCodec = record {
  same_words = refl;
  has_words = omega arith;
  encoded = λ v. words_u32 v.bits;
  appends = λ v out. push_u32-append v.bits out;
  length_encoded = λ v. refl;
  encoded_words = λ v h. words_u32-IsU16 v.bits;
  decodes = λ v rest h. ap (λ x. ok (record { bits = x }, 2)) (join_words v.bits h);
}

-- Each of the six types is encoded as its number of words, which are appended to what is there,
-- and every value is read back from its words, whatever words follow: a `u16`, an `i16`, the 16
-- bits of a word, a `u32`, an `i32` and the bits of an `f32`.
pub codecs-IsCodec :
    IsCodec from_words_u16 to_words_u16 IsU16
    × IsCodec from_words_i16 to_words_i16 (IsSigned 0x8000)
    × IsCodec from_words_bits16 to_words_bits16 Is16
    × IsCodec from_words_u32 to_words_u32 IsU32
    × IsCodec from_words_i32 to_words_i32 (IsSigned 0x8000_0000)
    × IsCodec from_words_f32 to_words_f32 IsF32
codecs-IsCodec = (
  from_words_u16-IsCodec, from_words_i16-IsCodec, from_words_bits16-IsCodec, from_words_u32-IsCodec,
  from_words_i32-IsCodec, from_words_f32-IsCodec,
)
