-- ===== src/Codec/Bits16.antt =====
-- Sixteen bits and the word that they make.
use Prim.Native.Nat.{bit_and, bit_or}
use native.Mathlib.Nat.{pow-suc, pow-le-pow_right, mod-eq_of_lt, add-mul-div_left, div-eq_of_lt}
use native.Mathlib.Numerals.{add-one}
use melsec_mc.Prelude.{
  ℕ, zero, suc, ◌+◌, ◌*◌, ◌/◌, ◌%◌, ◌^◌, ◌≤◌, ◌<◌, ◌≡◌, refl, ap, ap₂, ◌∙◌, Bool, true, false, not,
  List, [], ◌∷◌, arith, length, ◌==◌, subst, if◌then◌else◌,
}
use melsec_mc.Bytes.Bits.{◌<<◌, ◌>>◌, bit_or_low, bit_and_1}
use melsec_mc.Codec.{bits_from, word_from}

-- The number of a list of bits, lowest first.
abbrev bit : Bool → ℕ
bit v = if v then 1 else 0

abbrev value : List Bool → ℕ
value [] = 0
value (v ∷ vs) = bit v + 2 * value vs

pow_next : (i : ℕ) → 2 ^ (i + 1) ≡ 2 * 2 ^ i
pow_next i = rw (add-one i) (omega (arith, pow-suc 2 i))

pow_small : (i : ℕ) → i < 16 → 2 ^ i < 2 ^ 16
pow_small i h = omega (arith, pow-le-pow_right {n = 2} (omega arith) {i = i} {j = 15} (omega arith))

-- Setting bit `i` of a word below it.
set_bit : (i w : ℕ) → i < 16 → w < 2 ^ i → bit_or w ((1 << i) % 2 ^ 16) ≡ w + 2 ^ i
set_bit i w h small =
    ap (bit_or w) (mod-eq_of_lt (omega (arith, pow_small i h)))
    ∙ bit_or_low i 1 w small
    ∙ omega arith

set_bit_if :
    (v : Bool) (i w : ℕ)
    → i < 16
    → w < 2 ^ i
    → (if v then bit_or w ((1 << i) % 2 ^ 16) else w) ≡ w + 2 ^ i * bit v
set_bit_if true i w h small = set_bit i w h small ∙ omega arith
set_bit_if false i w h small = omega arith

distribute : (p b V : ℕ) → p * (b + 2 * V) ≡ p * b + 2 * p * V
distribute p b V = omega arith

bit-le : (v : Bool) → bit v ≤ 1
bit-le true = omega arith
bit-le false = omega arith

grown : (v : Bool) (p r : ℕ) → r < p → r + p * bit v < 2 * p
grown true p r h = omega arith
grown false p r h = omega arith

word_from-value :
    (vs : List Bool) (i w : ℕ)
    → i + length vs ≤ 16
    → w < 2 ^ i
    → word_from vs i w ≡ w + 2 ^ i * value vs
unfolding word_from
word_from-value [] i w fits small = omega arith
word_from-value (v ∷ vs) i w fits small =
    ap (word_from vs (i + 1)) (set_bit_if v i w (omega arith) small)
    ∙ word_from-value vs (i + 1) (w + 2 ^ i * bit v) (omega arith)
        (rw (pow_next i) (grown v (2 ^ i) w small))
    ∙ rw (pow_next i) (omega (arith, distribute (2 ^ i) (bit v) (value vs)))

quotient : (p r q : ℕ) → r < p → (r + p * q) / p ≡ q
quotient p r q h = rw (add-mul-div_left r q {y = p} (omega arith), div-eq_of_lt h) (omega arith)

bit_shown : (v : Bool) (V : ℕ) → not ((bit v + 2 * V) % 2 == 0) ≡ v
bit_shown true V = ground arith
bit_shown false V = ground arith

read_bit :
    (v : Bool) (i r V : ℕ)
    → r < 2 ^ i
    → not (bit_and ((r + 2 ^ i * (bit v + 2 * V)) >> i) 0x01 == 0) ≡ v
read_bit v i r V small =
    ap (λ (t : ℕ). not (t == 0)) (bit_and_1 ((r + 2 ^ i * (bit v + 2 * V)) >> i))
    ∙ ap (λ (t : ℕ). not (t % 2 == 0)) (quotient (2 ^ i) r (bit v + 2 * V) small)
    ∙ bit_shown v V

bits_from-value :
    (vs : List Bool) (i r : ℕ) → r < 2 ^ i → bits_from (length vs) i (r + 2 ^ i * value vs) ≡ vs
unfolding bits_from
bits_from-value [] i r small = refl
bits_from-value (v ∷ vs) i r small = ap₂ ◌∷◌ (read_bit v i r (value vs) small) (
    ap (bits_from (length vs) (i + 1)) regrouped
    ∙ bits_from-value vs (i + 1) (r + 2 ^ i * bit v) (rw (pow_next i) (grown v (2 ^ i) r small)))
  where
    regrouped : r + 2 ^ i * value (v ∷ vs) ≡ (r + 2 ^ i * bit v) + 2 ^ (i + 1) * value vs
    regrouped = rw (pow_next i) (omega (arith, distribute (2 ^ i) (bit v) (value vs)))

-- Reading the bits of the word made of 16 bits gives them back.
pub bits_from-word_from : (vs : List Bool) → length vs ≡ 16 → bits_from 16 0 (word_from vs 0 0) ≡ vs
bits_from-word_from vs h =
    ap (bits_from 16 0) (word_from-value vs 0 0 (omega arith) (omega arith))
    ∙ subst (λ n. bits_from n 0 (0 + 2 ^ 0 * value vs) ≡ vs) h
        (bits_from-value vs 0 0 (omega arith))

value-lt : (vs : List Bool) (n : ℕ) → length vs ≡ n → value vs < 2 ^ n
value-lt [] zero h = omega arith
value-lt [] (suc n) h = absurd (omega arith)
value-lt (v ∷ vs) zero h = absurd (omega arith)
value-lt (v ∷ vs) (suc n) h = omega (arith, pow-suc 2 n, bit-le v, value-lt vs n (omega arith))

pub word_from-lt : (vs : List Bool) → length vs ≡ 16 → word_from vs 0 0 < 65536
word_from-lt vs h =
    omega (arith, word_from-value vs 0 0 (omega arith) (omega arith), value-lt vs 16 h)
