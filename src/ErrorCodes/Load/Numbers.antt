-- ===== src/ErrorCodes/Load/Numbers.antt =====
-- Codes are read in decimal and in hexadecimal.
use Prim.Native.Char.{Char, code}
use Prim.Native.String.{String, [], ◌∷◌, ◌++◌}
use melsec_mc.Prelude.{
  ℕ, ◌+◌, ◌*◌, ◌≡◌, refl, arith, false, none, some, leb, ◌==◌, if◌then◌else◌, ◌⊎◌, inl, inr,
}
use melsec_mc.Text.{trim, strip_prefix, to_digit, max_u16}
use melsec_mc.Text.Laws.{strip_prefix-append}
use melsec_mc.Text.Numbers.{value, value-cons, parse_uint-value}
use melsec_mc.ErrorCodes.Load.{visit_trimmed, visit_str}

digit-not-x : (c d : ℕ) → to_digit 10 c ≡ some d → (c == b'x') ≡ false
unfolding to_digit
digit-not-x c d h = ground arith

decimal-no-prefix : (s : String) (n : ℕ) → value 10 0 s ≡ some n → strip_prefix s "0x" ≡ none
unfolding strip_prefix
decimal-no-prefix [] n e = refl
decimal-no-prefix (c ∷ []) n e = ground arith
decimal-no-prefix (c ∷ d ∷ s) n e =
    let (u, first, e1) = value-cons 10 0 c (d ∷ s) n e in
    let (v, digit, e2) = value-cons 10 (0 * 10 + u) d s n e1 in
    let differs = digit-not-x (code d) v digit in ground arith

-- A code is read from a text that is, but for white space around it, decimal digits, or "0x" and
-- hexadecimal digits: it is the number that the digits spell if that is at most 0xFFFF, and
-- refused if it is not.
pub visit_str_lem :
    (text : String) (c : Char) (s : String) (n : ℕ)
    → ((trim text ≡ c ∷ s) × (value 10 0 (c ∷ s) ≡ some n))
      ⊎ ((trim text ≡ "0x" ++ (c ∷ s)) × (value 16 0 (c ∷ s) ≡ some n))
    → visit_str text ≡ (if leb n max_u16 then some n else none)
unfolding visit_str visit_trimmed
visit_str_lem text c s n (inl (trimmed, spelt)) = rw trimmed (
    rw (decimal-no-prefix (c ∷ s) n spelt, visit_trimmed)
      (parse_uint-value 10 max_u16 c s n (omega arith) spelt))
visit_str_lem text c s n (inr (trimmed, spelt)) = rw trimmed (
    rw (strip_prefix-append "0x" (c ∷ s), visit_trimmed)
      (parse_uint-value 16 max_u16 c s n (omega arith) spelt))
