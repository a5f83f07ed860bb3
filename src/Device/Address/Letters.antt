-- ===== src/Device/Address/Letters.antt =====
-- A device's symbol as letters, and what is cut off behind it.
use Prim.Native.Char.{Char, code}
use Prim.Native.String.{String, [], ◌∷◌, ◌++◌}
use text.Mathlib.TextLemmas.{nil-append, cons-append}
use melsec_mc.Prelude.{
  ℕ, zero, suc, ◌+◌, ◌-◌, ◌&&◌, ◌*◌, ◌≡◌, refl, ap, arith, true, false, none, some, leb, inl, inr,
  Bool-cases, Option-cases,
}
use melsec_mc.Text.{
  is_whitespace, is_ascii_digit, is_ascii_alphabetic, is_empty, leading_letters, count, drop_chars,
  all_letters, to_digit, letter, upper_ascii, to_uppercase,
}
use melsec_mc.Text.Laws.{Every, NoWhitespace}
use melsec_mc.Text.Numbers.{value}

abbrev pub Letters : String → Type 0
Letters = Every is_ascii_alphabetic

letter-alphabetic :
    (n : ℕ) (s : String) (c : Char)
    → Letters s
    → is_ascii_alphabetic (code c) ≡ true
    → is_ascii_alphabetic (code (letter n s c)) ≡ true
unfolding letter
letter-alphabetic n [] c hs hc = hc
letter-alphabetic zero (d ∷ s) c (hd, hs) hc = hd
letter-alphabetic (suc n) (d ∷ s) c (hd, hs) hc = letter-alphabetic n s c hs hc

pub Letters-all_letters : (s : String) → all_letters s ≡ true → Letters s
unfolding all_letters
Letters-all_letters [] h = tt
Letters-all_letters (c ∷ s) h = elim (Bool-cases (is_ascii_alphabetic (code c))) [
  | inl alphabetic ↦ (alphabetic, Letters-all_letters s (rw alphabetic at h))
  | inr differs ↦ let e : false ≡ true = rw differs at h in cc
]

alphabet-Letters : Letters "ABCDEFGHIJKLMNOPQRSTUVWXYZ"
unfolding all_letters
alphabet-Letters = Letters-all_letters "ABCDEFGHIJKLMNOPQRSTUVWXYZ" refl

upper_ascii-alphabetic :
    (c : Char)
    → is_ascii_alphabetic (code c) ≡ true
    → is_ascii_alphabetic (code (upper_ascii c)) ≡ true
unfolding upper_ascii
upper_ascii-alphabetic c h = elim (Bool-cases (leb b'a' (code c) && leb (code c) b'z')) [
  | inl lower ↦
      rw lower (letter-alphabetic (code c - b'a') "ABCDEFGHIJKLMNOPQRSTUVWXYZ" c alphabet-Letters h)
  | inr other ↦ rw other h
]

alphabetic-ascii : (c : ℕ) → is_ascii_alphabetic c ≡ true → leb c 127 ≡ true
unfolding is_ascii_alphabetic
alphabetic-ascii c h = ground arith

digit-ascii : (c : ℕ) → is_ascii_digit c ≡ true → leb c 127 ≡ true
unfolding is_ascii_digit
digit-ascii c h = ground arith

digit-upper : (c : Char) → is_ascii_digit (code c) ≡ true → upper_ascii c ≡ c
unfolding upper_ascii is_ascii_digit
digit-upper c h = ground arith

digit-not-alphabetic : (c : ℕ) → is_ascii_digit c ≡ true → is_ascii_alphabetic c ≡ false
unfolding is_ascii_alphabetic is_ascii_digit
digit-not-alphabetic c h = ground arith

to_digit-not-white : (radix c d : ℕ) → to_digit radix c ≡ some d → is_whitespace c ≡ false
unfolding to_digit is_whitespace
to_digit-not-white radix c d h = ground arith

pub value-NoWhitespace :
    (radix acc : ℕ) (s : String) (n : ℕ) → value radix acc s ≡ some n → NoWhitespace s
value-NoWhitespace radix acc [] n e = tt
value-NoWhitespace radix acc (c ∷ s) n e = elim (Option-cases (to_digit radix (code c))) [
  | inl bad ↦ let e' : none ≡ some n = rw (bad, value) at e in cc
  | inr (d, digit) ↦ (
    to_digit-not-white radix (code c) d digit,
    value-NoWhitespace radix (acc * radix + d) s n (rw (digit, value) at e),
  )
]

pub drop_chars-append : (l r : String) → drop_chars (count l) (l ++ r) ≡ r
unfolding drop_chars
drop_chars-append [] r = nil-append r
drop_chars-append (c ∷ l) r = rw (cons-append c l r) (drop_chars-append l r)

module _ (other : Char → String) where
  pub count-upper : (s : String) → Letters s → count (to_uppercase other s) ≡ count s
  unfolding to_uppercase
  count-upper [] h = refl
  count-upper (c ∷ s) (h, hs) =
      rw (alphabetic-ascii (code c) h) (ap (λ (n : ℕ). suc n) (count-upper s hs))

  pub is_empty-upper : (s : String) → Letters s → is_empty (to_uppercase other s) ≡ is_empty s
  unfolding to_uppercase is_empty
  is_empty-upper [] h = refl
  is_empty-upper (c ∷ s) (h, hs) = rw (alphabetic-ascii (code c) h)

  -- The symbol ends before the first digit.
  pub leading_letters-upper :
      (l : String) (c : Char) (r : String)
      → Letters l
      → is_ascii_digit (code c) ≡ true
      → leading_letters (to_uppercase other (l ++ (c ∷ r))) ≡ to_uppercase other l
  unfolding leading_letters to_uppercase
  leading_letters-upper [] c r h digit = rw (nil-append (c ∷ r)) (
      rw (digit-ascii (code c) digit)
        (rw (digit-upper c digit) (rw (digit-not-alphabetic (code c) digit))))
  leading_letters-upper (d ∷ l) c r (h, hs) digit = rw (cons-append d l (c ∷ r)) (
      rw (alphabetic-ascii (code d) h)
        (rw (upper_ascii-alphabetic d h) (rw (leading_letters-upper l c r hs digit))))

  pub all-Letters-upper :
      (l : String) → Letters l → leading_letters (to_uppercase other l) ≡ to_uppercase other l
  unfolding leading_letters to_uppercase
  all-Letters-upper [] h = refl
  all-Letters-upper (d ∷ l) (h, hs) =
      rw (alphabetic-ascii (code d) h)
        (rw (upper_ascii-alphabetic d h) (rw (all-Letters-upper l hs)))
