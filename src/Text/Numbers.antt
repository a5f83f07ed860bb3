-- ===== src/Text/Numbers.antt =====
-- What the parsers of numbers accept, against the number that the digits spell.
use Prim.Native.Char.{Char, code}
use Prim.Native.String.{String, [], ◌∷◌}
use melsec_mc.Prelude.{
  ℕ, ◌+◌, ◌*◌, ◌≤◌, ◌<◌, ◌≡◌, sym, ◌∙◌, arith, true, false, Option, none, some, leb, leb→le, le→leb,
  ◌==◌, if◌then◌else◌, Bool-cases, inl, inr, Option-cases,
}
use melsec_mc.Text.{is_ascii_digit, to_digit, digits_from, parse_uint}
use melsec_mc.Text.Laws.{Every}

-- The number that the digits spell behind those of `acc`, however large.
abbrev pub value : ℕ → ℕ → String → Option ℕ
value radix acc [] = some acc
value radix acc (c ∷ s) = elim (to_digit radix (code c)) [
  | none ↦ none
  | some d ↦ value radix (acc * radix + d) s
]

pub value-cons :
    (radix acc : ℕ) (c : Char) (s : String) (n : ℕ)
    → value radix acc (c ∷ s) ≡ some n
    → (d : ℕ) × (to_digit radix (code c) ≡ some d) × (value radix (acc * radix + d) s ≡ some n)
value-cons radix acc c s n e = elim (Option-cases (to_digit radix (code c))) [
  | inl bad ↦ let e' : none ≡ some n = rw (bad, value) at e in cc
  | inr (d, digit) ↦ (d, digit, rw (digit, value) at e)
]

le-value : (radix acc : ℕ) (s : String) (n : ℕ) → 1 ≤ radix → value radix acc s ≡ some n → acc ≤ n
le-value radix acc [] n h e = ground arith
le-value radix acc (c ∷ s) n h e = elim (Option-cases (to_digit radix (code c))) [
  | inl bad ↦ let e' : none ≡ some n = rw (bad, value) at e in cc
  | inr (d, digit) ↦
      let e' : value radix (acc * radix + d) s ≡ some n = rw (digit, value) at e in
      let below : acc * radix + d ≤ n = le-value radix (acc * radix + d) s n h e' in grind arith
]

pub digits_from-value :
    (radix max acc : ℕ) (s : String) (n : ℕ)
    → 1 ≤ radix
    → value radix acc s ≡ some n
    → n ≤ max
    → digits_from radix max acc s ≡ some n
unfolding digits_from
digits_from-value radix max acc [] n h e fits = e
digits_from-value radix max acc (c ∷ s) n h e fits = elim (Option-cases (to_digit radix (code c))) [
  | inl bad ↦ let e' : none ≡ some n = rw (bad, value) at e in cc
  | inr (d, digit) ↦
      let e' : value radix (acc * radix + d) s ≡ some n = rw (digit, value) at e in
      let below : acc * radix + d ≤ n = le-value radix (acc * radix + d) s n h e' in
      let test : leb (acc * radix + d) max ≡ true = le→leb _ _ (omega arith) in
      rw (digit, digits_from)
        (rw test (digits_from-value radix max (acc * radix + d) s n h e' fits))
]

pub value-digits_from :
    (radix max acc : ℕ) (s : String) (n : ℕ)
    → acc ≤ max
    → digits_from radix max acc s ≡ some n
    → (value radix acc s ≡ some n) × (n ≤ max)
unfolding digits_from
value-digits_from radix max acc [] n fits e = (e, ground arith)
value-digits_from radix max acc (c ∷ s) n fits e = elim (Option-cases (to_digit radix (code c))) [
  | inl bad ↦ let e' : none ≡ some n = rw (bad, digits_from) at e in cc
  | inr (d, digit) ↦ elim (Bool-cases (leb (acc * radix + d) max)) [
    | inl small ↦
        let e' : digits_from radix max (acc * radix + d) s ≡ some n =
          rw small at (rw (digit, digits_from) at e) in
        let ih = value-digits_from radix max (acc * radix + d) s n (leb→le _ _ small) e' in
        (rw (digit, value) ih.0, ih.1)
    | inr large ↦ let e' : none ≡ some n = rw large at (rw (digit, digits_from) at e) in cc
  ]
]

-- Digits that spell a number above the maximum are refused.
digits_from-large :
    (radix max : ℕ) (s : String) (n : ℕ)
    → value radix 0 s ≡ some n
    → max < n
    → digits_from radix max 0 s ≡ none
digits_from-large radix max s n e large = elim (Option-cases (digits_from radix max 0 s)) [
  | inl refused ↦ refused
  | inr (m, read) ↦
      let (spelt, fits) = value-digits_from radix max 0 s m (omega arith) read in
      let same : some m ≡ some n = sym spelt ∙ e in let m_eq : m ≡ n = cc in absurd (omega arith)
]

digit-not-plus : (radix c d : ℕ) → to_digit radix c ≡ some d → (c == b'+') ≡ false
unfolding to_digit
digit-not-plus radix c d h = ground arith

parse_uint-digits :
    (radix max : ℕ) (c : Char) (s : String) (n : ℕ)
    → value radix 0 (c ∷ s) ≡ some n
    → parse_uint radix max (c ∷ s) ≡ digits_from radix max 0 (c ∷ s)
unfolding parse_uint
parse_uint-digits radix max c s n e = elim (Option-cases (to_digit radix (code c))) [
  | inl bad ↦ let e' : none ≡ some n = rw (bad, value) at e in cc
  | inr (d, digit) ↦ rw (digit-not-plus radix (code c) d digit)
]

-- Digits are parsed to the number that they spell if it fits, and refused if it does not.
pub parse_uint-value :
    (radix max : ℕ) (c : Char) (s : String) (n : ℕ)
    → 1 ≤ radix
    → value radix 0 (c ∷ s) ≡ some n
    → parse_uint radix max (c ∷ s) ≡ (if leb n max then some n else none)
parse_uint-value radix max c s n h e = elim (Bool-cases (leb n max)) [
  | inl fits ↦ rw fits (
      parse_uint-digits radix max c s n e
      ∙ digits_from-value radix max 0 (c ∷ s) n h e (leb→le n max fits))
  | inr large ↦
      rw large (
        parse_uint-digits radix max c s n e
        ∙ digits_from-large radix max (c ∷ s) n e (ground arith))
]

digit_of-value : (c d : ℕ) → to_digit 10 c ≡ some d → is_ascii_digit c ≡ true
unfolding to_digit is_ascii_digit
digit_of-value c d h = ground arith

pub digits_of-value :
    (acc : ℕ) (s : String) (n : ℕ) → value 10 acc s ≡ some n → Every is_ascii_digit s
digits_of-value acc [] n e = tt
digits_of-value acc (c ∷ s) n e =
    let (d, digit, rest) = value-cons 10 acc c s n e in
    (digit_of-value (code c) d digit, digits_of-value (acc * 10 + d) s n rest)
