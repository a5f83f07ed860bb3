-- ===== src/Registry/Formats/Printed.antt =====
-- Formats as src/commands.toml writes them are read back.
use Prim.Native.Char.{Char, code}
use Prim.Native.String.{String, [], ◌∷◌, ◌++◌}
use text.Mathlib.TextLemmas.{nil-append, cons-append, append-nil, head-eq_of_cons-eq}
use melsec_mc.Prelude.{
  ℕ, ◌≤◌, ◌≡◌, refl, ◌∙◌, ap, arith, Bool, true, false, some, List, [], ◌∷◌, map, All, le→leb, ◌==◌,
  str_eq, eq_iff, Bool-cases, inl, inr,
}
use melsec_mc.Error.{ok}
use melsec_mc.Text.{
  is_ascii_digit, starts_with, ends_with, trim_end_matches, split, parse_uint, max_u64,
}
use melsec_mc.Text.Laws.{Every, HasNo, split_once-append, split-append}
use melsec_mc.Text.Numbers.{value, parse_uint-value, digits_of-value}
use melsec_mc.Registry.{
  fixed_bytes, ResponseEntry, block_words, block_bits_packed, block_nibbles, hex_text,
}
use melsec_mc.Registry.Formats.{
  width_with_order, kind_of, named, parse_field_spec, entry_of, parse_response_format,
  parse_response_formats,
}

-- A text that starts with a digit is not one that starts with something else.
digit-first :
    (c d : Char) (s p : String)
    → is_ascii_digit (code c) ≡ true
    → is_ascii_digit (code d) ≡ false
    → str_eq (c ∷ s) (d ∷ p) ≡ false
digit-first c d s p hc hd = elim (Bool-cases (str_eq (c ∷ s) (d ∷ p))) [
  | inr differ ↦ differ
  | inl same ↦
      let first : c ≡ d = head-eq_of_cons-eq ((eq_iff (c ∷ s) (d ∷ p)).0 same) in
      let e : true ≡ false = cc in cc
]

trim_end_matches-digits :
    (l t : String) (d : Char) (p : String)
    → Every is_ascii_digit l
    → is_ascii_digit (code d) ≡ false
    → trim_end_matches (l ++ t) (d ∷ p) ≡ l ++ trim_end_matches t (d ∷ p)
unfolding trim_end_matches
trim_end_matches-digits [] t d p h hd =
    rw (nil-append t) (rw (nil-append (trim_end_matches t (d ∷ p))))
trim_end_matches-digits (c ∷ l) t d p (h, hs) hd = rw (cons-append c l t) (
    rw (trim_end_matches-digits l t d p hs hd) (
      rw (cons-append c l (trim_end_matches t (d ∷ p)))
        (rw (digit-first c d (l ++ trim_end_matches t (d ∷ p)) p h hd))))

ends_with-digits :
    (l t : String) (d : Char) (p : String)
    → Every is_ascii_digit l
    → is_ascii_digit (code d) ≡ false
    → ends_with (l ++ t) (d ∷ p) ≡ ends_with t (d ∷ p)
unfolding ends_with
ends_with-digits [] t d p h hd = rw (nil-append t)
ends_with-digits (c ∷ l) t d p (h, hs) hd =
    rw (cons-append c l t) (rw (digit-first c d (l ++ t) p h hd) (ends_with-digits l t d p hs hd))

trim_digits :
    (l : String) (d : Char) (p : String)
    → Every is_ascii_digit l
    → is_ascii_digit (code d) ≡ false
    → trim_end_matches l (d ∷ p) ≡ l
unfolding trim_end_matches
trim_digits [] d p h hd = refl
trim_digits (c ∷ l) d p (h, hs) hd = rw (trim_digits l d p hs hd) (rw (digit-first c d l p h hd))

trim_le :
    (trim_end_matches "le" "le" ≡ "")
    × (trim_end_matches "be" "le" ≡ "be")
    × (trim_end_matches "be" "be" ≡ "")
unfolding trim_end_matches
trim_le = (refl, refl, refl)

-- The two orders, as they are written.
abbrev pub order : Bool → String
order true = "le"
order false = "be"

module _ (c : Char) (s : String) (n : ℕ) (spelt : value 10 0 (c ∷ s) ≡ some n)
    (fits : n ≤ max_u64) where
  digits : Every is_ascii_digit (c ∷ s)
  digits = digits_of-value 0 (c ∷ s) n spelt

  digit : is_ascii_digit (code c) ≡ true
  digit = digits.0

  stripped :
      (le : Bool) → trim_end_matches (trim_end_matches ((c ∷ s) ++ order le) "le") "be" ≡ c ∷ s
  unfolding is_ascii_digit
  stripped true =
      rw (trim_end_matches-digits (c ∷ s) "le" "l" "e" digits refl)
        (rw (trim_le.0) (rw (append-nil (c ∷ s)) (trim_digits (c ∷ s) "b" "e" digits refl)))
  stripped false = rw (trim_end_matches-digits (c ∷ s) "be" "l" "e" digits refl) (
      rw (trim_le.1) (
        rw (trim_end_matches-digits (c ∷ s) "be" "b" "e" digits refl)
          (rw (trim_le.2) (append-nil (c ∷ s)))))

  other_text :
      (le : Bool) (d : Char) (p : String)
      → is_ascii_digit (code d) ≡ false
      → str_eq ((c ∷ s) ++ order le) (d ∷ p) ≡ false
  other_text le d p hd =
      rw (cons-append c s (order le)) (digit-first c d (s ++ order le) p digit hd)

  not_words : (le : Bool) → starts_with ((c ∷ s) ++ order le) "words" ≡ false
  unfolding starts_with is_ascii_digit
  not_words le =
      let differs : (code c == b'w') ≡ false = ground (arith, digit) in
      rw (cons-append c s (order le)) (rw differs)

  ends : (le : Bool) → ends_with ((c ∷ s) ++ order le) "le" ≡ le
  unfolding is_ascii_digit ends_with
  ends true = ends_with-digits (c ∷ s) "le" "l" "e" digits refl
  ends false = ends_with-digits (c ∷ s) "be" "l" "e" digits refl

  ends_be : ends_with ((c ∷ s) ++ "be") "be" ≡ true
  unfolding is_ascii_digit ends_with
  ends_be = ends_with-digits (c ∷ s) "be" "b" "e" digits refl

  read : parse_uint 10 max_u64 (c ∷ s) ≡ some n
  read = parse_uint-value 10 max_u64 c s n (omega arith) spelt ∙ rw (le→leb n max_u64 fits)

  kind_of-fixed : (le : Bool) → kind_of ((c ∷ s) ++ order le) ≡ ok (fixed_bytes n le)
  unfolding kind_of width_with_order is_ascii_digit
  kind_of-fixed true = rw (other_text true "r" "est" refl) (
      rw (other_text true "." "." refl) (
        rw (other_text true "b" "ytes" refl)
          (rw (not_words true) (rw (ends true) (rw (stripped true) (rw read))))))
  kind_of-fixed false = rw (other_text false "r" "est" refl) (
      rw (other_text false "." "." refl) (
        rw (other_text false "b" "ytes" refl)
          (rw (not_words false) (rw (ends false) (rw ends_be (rw (stripped false) (rw read)))))))

  -- A field of a fixed number of bytes, written as its name without ":", a colon, digits for a
  -- number of at most 2 ^ 64 - 1 and "le" or "be", is read back.
  pub parse_field_spec-fixed :
      (name : String) (le : Bool)
      → HasNo b':' name
      → parse_field_spec (name ++ (":" ++ ((c ∷ s) ++ order le)))
        ≡ ok (record { name = name; kind = fixed_bytes n le })
  unfolding parse_field_spec named
  parse_field_spec-fixed name le h =
      let colon : ":" ++ ((c ∷ s) ++ order le) ≡ ":" ∷ ((c ∷ s) ++ order le) =
        cons-append ":" "" ((c ∷ s) ++ order le)
        ∙ ap (λ (t : String). ":" ∷ t) (nil-append ((c ∷ s) ++ order le)) in
      rw colon (
        rw (split_once-append b':' name ":" ((c ∷ s) ++ order le) h refl, parse_field_spec)
          (rw (kind_of-fixed le)))

-- The kind of a response entry: with the order of its bits or points, or without it where that is
-- the default.
abbrev pub kind_text : Bool → ResponseEntry → String
kind_text spelt (block_words name true) = "blocks_words_le"
kind_text spelt (block_words name false) = "blocks_words_be"
kind_text true (block_bits_packed name true) = "blocks_bits_packed:lsb"
kind_text false (block_bits_packed name true) = "blocks_bits_packed"
kind_text spelt (block_bits_packed name false) = "blocks_bits_packed:msb"
kind_text true (block_nibbles name true) = "blocks_nibbles:high"
kind_text false (block_nibbles name true) = "blocks_nibbles"
kind_text spelt (block_nibbles name false) = "blocks_nibbles:low"
kind_text spelt (hex_text name) = "ascii_hex"

abbrev pub entry_name : ResponseEntry → String
entry_name (block_words name le) = name
entry_name (block_bits_packed name lsb) = name
entry_name (block_nibbles name high) = name
entry_name (hex_text name) = name

-- An entry, and whether its order is spelt out although it is the default.
abbrev pub entry_text : Bool × ResponseEntry → String
entry_text (spelt, entry) = entry_name entry ++ (":" ++ kind_text spelt entry)

split_entry :
    (name kind : String)
    → HasNo b':' name
    → split b':' (name ++ (":" ++ kind)) ≡ name ∷ split b':' kind
split_entry name kind h =
    let colon : ":" ++ kind ≡ ":" ∷ kind =
      cons-append ":" "" kind ∙ ap (λ (t : String). ":" ∷ t) (nil-append kind) in
    rw colon (split-append b':' name ":" kind h refl)

kind_read :
    (rf : String) (spelt : Bool) (entry : ResponseEntry)
    → parse_response_format rf (entry_name entry ∷ split b':' (kind_text spelt entry)) ≡ ok entry
unfolding parse_response_format entry_of split
kind_read rf true (block_words name true) = refl
kind_read rf false (block_words name true) = refl
kind_read rf true (block_words name false) = refl
kind_read rf false (block_words name false) = refl
kind_read rf true (block_bits_packed name true) = refl
kind_read rf false (block_bits_packed name true) = refl
kind_read rf true (block_bits_packed name false) = refl
kind_read rf false (block_bits_packed name false) = refl
kind_read rf true (block_nibbles name true) = refl
kind_read rf false (block_nibbles name true) = refl
kind_read rf true (block_nibbles name false) = refl
kind_read rf false (block_nibbles name false) = refl
kind_read rf true (hex_text name) = refl
kind_read rf false (hex_text name) = refl

-- The response format of any entries whose names have no ":" is read back, for each entry whether
-- it has the order of its bits or points written behind its kind, as "blocks_nibbles:high", or
-- has the default and leaves it out, as "blocks_bits_packed": that is the low bit first, and the
-- high half of a byte first.
pub parse_response_formats-text :
    (entries : List (Bool × ResponseEntry))
    → All (λ p. HasNo b':' (entry_name p.1)) entries
    → parse_response_formats (map entry_text entries) ≡ ok (map (λ p. p.1) entries)
unfolding parse_response_formats
parse_response_formats-text [] h = refl
parse_response_formats-text ((spelt, entry) ∷ entries) (h, hs) =
    rw (split_entry (entry_name entry) (kind_text spelt entry) h) (
      rw (kind_read (entry_text (spelt, entry)) spelt entry)
        (rw (parse_response_formats-text entries hs)))
