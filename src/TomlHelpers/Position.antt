-- ===== src/TomlHelpers/Position.antt =====
-- The position in a message of the crate toml is found.
use Prim.Native.Char.{Char, code}
use Prim.Native.String.{String, [], ◌∷◌, ◌++◌}
use text.Mathlib.TextLemmas.{nil-append, cons-append, append_assoc}
use melsec_mc.Prelude.{ℕ, ◌≤◌, ◌<◌, ◌≡◌, ap, refl, ◌∙◌, arith, false, none, some, ◌==◌, le→leb}
use melsec_mc.Text.{is_ascii_digit, is_empty, strip_prefix, after, leading_digits, max_u64}
use melsec_mc.Text.Laws.{HasNo, Every, strip_prefix-append}
use melsec_mc.Text.Numbers.{value, parse_uint-value, digits_of-value}
use melsec_mc.TomlHelpers.{leading_number, extract_line_col_from_msg}

other_first :
    (d c : Char) (s p : String) → (code d == code c) ≡ false → strip_prefix (d ∷ s) (c ∷ p) ≡ none
unfolding strip_prefix
other_first d c s p h = rw h

-- Behind a text without the first char of what is searched.
after-append :
    (before : String) (c : Char) (p s : String)
    → HasNo (code c) before
    → after (before ++ ((c ∷ p) ++ s)) (c ∷ p) ≡ some s
unfolding after
after-append [] c p s h =
    let whole : strip_prefix (c ∷ (p ++ s)) (c ∷ p) ≡ some s =
      rw (← cons-append c p s) (strip_prefix-append (c ∷ p) s) in
    rw (nil-append ((c ∷ p) ++ s)) (rw (cons-append c p s) (rw (whole, after)))
after-append (d ∷ before) c p s (h, hs) =
    let none_here : strip_prefix (d ∷ (before ++ ((c ∷ p) ++ s))) (c ∷ p) ≡ none =
      other_first d c _ p h in
    rw (cons-append d before ((c ∷ p) ++ s)) (rw (none_here, after) (after-append before c p s hs))

leading_digits-append :
    (digits : String) (c : Char) (s : String)
    → Every is_ascii_digit digits
    → is_ascii_digit (code c) ≡ false
    → leading_digits (digits ++ (c ∷ s)) ≡ digits
unfolding leading_digits
leading_digits-append [] c s h other = rw (nil-append (c ∷ s)) (rw other)
leading_digits-append (d ∷ digits) c s (h, hs) other =
    rw (cons-append d digits (c ∷ s)) (rw h (rw (leading_digits-append digits c s hs other)))

leading_number-value :
    (d : Char) (digits : String) (c : Char) (s : String) (n : ℕ)
    → value 10 0 (d ∷ digits) ≡ some n
    → n ≤ max_u64
    → is_ascii_digit (code c) ≡ false
    → leading_number ((d ∷ digits) ++ (c ∷ s)) ≡ some n
unfolding leading_number is_empty
leading_number-value d digits c s n e fits other =
    rw (leading_digits-append (d ∷ digits) c s (digits_of-value 0 (d ∷ digits) n e) other)
      (parse_uint-value 10 max_u64 d digits n (omega arith) e ∙ rw (le→leb n max_u64 fits))

HasNo-digits : (sep : ℕ) (s : String) → b'9' < sep → Every is_ascii_digit s → HasNo sep s
unfolding is_ascii_digit
HasNo-digits sep [] h hs = tt
HasNo-digits sep (c ∷ s) h (hc, hs) = (ground arith, HasNo-digits sep s h hs)

HasNo-append : (sep : ℕ) (l r : String) → HasNo sep l → HasNo sep r → HasNo sep (l ++ r)
HasNo-append sep [] r hl hr = rw (nil-append r) hr
HasNo-append sep (c ∷ l) r (h, hl) hr = rw (cons-append c l r) (h, HasNo-append sep l r hl hr)

comma_lem : (s : String) → ", " ++ s ≡ "," ∷ (" " ∷ s)
comma_lem s =
    cons-append "," " " s
    ∙ ap (λ (t : String). "," ∷ t)
        (cons-append " " "" s ∙ ap (λ (t : String). " " ∷ t) (nil-append s))

not_c : HasNo b'c' ", "
not_c = (refl, (refl, tt))

-- From a message of the crate toml that names a line and a column, both are read: before "line "
-- there is no "l", the line and the column are digits for numbers of at most 2 ^ 64 - 1, ", "
-- stands between the line and "column ", and something that is no digit behind the column.
pub extract_line_col_from_msg_lem :
    (before : String) (d : Char) (line : String) (e : Char) (col : String) (c : Char) (s : String)
    (n m : ℕ)
    → HasNo b'l' before
    → value 10 0 (d ∷ line) ≡ some n
    → n ≤ max_u64
    → value 10 0 (e ∷ col) ≡ some m
    → m ≤ max_u64
    → is_ascii_digit (code c) ≡ false
    → extract_line_col_from_msg
        (before ++ ("line " ++ ((d ∷ line) ++ (", " ++ ("column " ++ ((e ∷ col) ++ (c ∷ s)))))))
      ≡ some (n, m)
unfolding extract_line_col_from_msg is_ascii_digit
extract_line_col_from_msg_lem before d line e col c s n m hb hn fn hm fm hc =
    let rest : String = (e ∷ col) ++ (c ∷ s) in
    let digits = digits_of-value 0 (d ∷ line) n hn in
    let at_line : after (before ++ ("line " ++ ((d ∷ line) ++ (", " ++ ("column " ++ rest)))))
          "line "
        ≡ some ((d ∷ line) ++ (", " ++ ("column " ++ rest))) =
      after-append before "l" "ine " _ hb in
    let number : leading_number ((d ∷ line) ++ (", " ++ ("column " ++ rest))) ≡ some n =
      rw (comma_lem ("column " ++ rest)) (leading_number-value d line "," _ n hn fn refl) in
    let at_column : after ((d ∷ line) ++ (", " ++ ("column " ++ rest))) "column " ≡ some rest =
      rw (← append_assoc (d ∷ line) ", " ("column " ++ rest)) (
        after-append ((d ∷ line) ++ ", ") "c" "olumn " rest (
          HasNo-append b'c' (d ∷ line) ", " (HasNo-digits b'c' (d ∷ line) (omega arith) digits)
            not_c)) in
    rw (at_line, extract_line_col_from_msg)
      (rw number (rw at_column (rw (leading_number-value e col c s m hm fm hc))))
