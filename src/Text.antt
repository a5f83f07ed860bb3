-- ===== src/Text.antt =====
-- `str` and `char` of the standard library, as the parsers of src/device.rs, src/error_codes.rs,
-- src/toml_helpers.rs and src/command_registry.rs use them. A `char` is its code point.
pub mod Numbers
pub mod Laws
use Prim.Native.Char.{Char, code}
use Prim.Native.String.{String, [], ◌∷◌}
use Prim.Native.String as String
use melsec_mc.Prelude.{
  ℕ, zero, suc, ◌+◌, ◌-◌, ◌*◌, Bool, true, false, ◌&&◌, ◌||◌, Option, none, some, List, [], ◌∷◌,
  leb, ◌==◌, str_eq, if◌then◌else◌,
}

-- `char::is_whitespace`
unfoldable pub is_whitespace : ℕ → Bool
is_whitespace c =
    (leb 9 c && leb c 13)
    || c == 0x20
    || c == 0x85
    || c == 0xA0
    || c == 0x1680
    || (leb 0x2000 c && leb c 0x200A)
    || c == 0x2028
    || c == 0x2029
    || c == 0x202F
    || c == 0x205F
    || c == 0x3000

-- `char::is_ascii_digit` and `char::is_ascii_alphabetic`
unfoldable pub is_ascii_digit : ℕ → Bool
is_ascii_digit c = leb b'0' c && leb c b'9'

unfoldable pub is_ascii_alphabetic : ℕ → Bool
is_ascii_alphabetic c = (leb b'A' c && leb c b'Z') || (leb b'a' c && leb c b'z')

unfoldable pub is_empty : String → Bool
is_empty [] = true
is_empty (c ∷ s) = false

-- `str::trim`
unfoldable pub trim_start : String → String
unfolding is_whitespace
trim_start [] = []
trim_start (c ∷ s) = if is_whitespace (code c) then trim_start s else c ∷ s

unfoldable pub trim_end : String → String
unfolding is_whitespace is_empty
trim_end [] = []
trim_end (c ∷ s) =
    let rest = trim_end s in if is_whitespace (code c) && is_empty rest then [] else c ∷ rest

unfoldable pub trim : String → String
unfolding trim_start trim_end
trim s = trim_end (trim_start s)

-- `s.strip_prefix(p)`
unfoldable pub strip_prefix : String → String → Option String
strip_prefix s [] = some s
strip_prefix [] (d ∷ p) = none
strip_prefix (c ∷ s) (d ∷ p) = if code c == code d then strip_prefix s p else none

is_some {ℓ} : {A : Type ℓ} → Option A → Bool
is_some none = false
is_some (some a) = true

unfoldable pub starts_with : String → String → Bool
unfolding strip_prefix is_some
starts_with s p = is_some (strip_prefix s p)

unfoldable pub ends_with : String → String → Bool
ends_with [] p = str_eq [] p
ends_with (c ∷ s) p = str_eq (c ∷ s) p || ends_with s p

-- `s.trim_end_matches(p)`, for a `p` that is not empty: from the back, what is left is dropped
-- where it is one more `p`.
unfoldable pub trim_end_matches : String → String → String
trim_end_matches [] p = []
trim_end_matches (c ∷ s) p =
    let left : String = c ∷ trim_end_matches s p in if str_eq left p then [] else left

-- What stands behind the first `p`, as `&msg[pos + p.len()..]` with `pos` from `msg.find(p)`.
unfoldable pub after : String → String → Option String
after [] p = strip_prefix [] p
after (c ∷ s) p =
    let rest = after s p in
    elim (strip_prefix (c ∷ s) p) [ some behind ↦ some behind | none ↦ rest ]

-- `s.splitn(2, sep)`: the two parts, if there are two.
abbrev pub push_left : Char → Option (String × String) → Option (String × String)
push_left c none = none
push_left c (some (l, r)) = some (c ∷ l, r)

unfoldable pub split_once : ℕ → String → Option (String × String)
split_once sep [] = none
split_once sep (c ∷ s) =
    let rest = split_once sep s in if code c == sep then some ([], s) else push_left c rest

-- `s.split(sep)`
abbrev pub push_first : Char → List String → List String
push_first c [] = (c ∷ []) ∷ []
push_first c (p ∷ ps) = (c ∷ p) ∷ ps

unfoldable pub split : ℕ → String → List String
split sep [] = [] ∷ []
split sep (c ∷ s) = let rest = split sep s in if code c == sep then [] ∷ rest else push_first c rest

-- The longest prefix of ASCII letters, or of ASCII digits.
unfoldable pub leading_letters : String → String
unfolding is_ascii_alphabetic
leading_letters [] = []
leading_letters (c ∷ s) =
    let rest = leading_letters s in if is_ascii_alphabetic (code c) then c ∷ rest else []

unfoldable pub leading_digits : String → String
unfolding is_ascii_digit
leading_digits [] = []
leading_digits (c ∷ s) =
    let rest = leading_digits s in if is_ascii_digit (code c) then c ∷ rest else []

-- The number of chars.
abbrev pub count : String → ℕ
count [] = 0
count (c ∷ s) = suc (count s)

-- `s[..]` from the char with an index on, or from the end.
unfoldable pub drop_chars : ℕ → String → String
drop_chars zero s = s
drop_chars (suc n) [] = []
drop_chars (suc n) (c ∷ s) = drop_chars n s

-- `s.chars().all(|c| c.is_ascii_alphabetic())`
unfoldable pub all_letters : String → Bool
unfolding is_ascii_alphabetic
all_letters [] = true
all_letters (c ∷ s) = is_ascii_alphabetic (code c) && all_letters s

-- `char::to_digit`
unfoldable pub to_digit : ℕ → ℕ → Option ℕ
to_digit radix c =
    let found = λ (d : ℕ). if leb radix d then none else some d in
    if leb b'0' c && leb c b'9'
    then found (c - b'0')
    else if leb b'a' c && leb c b'z'
    then found (c - b'a' + 10)
    else if leb b'A' c && leb c b'Z'
    then found (c - b'A' + 10)
    else none

-- The digits of an unsigned number of at most `max`, behind those of `acc`.
unfoldable pub digits_from : ℕ → ℕ → ℕ → String → Option ℕ
unfolding to_digit
digits_from radix max acc [] = some acc
digits_from radix max acc (c ∷ s) = elim (to_digit radix (code c)) [
  | none ↦ none
  | some d ↦
      let rest = digits_from radix max (acc * radix + d) s in
      if leb (acc * radix + d) max then rest else none
]

-- `from_str_radix` and `parse` for an unsigned type with this maximum: one `+` may stand before
-- the digits. All its errors are `none`.
unfoldable pub parse_uint : ℕ → ℕ → String → Option ℕ
unfolding digits_from
parse_uint radix max [] = none
parse_uint radix max (c ∷ s) =
    if code c == b'+'
    then (if is_empty s then none else digits_from radix max 0 s)
    else digits_from radix max 0 (c ∷ s)

abbrev pub max_u16 : ℕ
max_u16 = 0xFFFF

abbrev pub max_u32 : ℕ
max_u32 = 0xFFFFFFFF

-- Of `u64`, and of `usize`.
abbrev pub max_u64 : ℕ
max_u64 = 0xFFFFFFFFFFFFFFFF

-- The letter with an index.
unfoldable pub letter : ℕ → String → Char → Char
letter n [] c = c
letter zero (d ∷ s) c = d
letter (suc n) (d ∷ s) c = letter n s c

unfoldable pub upper_ascii : Char → Char
unfolding letter
upper_ascii c =
    if leb b'a' (code c) && leb (code c) b'z'
    then letter (code c - b'a') "ABCDEFGHIJKLMNOPQRSTUVWXYZ" c
    else c

-- `to_uppercase`; what Unicode says of a char that is not ASCII is an argument.
unfoldable pub to_uppercase : (Char → String) → String → String
unfolding upper_ascii
to_uppercase other [] = []
to_uppercase other (c ∷ s) =
    let rest = to_uppercase other s in
    if leb (code c) 127 then upper_ascii c ∷ rest else String.◌++◌ (other c) rest
