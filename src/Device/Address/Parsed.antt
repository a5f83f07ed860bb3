-- ===== src/Device/Address/Parsed.antt =====
-- A device and an address that are read from a text, and the texts that have none.
use Prim.Native.Char.{Char, code}
use Prim.Native.String.{String, [], ◌∷◌, ◌++◌}
use text.Mathlib.TextLemmas.{nil-append, cons-append}
use melsec_mc.Prelude.{
  ℕ, ◌≤◌, ◌≡◌, refl, ◌∙◌, arith, true, false, some, List, leb, le→leb, if◌then◌else◌, inl, inr,
  Bool-cases,
}
use melsec_mc.Error.{
  Result, ok, fail, missing_numeric_address, invalid_numeric_address, address_out_of_range,
}
use melsec_mc.Text.{is_ascii_digit, is_empty, trim, count, drop_chars, max_u32, to_uppercase}
use melsec_mc.Text.Laws.{trim_lem}
use melsec_mc.Text.Numbers.{value, parse_uint-value}
use melsec_mc.Device.{Device, NumberBase, decimal, hexadecimal, device_by_symbol}
use melsec_mc.Device.Address.Letters.{
  Letters, value-NoWhitespace, drop_chars-append, count-upper, is_empty-upper,
  leading_letters-upper, all-Letters-upper,
}
use melsec_mc.Device.Address.{radix_of, address_of, with_symbol, parse_device_and_address}

-- The number if it fits, and the errors where it does not.
abbrev pub checked : String → String → Device → ℕ → Result (Device × ℕ)
checked symbol num_part device addr =
    if leb addr 0xFFFFFF
    then ok (device, addr)
    else if leb addr max_u32
    then fail (address_out_of_range addr)
    else fail (invalid_numeric_address num_part symbol)

radix_pos : (base : NumberBase) → 1 ≤ radix_of base
radix_pos decimal = omega arith
radix_pos hexadecimal = omega arith

trim_nil : is_empty (trim []) ≡ true
unfolding trim is_empty
trim_nil = refl

module _ (other : Char → String) (names : ℕ → String) (devices : List Device) where
  address_of-value :
      (symbol : String) (c : Char) (s : String) (device : Device) (addr : ℕ)
      → value (radix_of device.base) 0 (c ∷ s) ≡ some addr
      → address_of other names devices symbol (c ∷ s) device ≡ checked symbol (c ∷ s) device addr
  unfolding address_of
  address_of-value symbol c s device addr e =
      let read =
        parse_uint-value (radix_of device.base) max_u32 c s addr (radix_pos device.base) e in
      elim (Bool-cases (leb addr max_u32)) [
        | inl fits ↦ rw (read, address_of) (rw fits (ground arith))
        | inr large ↦ rw (read, address_of) (rw large (ground arith))
      ]

  with_symbol-value :
      (l : String) (c : Char) (s : String) (device : Device) (addr : ℕ)
      → Letters l
      → is_empty l ≡ false
      → device_by_symbol names devices (to_uppercase other l) ≡ some device
      → value (radix_of device.base) 0 (c ∷ s) ≡ some addr
      → with_symbol other names devices (l ++ (c ∷ s)) (to_uppercase other l)
        ≡ checked (to_uppercase other l) (c ∷ s) device addr
  unfolding with_symbol is_empty
  with_symbol-value l c s device addr letters full found e =
      let num : trim (drop_chars (count (to_uppercase other l)) (l ++ (c ∷ s))) ≡ c ∷ s =
        rw (count-upper other l letters) (
          rw (drop_chars-append l (c ∷ s))
            (trim_lem (c ∷ s) (value-NoWhitespace (radix_of device.base) 0 (c ∷ s) addr e))) in
      rw (is_empty-upper other l letters)
        (rw full (rw found (rw num (address_of-value (to_uppercase other l) c s device addr e))))

  drop_chars-count : (l : String) → drop_chars (count l) l ≡ []
  unfolding drop_chars
  drop_chars-count [] = refl
  drop_chars-count (c ∷ l) = drop_chars-count l

  -- A text of letters only, such as a hexadecimal address that starts with a letter behind its
  -- symbol, has no address.
  pub parse_device_and_address-Letters :
      (text : String)
      → Letters (trim text)
      → is_empty (trim text) ≡ false
      → parse_device_and_address other names devices text
        ≡ fail (missing_numeric_address (trim text))
  unfolding parse_device_and_address with_symbol
  parse_device_and_address-Letters text letters full = rw full (
      rw (all-Letters-upper other (trim text) letters) (
        rw (is_empty-upper other (trim text) letters) (
          rw full (
            rw (count-upper other (trim text) letters)
              (rw (drop_chars-count (trim text)) (rw trim_nil))))))

  is_empty-append : (l : String) (c : Char) (s : String) → is_empty (l ++ (c ∷ s)) ≡ false
  unfolding is_empty
  is_empty-append [] c s = rw (nil-append (c ∷ s))
  is_empty-append (d ∷ l) c s = rw (cons-append d l (c ∷ s))

  -- A text that is, but for white space around it, ASCII letters and then a digit with what
  -- follows it: if the letters in upper case are the symbol of a device, and what follows spells a
  -- number in the device's base, then the result is the device with the number. A number above
  -- 0xFFFFFF is refused, with another error where it does not fit 32 bits.
  pub parse_device_and_address_lem :
      (text l : String) (c : Char) (s : String) (device : Device) (addr : ℕ)
      → trim text ≡ l ++ (c ∷ s)
      → Letters l
      → is_empty l ≡ false
      → is_ascii_digit (code c) ≡ true
      → device_by_symbol names devices (to_uppercase other l) ≡ some device
      → value (radix_of device.base) 0 (c ∷ s) ≡ some addr
      → parse_device_and_address other names devices text
        ≡ checked (to_uppercase other l) (c ∷ s) device addr
  unfolding parse_device_and_address
  parse_device_and_address_lem text l c s device addr trimmed letters full digit found e =
      rw trimmed (
        rw (is_empty-append l c s) (
          rw (leading_letters-upper other l c s letters digit)
            (with_symbol-value l c s device addr letters full found e)))

-- A text that is, but for white space around it, the symbol of a device in either case and a
-- number in the device's base that starts with a digit, of at most 0xFFFFFF.
pub record Denotes (other : Char → String) (names : ℕ → String) (devices : List Device)
    (text : String) (device : Device) (addr : ℕ) : Type 0 where
  pub symbol : String
  pub first : Char
  pub rest : String
  pub trimmed : trim text ≡ symbol ++ (first ∷ rest)
  pub letters : Letters symbol
  pub full : is_empty symbol ≡ false
  pub digit : is_ascii_digit (code first) ≡ true
  pub found : device_by_symbol names devices (to_uppercase other symbol) ≡ some device
  pub spelt : value (radix_of device.base) 0 (first ∷ rest) ≡ some addr
  pub in_range : addr ≤ 0xFFFFFF

pub parse_device_and_address-Denotes :
    (other : Char → String) (names : ℕ → String) (devices : List Device) (text : String)
    (device : Device) (addr : ℕ)
    → Denotes other names devices text device addr
    → parse_device_and_address other names devices text ≡ ok (device, addr)
parse_device_and_address-Denotes other names devices text device addr d =
    parse_device_and_address_lem other names devices text d.symbol d.first d.rest device addr
      d.trimmed d.letters d.full d.digit d.found d.spelt
    ∙ rw (le→leb addr 0xFFFFFF d.in_range)
