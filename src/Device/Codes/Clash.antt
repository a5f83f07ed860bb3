-- ===== src/Device/Codes/Clash.antt =====
-- Devices found by their symbols, and symbols that share a code.
use melsec_mc.Prelude.{
  ℕ, String, ◌≡◌, ◌≢◌, sym, ◌∙◌, arith, none, some, List, [], ◌∷◌, ◌==◌, str_eq, eq_iff, ◌⊎◌, inl,
  inr, Bool-cases, Option-cases, ==_iff,
}
use mathlib.Core.Option.{get_or}
use melsec_mc.Device.{Device, device_by_symbol}
use melsec_mc.Device.Codes.{RawCode, code_by_name, Entries, name_by_code, as_str}

-- Each entry is one of `CODE_BY_NAME`.
abbrev pub AllNamed : List RawCode → Entries → Type 0
AllNamed codes [] = Unit
AllNamed codes ((name, c) ∷ entries) = (code_by_name codes name ≡ some c) × AllNamed codes entries

name_by_code-named :
    (codes : List RawCode) (entries : Entries) (c : ℕ) (name : String)
    → AllNamed codes entries
    → name_by_code entries c ≡ some name
    → code_by_name codes name ≡ some c
unfolding name_by_code
name_by_code-named codes [] c name named e = cc
name_by_code-named codes ((n, d) ∷ entries) c name (this, named) e =
    elim (Option-cases (name_by_code entries c)) [
      | inr (later, found) ↦
          let e' : some later ≡ some name = rw (found, name_by_code) at e in
          name_by_code-named codes entries c name named (found ∙ e')
      | inl absent ↦ elim (Bool-cases (d == c)) [
        | inl same ↦
            let e' : some n ≡ some name = rw same at (rw (absent, name_by_code) at e) in
            let code_eq : d ≡ c = (==_iff d c).0 same in
            let name_eq : n ≡ name = cc in rw (sym name_eq) (rw (sym code_eq) this)
        | inr differs ↦
            let e' : none ≡ some name = rw differs at (rw (absent, name_by_code) at e) in cc
      ]
    ]

device_by_symbol-named :
    (names : ℕ → String) (ds : List Device) (symbol : String) (d : Device)
    → device_by_symbol names ds symbol ≡ some d
    → names d.device_code ≡ symbol
unfolding device_by_symbol
device_by_symbol-named names [] symbol d e = cc
device_by_symbol-named names (d0 ∷ ds) symbol d e =
    elim (Option-cases (device_by_symbol names ds symbol)) [
      | inr (later, found) ↦
          let e' : some later ≡ some d = rw (found, device_by_symbol) at e in
          device_by_symbol-named names ds symbol d (found ∙ e')
      | inl absent ↦ elim (Bool-cases (str_eq (names d0.device_code) symbol)) [
        | inl same ↦
            let e' : some d0 ≡ some d = rw same at (rw (absent, device_by_symbol) at e) in
            let named : names d0.device_code ≡ symbol = (eq_iff _ _).0 same in
            let d_eq : d0 ≡ d = cc in rw (sym d_eq) named
        | inr differs ↦
            let e' : none ≡ some d = rw differs at (rw (absent, device_by_symbol) at e) in cc
      ]
    ]

as_str-known :
    (entries : Entries) (c : ℕ) (symbol : String)
    → symbol ≢ "UNKNOWN"
    → as_str entries c ≡ symbol
    → name_by_code entries c ≡ some symbol
unfolding as_str
as_str-known entries c symbol known e = elim (Option-cases (name_by_code entries c)) [
  | inl absent ↦ let e' : "UNKNOWN" ≡ symbol = rw (absent, get_or) at e in absurd (known (sym e'))
  | inr (name, found) ↦ let e' : name ≡ symbol = rw (found, get_or) at e in rw found (rw e')
]

module _ (codes : List RawCode) (entries : Entries) (named : AllNamed codes entries)
    (devices : List Device) where
  -- A device that is found by a symbol, other than "UNKNOWN", has the code that the embedded file
  -- gives the symbol, in whatever order the codes' map iterates.
  pub device_by_symbol-code :
      (symbol : String) (d : Device)
      → symbol ≢ "UNKNOWN"
      → device_by_symbol (as_str entries) devices symbol ≡ some d
      → code_by_name codes symbol ≡ some d.device_code
  device_by_symbol-code symbol d known e =
      name_by_code-named codes entries d.device_code symbol named (
        as_str-known entries d.device_code symbol known
          (device_by_symbol-named (as_str entries) devices symbol d e))

  -- Of two symbols to which the embedded file gives one code, in whatever order the codes' map
  -- iterates and whatever devices are loaded, at least one finds no device.
  pub device_by_symbol_clash :
      (a b : String) (c : ℕ)
      → a ≢ b
      → a ≢ "UNKNOWN"
      → b ≢ "UNKNOWN"
      → code_by_name codes a ≡ some c
      → code_by_name codes b ≡ some c
      → (device_by_symbol (as_str entries) devices a ≡ none)
        ⊎ (device_by_symbol (as_str entries) devices b ≡ none)
  device_by_symbol_clash a b c differ ka kb ca cb =
      elim (Option-cases (device_by_symbol (as_str entries) devices a)) [
        | inl absent ↦ inl absent
        | inr (d, found) ↦ elim (Option-cases (device_by_symbol (as_str entries) devices b)) [
          | inl absent ↦ inr absent
          | inr (e, found') ↦
              let cd : some d.device_code ≡ some c =
                sym (device_by_symbol-code a d ka found) ∙ ca in
              let ce : some e.device_code ≡ some c =
                sym (device_by_symbol-code b e kb found') ∙ cb in
              let na : as_str entries d.device_code ≡ a =
                device_by_symbol-named (as_str entries) devices a d found in
              let nb : as_str entries e.device_code ≡ b =
                device_by_symbol-named (as_str entries) devices b e found' in
              let same : d.device_code ≡ e.device_code = ground arith in
              absurd (differ (sym na ∙ (rw same nb)))
        ]
      ]
