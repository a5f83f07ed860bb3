-- ===== src/ErrorCodes.antt =====
-- src/error_codes.rs: the registry of end codes and the categories. A registry is what its TOML
-- file gives; the global map is what is registered, keyed by the code. No lock is poisoned.
pub mod Merge
pub mod Load
mod Files
use melsec_mc.Prelude.{
  ℕ, ◌≡◌, Bool, true, false, ◌&&◌, Option, none, some, String, List, [], ◌∷◌, leb, ◌==◌,
  if◌then◌else◌,
}
use mathlib.Core.Option.{get_or}
use melsec_mc.Error.{Result, ok, err, already_registered}

pub data ErrorCategory : Type 0 where
  success addressing data_format execution_mode : ErrorCategory
  buffer_range network transport icmp unknown : ErrorCategory

pub record ErrorEntry : Type 0 where
  pub code : ℕ
  pub name : Option String
  pub description : Option String
  pub category : Option ErrorCategory

-- `HashMap<u16, ErrorEntryOwned>`
abbrev pub CodeMap : Type 0
CodeMap = ℕ → Option ErrorEntry

abbrev pub empty_map : CodeMap
empty_map code = none

pub insert : CodeMap → ErrorEntry → CodeMap
insert m e code = if e.code == code then some e else m code

-- `for e in &self.codes { map.insert(..) }`
pub insert_all : CodeMap → List ErrorEntry → CodeMap
insert_all m [] = m
insert_all m (e ∷ es) = insert_all (insert m e) es

-- The global registry, `none` until it is set.
abbrev pub Global : Type 0
Global = Option CodeMap

pub register_codes : List ErrorEntry → Global → Result (Unit {0}) × Global
register_codes codes none = (ok tt, some (insert_all empty_map codes))
register_codes codes (some m) = (err already_registered, some m)

pub register_or_merge : List ErrorEntry → Global → Result (Unit {0}) × Global
register_or_merge codes none = (ok tt, some (insert_all empty_map codes))
register_or_merge codes (some m) = (ok tt, some (insert_all m codes))

pub lookup : Global → ℕ → Option ErrorEntry
lookup none code = none
lookup (some m) code = m code

field_of {ℓ} : {A : Type ℓ} → (ErrorEntry → Option A) → Option ErrorEntry → Option A
field_of f none = none
field_of f (some e) = f e

pub code_description : Global → ℕ → Option String
code_description g code = field_of (λ e. e.description) (lookup g code)

pub code_name : Global → ℕ → Option String
code_name g code = field_of (λ e. e.name) (lookup g code)

code_category : Global → ℕ → ErrorCategory
code_category g code = get_or (field_of (λ e. e.category) (lookup g code)) unknown

is_network_error : ℕ → Bool
is_network_error code = leb 0xC000 code && leb code 0xC0FF

is_buffer_error : ℕ → Bool
is_buffer_error code = leb 0x00A0 code && leb code 0xFFFF

is_transport_error : ℕ → Bool
is_transport_error code = leb 0xC030 code && leb code 0xC04F

is_icmp_error : ℕ → Bool
is_icmp_error code = leb 0xC044 code && leb code 0xC048
