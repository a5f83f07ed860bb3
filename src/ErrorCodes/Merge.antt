-- ===== src/ErrorCodes/Merge.antt =====
-- What is registered, and how the categories of end codes nest.
use melsec_mc.Prelude.{
  ℕ, ◌≡◌, refl, ◌∙◌, arith, Option, none, some, List, [], ◌∷◌, ◌==◌, if◌then◌else◌,
}
use melsec_mc.Error.{ok}
use melsec_mc.ErrorCodes.{
  ErrorEntry, CodeMap, empty_map, insert, insert_all, Global, register_or_merge, lookup,
}

-- The last entry with a code.
pub last_with : List ErrorEntry → ℕ → Option ErrorEntry
last_with [] code = none
last_with (e ∷ es) code = elim (last_with es code) [
  | some later ↦ some later
  | none ↦ if e.code == code then some e else none
]

abbrev pub or_else {ℓ} : {A : Type ℓ} → Option A → Option A → Option A
or_else (some a) b = some a
or_else none b = b

insert_all_lem :
    (es : List ErrorEntry) (m : CodeMap) (code : ℕ)
    → insert_all m es code ≡ or_else (last_with es code) (m code)
unfolding insert_all last_with insert
insert_all_lem [] m code = refl
insert_all_lem (e ∷ es) m code = insert_all_lem es (insert m e) code ∙ ground arith

-- Registering or merging codes always succeeds. After it, a code has the last of the entries given
-- for it, or else what it had before.
pub register_or_merge_lem :
    (codes : List ErrorEntry) (g : Global) (code : ℕ)
    → ((register_or_merge codes g).0 ≡ ok tt)
      × (lookup (register_or_merge codes g).1 code ≡ or_else (last_with codes code) (lookup g code))
unfolding register_or_merge lookup
register_or_merge_lem codes none code = (refl, insert_all_lem codes empty_map code)
register_or_merge_lem codes (some m) code = (refl, insert_all_lem codes m code)
