-- ===== src/Device/Codes/Named.antt =====
-- The codes that have a name: those in the entries.
use melsec_mc.Prelude.{
  ℕ, String, ◌≡◌, refl, some, none, [], ◌∷◌, ◌==◌, ◌⊎◌, inl, inr, Bool-cases, Option-cases, ==_iff,
}
use melsec_mc.Device.Codes.{Entries, name_by_code}

-- The code is that of an entry.
abbrev pub IsNamed : Entries → ℕ → Type 0
IsNamed [] code = ⊥
IsNamed ((name, c) ∷ entries) code = (c ≡ code) ⊎ IsNamed entries code

pub name_by_code-IsNamed :
    (entries : Entries) (code : ℕ) (name : String)
    → name_by_code entries code ≡ some name
    → IsNamed entries code
unfolding name_by_code
name_by_code-IsNamed [] code name e = cc
name_by_code-IsNamed ((n, c) ∷ entries) code name e =
    elim (Option-cases (name_by_code entries code)) [
      | inr (later, found) ↦ inr (name_by_code-IsNamed entries code later found)
      | inl absent ↦ elim (Bool-cases (c == code)) [
        | inl same ↦ inl ((==_iff c code).0 same)
        | inr differs ↦
            let e' : none ≡ some name = rw differs at (rw (absent, name_by_code) at e) in cc
      ]
    ]

pub IsNamed-name_by_code :
    (entries : Entries) (code : ℕ)
    → IsNamed entries code
    → (name : String) × (name_by_code entries code ≡ some name)
unfolding name_by_code
IsNamed-name_by_code [] code h = absurd h
IsNamed-name_by_code ((n, c) ∷ entries) code (inr h) =
    let (later, found) = IsNamed-name_by_code entries code h in (later, rw found refl)
IsNamed-name_by_code ((n, c) ∷ entries) code (inl same) =
    elim (Option-cases (name_by_code entries code)) [
      | inr (later, found) ↦ (later, rw found refl)
      | inl absent ↦ (n, rw absent (rw ((==_iff c code).1 same) refl))
    ]
