-- ===== src/Match.antt =====
-- `match` on a string, as `from_str` of src/commands.rs and of src/device.rs does it.
use melsec_mc.Prelude.{
  String, List, [], ◌∷◌, ◌≡◌, refl, ◌∙◌, str_eq, eq_iff, if◌then◌else◌, Bool, ◌&&◌, Bool-cases, inl,
  inr, true, false,
}
use melsec_mc.Error.{Message, Result, ok, fail}

-- The arms in their order, each a string and what it gives, and the error of the last arm.
unfoldable pub match_str {ℓ} : {A : Type ℓ} → List (String × A) → Message → String → Result A
match_str [] other s = fail other
match_str ((name, a) ∷ arms) other s =
    let rest = match_str arms other s in if str_eq s name then ok a else rest

-- Each arm's string is the name of what it gives.
unfoldable pub are_names {ℓ} : {A : Type ℓ} → (A → String) → List (String × A) → Bool
are_names as_str [] = true
are_names as_str ((name, a) ∷ arms) = str_eq name (as_str a) && are_names as_str arms

&&-left : (a b : Bool) → (a && b) ≡ true → a ≡ true
&&-left true b h = refl
&&-left false b h = h

&&-right : (a b : Bool) → (a && b) ≡ true → b ≡ true
&&-right true b h = h
&&-right false b h = cc

-- Where each arm's string is the name of what it gives, a string that matches is a name.
pub match_str-ok {ℓ} :
    {A : Type ℓ} (as_str : A → String) (arms : List (String × A)) (other : Message) (s : String)
    (a : A)
    → are_names as_str arms ≡ true
    → match_str arms other s ≡ ok a
    → s ≡ as_str a
unfolding match_str are_names
match_str-ok as_str [] other s a names h = cc
match_str-ok as_str ((name, b) ∷ arms) other s a names h = elim (Bool-cases (str_eq s name)) [
  | inl same ↦
      let e : ok b ≡ ok a = rw same at h in
      (eq_iff s name).0 same
      ∙ (eq_iff name (as_str b)).0 (&&-left (str_eq name (as_str b)) _ names)
      ∙ (cc)
  | inr differs ↦
      let e : match_str arms other s ≡ ok a = rw differs at h in
      match_str-ok as_str arms other s a (&&-right (str_eq name (as_str b)) _ names) e
]
