-- ===== src/Text/Laws.antt =====
-- Trimming and splitting.
use Prim.Native.Char.{Char, code}
use Prim.Native.String.{String, [], ◌∷◌, ◌++◌}
use text.Mathlib.TextLemmas.{nil-append, cons-append}
use melsec_mc.Prelude.{ℕ, ◌≡◌, refl, arith, Bool, true, false, some, [], ◌∷◌, ◌==◌}
use melsec_mc.Text.{is_whitespace, trim_start, trim_end, trim, split_once, split, strip_prefix}

-- Every char of a text is one for which a test holds.
abbrev pub Every : (ℕ → Bool) → String → Type 0
Every test [] = Unit
Every test (c ∷ s) = (test (code c) ≡ true) × Every test s

abbrev pub HasNo : ℕ → String → Type 0
HasNo sep [] = Unit
HasNo sep (c ∷ s) = ((code c == sep) ≡ false) × HasNo sep s

abbrev pub NoWhitespace : String → Type 0
NoWhitespace [] = Unit
NoWhitespace (c ∷ s) = (is_whitespace (code c) ≡ false) × NoWhitespace s

trim_end_lem : (s : String) → NoWhitespace s → trim_end s ≡ s
unfolding trim_end
trim_end_lem [] h = refl
trim_end_lem (c ∷ s) (h, hs) = rw h (rw (trim_end_lem s hs))

pub trim_lem : (s : String) → NoWhitespace s → trim s ≡ s
unfolding trim trim_start
trim_lem [] h = refl
trim_lem (c ∷ s) (h, hs) = rw h (trim_end_lem (c ∷ s) (h, hs))

pub split_once-append :
    (sep : ℕ) (l : String) (c : Char) (r : String)
    → HasNo sep l
    → (code c == sep) ≡ true
    → split_once sep (l ++ (c ∷ r)) ≡ some (l, r)
unfolding split_once
split_once-append sep [] c r h e = rw (nil-append (c ∷ r)) (rw e)
split_once-append sep (d ∷ l) c r (h, hl) e =
    rw (cons-append d l (c ∷ r)) (rw h (rw (split_once-append sep l c r hl e)))

pub split-append :
    (sep : ℕ) (l : String) (c : Char) (r : String)
    → HasNo sep l
    → (code c == sep) ≡ true
    → split sep (l ++ (c ∷ r)) ≡ l ∷ split sep r
unfolding split
split-append sep [] c r h e = rw (nil-append (c ∷ r)) (rw e)
split-append sep (d ∷ l) c r (h, hl) e =
    rw (cons-append d l (c ∷ r)) (rw h (rw (split-append sep l c r hl e)))

pub split_lem : (sep : ℕ) (s : String) → HasNo sep s → split sep s ≡ s ∷ []
unfolding split
split_lem sep [] h = refl
split_lem sep (c ∷ s) (h, hs) = rw h (rw (split_lem sep s hs))

pub strip_prefix-append : (p s : String) → strip_prefix (p ++ s) p ≡ some s
unfolding strip_prefix
strip_prefix-append [] s = rw (nil-append s)
strip_prefix-append (c ∷ p) s =
    let same : (code c == code c) ≡ true = ground arith in
    rw (cons-append c p s) (rw same (strip_prefix-append p s))
