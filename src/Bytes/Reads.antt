-- ===== src/Bytes/Reads.antt =====
-- Reads and slices in range do not panic.
use melsec_mc.Prelude.{
  ℕ, ◌+◌, ◌-◌, ◌≤◌, ◌<◌, List, [], ◌∷◌, ◌++◌, ◌≡◌, refl, arith, length, get_elem?, get_elem?-lt,
  get_or, take, drop, le→leb,
}
use melsec_mc.Error.{ok}
use melsec_mc.Bytes.{Bytes, of_option, byte_at, u16_at, slice, le_at}

pub byte_at-lt : (buf : Bytes) (i : ℕ) → i < length buf → byte_at buf i ≡ ok (get_or buf i 0)
unfolding byte_at
byte_at-lt buf i h = rw (get_elem?-lt buf i 0 h)

pub u16_at-lt : (buf : Bytes) (i : ℕ) → i + 1 < length buf → u16_at buf i ≡ ok (le_at buf i)
unfolding u16_at
u16_at-lt buf i h =
    rw (get_elem?-lt buf i 0 (omega arith), get_elem?-lt buf (i + 1) 0 (omega arith))

pub slice-le {ℓ} :
    {A : Type ℓ} (buf : List A) (lo hi : ℕ)
    → lo ≤ hi
    → hi ≤ length buf
    → slice buf lo hi ≡ ok (take (hi - lo) (drop lo buf))
unfolding slice
slice-le buf lo hi p q = rw (le→leb lo hi p, le→leb hi (length buf) q)

-- What stands behind the bytes `before`.
pub byte_at-append :
    (buf before : Bytes) (b : ℕ) (rest : Bytes) (i : ℕ)
    → buf ≡ before ++ (b ∷ rest)
    → i ≡ length before
    → byte_at buf i ≡ ok b
unfolding byte_at
byte_at-append buf before b rest i e at = rw (e, at) (at_end before)
  where
    at_end : (before : Bytes) → of_option (get_elem? (before ++ (b ∷ rest)) (length before)) ≡ ok b
    at_end [] = refl
    at_end (a ∷ before) = at_end before
