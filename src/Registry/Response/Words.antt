-- ===== src/Registry/Response/Words.antt =====
-- The words that a request's field writes and a response's block reads.
use melsec_mc.Prelude.{
  ℕ, ◌+◌, ◌*◌, ◌/◌, ◌%◌, ◌≡◌, refl, sym, ◌∙◌, ap, Bool, true, false, String, List, [], ◌∷◌, ◌++◌,
  append_assoc, append-nil, arith, length, length-append, All, le→leb,
}
use melsec_mc.Error.{ok}
use melsec_mc.Bytes.{Bytes, IsU16}
use melsec_mc.Bytes.Reads.{byte_at-append}
use melsec_mc.Json.{Json, IsJson}
use melsec_mc.Registry.Fields.{word_bytes, word_items}
use melsec_mc.Registry.Response.{from_bytes, words_at, number_values}

-- The bytes of a list of words.
unfoldable pub bytes_of_words : Bool → List ℕ → Bytes
bytes_of_words le [] = []
bytes_of_words le (w ∷ ws) = word_bytes le w ++ bytes_of_words le ws

from_bytes-word_bytes :
    (le : Bool) (w : ℕ)
    → IsU16 w
    → (b0 : ℕ) × (b1 : ℕ) × (word_bytes le w ≡ b0 ∷ b1 ∷ []) × (from_bytes le b0 b1 ≡ w)
from_bytes-word_bytes true w h = (w % 256, w / 256 % 256, refl, omega arith)
from_bytes-word_bytes false w h = (w / 256 % 256, w % 256, refl, omega arith)

pub words_at-written :
    (le : Bool) (ws : List ℕ) (buf before rest : Bytes) (i : ℕ)
    → All IsU16 ws
    → buf ≡ before ++ (bytes_of_words le ws ++ rest)
    → i ≡ length before
    → words_at le buf i (length ws) ≡ ok ws
unfolding words_at bytes_of_words
words_at-written le [] buf before rest i h e at = refl
words_at-written le (w ∷ ws) buf before rest i h e at =
    let (b0, b1, split, value) = from_bytes-word_bytes le w h.0 in
    let e' : buf ≡ before ++ (b0 ∷ b1 ∷ (bytes_of_words le ws ++ rest)) =
      e ∙ ap (λ t. before ++ ((t ++ bytes_of_words le ws) ++ rest)) split in
    rw (
      byte_at-append buf before b0 (b1 ∷ (bytes_of_words le ws ++ rest)) i e' at,
      byte_at-append buf (before ++ (b0 ∷ [])) b1 (bytes_of_words le ws ++ rest) (i + 1)
          (e' ∙ sym (append_assoc before (b0 ∷ []) _))
          (omega (arith, length-append before (b0 ∷ []))),
      words_at-written le ws buf (before ++ (b0 ∷ b1 ∷ [])) rest (i + 2) h.1
          (e' ∙ sym (append_assoc before (b0 ∷ b1 ∷ []) _))
          (omega (arith, length-append before (b0 ∷ b1 ∷ []))),
      value,
    )

pub length-bytes_of_words :
    (le : Bool) (ws : List ℕ) → length (bytes_of_words le ws) ≡ length ws * 2
unfolding bytes_of_words
length-bytes_of_words le [] = refl
length-bytes_of_words true (w ∷ ws) = omega (arith, length-bytes_of_words true ws)
length-bytes_of_words false (w ∷ ws) = omega (arith, length-bytes_of_words false ws)

module _ (j : Json) (laws : IsJson j) where
  pub word_items-written :
      (le : Bool) (name : String) (ws : List ℕ) (out : Bytes)
      → All IsU16 ws
      → word_items j le name (number_values j ws) out ≡ ok (out ++ bytes_of_words le ws)
  unfolding word_items bytes_of_words
  word_items-written le name [] out h = ap ok (sym (append-nil out))
  word_items-written le name (w ∷ ws) out h =
      rw (laws.as_u64-number w (omega (arith, h.0)), le→leb w 65535 (omega (arith, h.0)))
        (word_items-written le name ws (out ++ word_bytes le w) h.1
          ∙ ap ok (append_assoc out (word_bytes le w) (bytes_of_words le ws)))

  -- Over JSON values with their documented laws: an array of words is written behind what was
  -- written before as two bytes for each word, in the field's byte order, and a block of as many
  -- words reads them back from there, whatever follows.
  pub words_at-word_items :
      (le : Bool) (name : String) (ws : List ℕ) (out rest : Bytes)
      → All IsU16 ws
      → (written : Bytes) × (word_items j le name (number_values j ws) out ≡ ok (out ++ written))
        × (length written ≡ length ws * 2)
        × (words_at le (out ++ (written ++ rest)) (length out) (length ws) ≡ ok ws)
  words_at-word_items le name ws out rest h = (
    bytes_of_words le ws,
    word_items-written le name ws out h,
    length-bytes_of_words le ws,
    words_at-written le ws (out ++ (bytes_of_words le ws ++ rest)) out rest (length out) h refl
        refl,
  )
