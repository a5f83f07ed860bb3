-- ===== src/Registry/Response/Bounds.antt =====
-- `parse_response` reads in range.
use melsec_mc.Prelude.{
  ℕ, ◌-◌, zero, suc, ◌+◌, ◌*◌, ◌/◌, ◌^◌, ◌≤◌, ◌<◌, ◌≢◌, refl, All, le→ltb, Bool, String, List, [],
  ◌∷◌, arith, length, leb, ltb, Bool-cases, inl, inr,
}
use melsec_mc.Error.{Result, ok, err, panic, ◌>>=◌, bind-ne-panic}
use melsec_mc.Bytes.{Bytes}
use melsec_mc.Bytes.Reads.{byte_at-lt}
use melsec_mc.Device.{Device}
use melsec_mc.Json.{Json}
use melsec_mc.Registry.{
  ResponseEntry, block_words, block_bits_packed, block_nibbles, hex_text, CommandSpec,
}
use melsec_mc.Registry.Response.{
  bits_of_word, number_values, bool_values, ensure_bytes_available, words_at, bits_at, nibbles_at,
  read_block_count, word_blocks, bit_blocks, nibble_blocks, hex_rest, parse_entry,
  parse_response_entries, parse_response, blocks_of,
}

words_at-ne-panic :
    (le : Bool) (buf : Bytes) (offset count : ℕ)
    → offset + count * 2 ≤ length buf
    → words_at le buf offset count ≢ panic
unfolding words_at
words_at-ne-panic le buf offset zero h = cc
words_at-ne-panic le buf offset (suc count) h =
    rw (byte_at-lt buf offset (omega arith), byte_at-lt buf (offset + 1) (omega arith))
      (bind-ne-panic (words_at le buf (offset + 2) count) _
        (words_at-ne-panic le buf (offset + 2) count (omega arith)) λ ws. cc)

bits_at-ne-panic :
    (lsb_first : Bool) (buf : Bytes) (offset i count : ℕ)
    → offset + (i + count + 7) / 8 ≤ length buf
    → bits_at lsb_first buf offset i count ≢ panic
unfolding bits_at
bits_at-ne-panic lsb_first buf offset i zero h = cc
bits_at-ne-panic lsb_first buf offset i (suc count) h =
    rw (byte_at-lt buf (offset + i / 8) (omega arith)) (
      bind-ne-panic (bits_at lsb_first buf offset (i + 1) count) _
        (bits_at-ne-panic lsb_first buf offset (i + 1) count (omega arith)) λ bs. cc)

nibbles_at-ne-panic :
    (high_first : Bool) (buf : Bytes) (offset count : ℕ)
    → offset + (count + 1) / 2 ≤ length buf
    → nibbles_at high_first buf offset count ≢ panic
unfolding nibbles_at
nibbles_at-ne-panic high_first buf offset zero h = cc
nibbles_at-ne-panic high_first buf offset (suc zero) h =
    rw (byte_at-lt buf offset (omega arith)) (cc)
nibbles_at-ne-panic high_first buf offset (suc (suc count)) h =
    rw (byte_at-lt buf offset (omega arith)) (
      bind-ne-panic (nibbles_at high_first buf (offset + 1) count) _
        (nibbles_at-ne-panic high_first buf (offset + 1) count (omega arith)) λ bs. cc)

-- A result that is no panic, with a property of what it returns.
abbrev Safe : {A : Type 0} → (A → Type 0) → Result A → Type 0
Safe P (ok a) = P a
Safe P (err e) = Unit
Safe P panic = ⊥

bind-Safe :
    {A : Type 0} {B : Type 0} (P : A → Type 0) (Q : B → Type 0) (m : Result A) (f : A → Result B)
    → Safe P m
    → ((a : A) → P a → Safe Q (f a))
    → Safe Q (m >>= f)
bind-Safe P Q (ok a) f h next = next a h
bind-Safe P Q (err e) f h next = tt
bind-Safe P Q panic f h next = h

Safe-ne-panic : {A : Type 0} (m : Result A) → m ≢ panic → Safe (λ (a : A). Unit {0}) m
Safe-ne-panic (ok a) h = tt
Safe-ne-panic (err e) h = tt
Safe-ne-panic panic h = absurd (h refl)

ne-panic-Safe : {A : Type 0} (P : A → Type 0) (m : Result A) → Safe P m → m ≢ panic
ne-panic-Safe P (ok a) h = cc
ne-panic-Safe P (err e) h = cc
ne-panic-Safe P panic h = absurd h

-- The bytes are there behind a check that there are enough, whose sum fits.
enough-Safe :
    {A : Type 0} (P : A → Type 0) (buf : Bytes) (offset needed : ℕ) (kind : String)
    (next : Result A)
    → offset + needed < 2 ^ 64
    → (offset + needed ≤ length buf → Safe P next)
    → Safe P (ensure_bytes_available buf offset needed kind >>= λ _. next)
unfolding ensure_bytes_available
enough-Safe P buf offset needed kind next fits h =
    rw (le→ltb (2 ^ 64 - 1) (offset + needed) (omega arith))
      (elim (Bool-cases (ltb (length buf) (offset + needed))) [
        | inl short ↦ rw short tt
        | inr enough ↦ rw enough (h (ground arith))
      ])

module _ (j : Json) where
  -- The count of a block, if it has one, is at most 2 ^ 62.
  abbrev pub IsSmall : String → j.Value → Type 0
  IsSmall name block = Safe (λ (n : ℕ). n ≤ 2 ^ 62) (read_block_count j block name)

  word_blocks-Safe :
      (devices : List Device) (name : String) (le : Bool) (params : j.Value) (buf : Bytes)
      (blocks : List j.Value) (offset : ℕ) (m : j.Map)
      → length buf < 2 ^ 63
      → offset ≤ length buf
      → All (IsSmall name) blocks
      → Safe
          (λ (r : List j.Value × (ℕ × j.Map)). r.1.0 ≤ length buf)
          (word_blocks j devices name le params buf blocks offset m)
  unfolding word_blocks
  word_blocks-Safe devices name le params buf [] offset m size h small = h
  word_blocks-Safe devices name le params buf (block ∷ blocks) offset m size h (s, small) =
      bind-Safe _ _ (read_block_count j block name) _ s λ count few.
        elim (Bool-cases (leb (count * 2) (2 ^ 64 - 1))) [
          | inl fits ↦ rw fits (
              enough-Safe _ buf offset (count * 2) "word block" _ (omega arith) λ enough.
                bind-Safe _ _ (words_at le buf offset count) _
                  (Safe-ne-panic _ (words_at-ne-panic le buf offset count enough))
                  λ ws _.
                    bind-Safe (λ (r : List j.Value × (ℕ × j.Map)). r.1.0 ≤ length buf)
                      (λ (r : List j.Value × (ℕ × j.Map)). r.1.0 ≤ length buf)
                      (word_blocks j devices name le params buf blocks (offset + count * 2)
                        (bits_of_word j devices params block ws m))
                      (λ rest. ok (j.array (number_values j ws) ∷ rest.0, rest.1))
                      (word_blocks-Safe devices name le params buf blocks (offset + count * 2)
                        (bits_of_word j devices params block ws m) size enough small)
                      λ rest at. at)
          | inr large ↦ rw large tt
        ]

  bit_blocks-Safe :
      (name : String) (lsb_first : Bool) (buf : Bytes) (blocks : List j.Value) (offset : ℕ)
      → length buf < 2 ^ 63
      → offset ≤ length buf
      → All (IsSmall name) blocks
      → Safe
          (λ (r : List j.Value × ℕ). r.1 ≤ length buf)
          (bit_blocks j name lsb_first buf blocks offset)
  unfolding bit_blocks
  bit_blocks-Safe name lsb_first buf [] offset size h small = h
  bit_blocks-Safe name lsb_first buf (block ∷ blocks) offset size h (s, small) =
      bind-Safe _ _ (read_block_count j block name) _ s λ count few.
        enough-Safe _ buf offset ((count + 7) / 8) "bit block" _ (omega arith) λ enough.
          bind-Safe _ _ (bits_at lsb_first buf offset 0 count) _
            (Safe-ne-panic _
              (bits_at-ne-panic lsb_first buf offset 0 count (omega (arith, enough))))
            λ bits _.
              bind-Safe (λ (r : List j.Value × ℕ). r.1 ≤ length buf)
                (λ (r : List j.Value × ℕ). r.1 ≤ length buf)
                (bit_blocks j name lsb_first buf blocks (offset + (count + 7) / 8))
                (λ rest. ok (j.array (bool_values j bits) ∷ rest.0, rest.1))
                (bit_blocks-Safe name lsb_first buf blocks (offset + (count + 7) / 8) size enough
                  small)
                λ rest at. at

  nibble_blocks-Safe :
      (name : String) (high_first : Bool) (buf : Bytes) (blocks : List j.Value) (offset : ℕ)
      → length buf < 2 ^ 63
      → offset ≤ length buf
      → All (IsSmall name) blocks
      → Safe
          (λ (r : List j.Value × ℕ). r.1 ≤ length buf)
          (nibble_blocks j name high_first buf blocks offset)
  unfolding nibble_blocks
  nibble_blocks-Safe name high_first buf [] offset size h small = h
  nibble_blocks-Safe name high_first buf (block ∷ blocks) offset size h (s, small) =
      bind-Safe _ _ (read_block_count j block name) _ s λ count few.
        enough-Safe _ buf offset ((count + 1) / 2) "nibble block" _ (omega arith) λ enough.
          bind-Safe _ _ (nibbles_at high_first buf offset count) _
            (Safe-ne-panic _ (nibbles_at-ne-panic high_first buf offset count enough))
            λ nibbles _.
              bind-Safe (λ (r : List j.Value × ℕ). r.1 ≤ length buf)
                (λ (r : List j.Value × ℕ). r.1 ≤ length buf)
                (nibble_blocks j name high_first buf blocks (offset + (count + 1) / 2))
                (λ rest. ok (j.array (bool_values j nibbles) ∷ rest.0, rest.1))
                (nibble_blocks-Safe name high_first buf blocks (offset + (count + 1) / 2) size
                  enough small)
                λ rest at. at

  hex_rest-Safe :
      (name : String) (buf : Bytes) (offset : ℕ) (m : j.Map)
      → Safe (λ (r : ℕ × j.Map). r.0 ≤ length buf) (hex_rest j name buf offset m)
  unfolding hex_rest
  hex_rest-Safe name buf offset m = ground arith

  -- The parameters' blocks for an entry are small.
  abbrev pub HasSmall : j.Value → ResponseEntry → Type 0
  HasSmall params (block_words name le) = All (IsSmall name) (blocks_of j params name)
  HasSmall params (block_bits_packed name lsb) = All (IsSmall name) (blocks_of j params name)
  HasSmall params (block_nibbles name high) = All (IsSmall name) (blocks_of j params name)
  HasSmall params (hex_text name) = Unit

  parse_entry-Safe :
      (devices : List Device) (e : ResponseEntry) (params : j.Value) (buf : Bytes) (offset : ℕ)
      (m : j.Map)
      → length buf < 2 ^ 63
      → offset ≤ length buf
      → HasSmall params e
      → Safe (λ (r : ℕ × j.Map). r.0 ≤ length buf) (parse_entry j devices e params buf offset m)
  unfolding parse_entry
  parse_entry-Safe devices (block_words name le) params buf offset m size h small =
      bind-Safe (λ (r : List j.Value × (ℕ × j.Map)). r.1.0 ≤ length buf)
        (λ (r : ℕ × j.Map). r.0 ≤ length buf)
        (word_blocks j devices name le params buf (blocks_of j params name) offset m)
        (λ r. ok (r.1.0, j.insert r.1.1 name (j.array r.0)))
        (word_blocks-Safe devices name le params buf (blocks_of j params name) offset m size h
          small)
        λ r at. at
  parse_entry-Safe devices (block_bits_packed name lsb_first) params buf offset m size h small =
      bind-Safe (λ (r : List j.Value × ℕ). r.1 ≤ length buf) (λ (r : ℕ × j.Map). r.0 ≤ length buf)
        (bit_blocks j name lsb_first buf (blocks_of j params name) offset)
        (λ r. ok (r.1, j.insert m name (j.array r.0)))
        (bit_blocks-Safe name lsb_first buf (blocks_of j params name) offset size h small)
        λ r at. at
  parse_entry-Safe devices (block_nibbles name high_first) params buf offset m size h small =
      bind-Safe (λ (r : List j.Value × ℕ). r.1 ≤ length buf) (λ (r : ℕ × j.Map). r.0 ≤ length buf)
        (nibble_blocks j name high_first buf (blocks_of j params name) offset)
        (λ r. ok (r.1, j.insert m name (j.array r.0)))
        (nibble_blocks-Safe name high_first buf (blocks_of j params name) offset size h small)
        λ r at. at
  parse_entry-Safe devices (hex_text name) params buf offset m size h small =
      hex_rest-Safe name buf offset m

  entries-Safe :
      (devices : List Device) (es : List ResponseEntry) (params : j.Value) (buf : Bytes)
      (offset : ℕ) (m : j.Map)
      → length buf < 2 ^ 63
      → offset ≤ length buf
      → All (HasSmall params) es
      → Safe (λ (r : j.Map). Unit {0}) (parse_response_entries j devices es params buf offset m)
  unfolding parse_response_entries
  entries-Safe devices [] params buf offset m size h small = tt
  entries-Safe devices (e ∷ es) params buf offset m size h (s, small) =
      bind-Safe _ _ (parse_entry j devices e params buf offset m) _
        (parse_entry-Safe devices e params buf offset m size h s)
        λ r at. entries-Safe devices es params buf r.0 r.1 size at small

  -- However few bytes a response has, for any command's response entries, `parse_response` neither
  -- reads out of range nor overflows, if each block of the parameters that an entry reads has a
  -- count of at most 2 ^ 62, or none. The response has fewer than 2 ^ 63 bytes, as every slice.
  pub parse_response-ne-panic :
      (devices : List Device) (spec : CommandSpec) (params : j.Value) (buf : Bytes)
      → length buf < 2 ^ 63
      → All (HasSmall params) spec.response_entries
      → parse_response j devices spec params buf ≢ panic
  unfolding parse_response
  parse_response-ne-panic devices spec params buf size small =
      ne-panic-Safe (λ (v : j.Value). Unit {0}) _
        (bind-Safe (λ (m : j.Map). Unit {0}) (λ (v : j.Value). Unit {0})
          (parse_response_entries j devices spec.response_entries params buf 0 j.empty)
          (λ m. ok (j.object m))
          (entries-Safe devices spec.response_entries params buf 0 j.empty size (omega arith) small)
          λ m _. tt)
