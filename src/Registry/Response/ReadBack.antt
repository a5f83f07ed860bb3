-- ===== src/Registry/Response/ReadBack.antt =====
-- `parse_response` on the data of a response to `read_words`.
use melsec_mc.Prelude.{
  ℕ, ◌+◌, ◌*◌, ◌-◌, ◌^◌, ◌≤◌, ◌<◌, ◌≡◌, refl, ◌∙◌, Bool, some, String, List, [], ◌∷◌, ◌++◌, arith,
  length, length-append, All, le→leb, le→ltb,
}
use melsec_mc.Error.{ok}
use melsec_mc.Bytes.{Bytes, IsU16}
use melsec_mc.Device.{Device}
use melsec_mc.Json.{Json, IsJson}
use melsec_mc.Registry.{block_words, CommandSpec}
use melsec_mc.Registry.Params.{Located, create_read_words_params}
use melsec_mc.Registry.Response.{
  number_values, word_blocks, read_block_count, ensure_bytes_available, blocks_of, bits_of_word,
  parse_entry, parse_response_entries, parse_response,
}
use melsec_mc.Registry.Response.Words.{bytes_of_words, words_at-written, length-bytes_of_words}

pub ensure_enough :
    (buf : Bytes) (offset needed : ℕ) (kind : String)
    → offset + needed < 2 ^ 64
    → offset + needed ≤ length buf
    → ensure_bytes_available buf offset needed kind ≡ ok tt
unfolding ensure_bytes_available
ensure_enough buf offset needed kind fits h =
    rw
      (le→ltb (2 ^ 64 - 1) (offset + needed) (omega arith), le→ltb (length buf) (offset + needed) h)

module _ (j : Json) (laws : IsJson j) where
  abbrev pub block_of : ℕ → j.Value
  block_of count = j.object (j.insert j.empty "count" (j.number count))

  pub block_count :
      (count : ℕ) (name : String)
      → count < 2 ^ 64
      → read_block_count j (block_of count) name ≡ ok count
  unfolding read_block_count
  block_count count name h =
      rw (laws.get-object, laws.lookup-insert, laws.as_u64-number count h, read_block_count)

  data_blocks_of :
      (at : Located) (count : ℕ)
      → blocks_of j (create_read_words_params j at count) "data_blocks" ≡ block_of count ∷ []
  unfolding blocks_of create_read_words_params
  data_blocks_of at count = rw (laws.as_object-object, laws.lookup-insert, laws.as_array-array)

  word_blocks_lem :
      (devices : List Device) (name : String) (le : Bool) (params : j.Value) (ws : List ℕ)
      (rest : Bytes) (m : j.Map)
      → All IsU16 ws
      → length ws < 2 ^ 16
      → word_blocks j devices name le params
          (bytes_of_words le ws ++ rest)
          (block_of (length ws) ∷ [])
          0
          m
        ≡ ok (
          j.array (number_values j ws) ∷ [],
          (0 + length ws * 2, bits_of_word j devices params (block_of (length ws)) ws m),
        )
  unfolding word_blocks
  word_blocks_lem devices name le params ws rest m h small = rw (
    block_count (length ws) name (omega arith),
    le→leb (length ws * 2) (2 ^ 64 - 1) (omega arith),
    ensure_enough (bytes_of_words le ws ++ rest) 0 (length ws * 2) "word block" (omega arith)
        (omega (arith, length-append (bytes_of_words le ws) rest, length-bytes_of_words le ws)),
    words_at-written le ws (bytes_of_words le ws ++ rest) [] rest 0 h refl refl,
  )

  -- Over JSON values with their documented laws, for a command whose response is one block of
  -- words under "data_blocks", and with the parameters of a read of as many words, fewer than
  -- 65536: a response whose data start with the bytes of the words gives an object with one block
  -- under "data_blocks": these words.
  pub parse_response-words :
      (devices : List Device) (spec : CommandSpec) (le : Bool) (at : Located) (ws : List ℕ)
      (rest : Bytes)
      → spec.response_entries ≡ block_words "data_blocks" le ∷ []
      → All IsU16 ws
      → length ws < 2 ^ 16
      → (v : j.Value) × (parse_response j devices spec
            (create_read_words_params j at (length ws))
            (bytes_of_words le ws ++ rest)
          ≡ ok v)
        × (j.get v "data_blocks" ≡ some (j.array (j.array (number_values j ws) ∷ [])))
  unfolding parse_response parse_response_entries parse_entry
  parse_response-words devices spec le at ws rest entries h small = (
    j.object (j.insert seen "data_blocks" (j.array (j.array (number_values j ws) ∷ []))),
    rw (
      entries,
      parse_response_entries,
      data_blocks_of at (length ws),
      word_blocks_lem devices "data_blocks" le params ws rest j.empty h small,
    ),
    laws.get-object _ "data_blocks" ∙ laws.lookup-insert _ "data_blocks" _,
  )
    where
      params : j.Value
      params = create_read_words_params j at (length ws)

      seen : j.Map
      seen = bits_of_word j devices params (block_of (length ws)) ws j.empty

-- Of a response without entries nothing is read.
pub parse_response_no_entries :
    (j : Json) (devices : List Device) (spec : CommandSpec) (params : j.Value) (buf : Bytes)
    → spec.response_entries ≡ []
    → parse_response j devices spec params buf ≡ ok (j.object j.empty)
unfolding parse_response parse_response_entries
parse_response_no_entries j devices spec params buf absent = rw absent
