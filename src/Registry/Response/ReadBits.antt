-- ===== src/Registry/Response/ReadBits.antt =====
-- `parse_response` on the data of a response to `read_bits`.
use melsec_mc.Prelude.{
  ℕ, ◌+◌, ◌/◌, ◌^◌, ◌<◌, ◌≡◌, refl, ◌∙◌, Bool, true, some, String, List, [], ◌∷◌, ◌++◌, arith,
  length, length-append,
}
use melsec_mc.Error.{ok}
use melsec_mc.Bytes.{Bytes}
use melsec_mc.Device.{Device}
use melsec_mc.Json.{Json, IsJson}
use melsec_mc.Registry.{block_nibbles, CommandSpec}
use melsec_mc.Registry.Params.{Located, create_read_bits_params}
use melsec_mc.Registry.Nibbles.{pack_nibbles, length-pack_nibbles, nibbles_at-packed}
use melsec_mc.Registry.Response.{
  bool_values, nibble_blocks, blocks_of, parse_entry, parse_response_entries, parse_response,
}
use melsec_mc.Registry.Response.ReadBack.{block_of, block_count, ensure_enough}

module _ (j : Json) (laws : IsJson j) where
  data_blocks_of :
      (at : Located) (count : ℕ)
      → blocks_of j (create_read_bits_params j at count) "data_blocks" ≡ block_of j laws count ∷ []
  unfolding blocks_of create_read_bits_params
  data_blocks_of at count = rw (laws.as_object-object, laws.lookup-insert, laws.as_array-array)

  nibble_blocks_lem :
      (name : String) (vs : List Bool) (rest : Bytes)
      → length vs < 2 ^ 16
      → nibble_blocks j name true (pack_nibbles vs ++ rest) (block_of j laws (length vs) ∷ []) 0
        ≡ ok (j.array (bool_values j vs) ∷ [], 0 + (length vs + 1) / 2)
  unfolding nibble_blocks
  nibble_blocks_lem name vs rest small = rw (
    block_count j laws (length vs) name (omega arith),
    ensure_enough (pack_nibbles vs ++ rest) 0 ((length vs + 1) / 2) "nibble block" (omega arith)
        (omega (arith, length-append (pack_nibbles vs) rest, length-pack_nibbles vs)),
    nibbles_at-packed vs (pack_nibbles vs ++ rest) [] rest 0 refl refl,
  )

  -- For a command whose response is one block of nibbles, high half first, under "data_blocks":
  -- points that are packed as for a write are read back.
  pub parse_response-bits :
      (devices : List Device) (spec : CommandSpec) (at : Located) (vs : List Bool) (rest : Bytes)
      → spec.response_entries ≡ block_nibbles "data_blocks" true ∷ []
      → length vs < 2 ^ 16
      → (v : j.Value) × (parse_response j devices spec
            (create_read_bits_params j at (length vs))
            (pack_nibbles vs ++ rest)
          ≡ ok v)
        × (j.get v "data_blocks" ≡ some (j.array (j.array (bool_values j vs) ∷ [])))
  unfolding parse_response parse_response_entries parse_entry
  parse_response-bits devices spec at vs rest entries small = (
    j.object (j.insert j.empty "data_blocks" (j.array (j.array (bool_values j vs) ∷ []))),
    rw (
      entries,
      parse_response_entries,
      data_blocks_of at (length vs),
      nibble_blocks_lem "data_blocks" vs rest small,
    ),
    laws.get-object _ "data_blocks" ∙ laws.lookup-insert _ "data_blocks" _,
  )
