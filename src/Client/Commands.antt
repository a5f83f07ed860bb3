-- ===== src/Client/Commands.antt =====
-- The commands of `McClient`: `read_words`, `read_bits`, `write_words`, `write_bits`, and
-- `read_words_as` and `write_words_as` over them.
use melsec_mc.Prelude.{ℕ, Bool, true, false, Option, none, some, List, [], ◌∷◌, ◌++◌, leb}
use melsec_mc.Error.{
  Result, ok, err, panic, fail, ◌>>=◌, registry_not_set, command_not_found, word_value_out_of_range,
}
use melsec_mc.Bytes.{Bytes}
use melsec_mc.Config.{Config}
use melsec_mc.Command.{Command}
use melsec_mc.ErrorCodes.{Global}
use melsec_mc.Device.{Device}
use melsec_mc.Json.{Json}
use melsec_mc.Codec.{FromWords, ToWords, required_words, decode_all, flat}
use melsec_mc.Registry.{CommandSpec}
use melsec_mc.Registry.Fields.{and_then}
use melsec_mc.Registry.Blocks.{build_request}
use melsec_mc.Registry.Response.{parse_response}
use melsec_mc.Registry.Params.{
  Located, create_read_words_params, create_read_bits_params, create_write_words_params,
  create_write_bits_params,
}
use melsec_mc.Client.{McClient, Done, perform}

-- The global registry, and the specification of a command in it.
abbrev Specs : Type 0
Specs = Option (Command → Option CommandSpec)

abbrev found_spec : Option CommandSpec → Result CommandSpec
found_spec none = fail command_not_found
found_spec (some spec) = ok spec

unfoldable pub spec_of : Specs → Command → Result CommandSpec
spec_of none id = fail registry_not_set
spec_of (some specs) id = found_spec (specs id)

-- The words of a block, behind those before; what is not a number is left out.
module _ (j : Json) where
  unfoldable pub words_of_items : List j.Value → List ℕ → Result (List ℕ)
  words_of_items [] out = ok out
  words_of_items (item ∷ items) out = elim (j.as_u64 item) [
    | none ↦ words_of_items items out
    | some n ↦ elim (leb n 65535) [
      | true ↦ words_of_items items (out ++ (n ∷ []))
      | false ↦ fail word_value_out_of_range
    ]
  ]

  unfoldable pub words_of_blocks : List j.Value → List ℕ → Result (List ℕ)
  words_of_blocks [] out = ok out
  words_of_blocks (block ∷ blocks) out = elim (j.as_array block) [
    | none ↦ words_of_blocks blocks out
    | some items ↦ words_of_items items out >>= λ out'. words_of_blocks blocks out'
  ]

  -- The words under "data_blocks".
  unfoldable pub collected : j.Value → Result (List ℕ)
  collected parsed = elim (and_then j (j.get parsed "data_blocks") j.as_array) [
    | none ↦ ok []
    | some blocks ↦ words_of_blocks blocks []
  ]

-- The loop of `read_words_as` always ends, so there is a list.
abbrev pub decoded : {T : Type 0} → Option (List T) → Result (List T)
decoded (some vs) = ok vs
decoded none = panic

module _ (j : Json) (devices : List Device) (specs : Specs) {S : Type 0}
    (exchange : Bytes → S → Result Bytes × S) (config : Config) (codes : Global)
    (client : McClient) where
  -- A command with parameters, and what is done with the value that its response gives.
  unfoldable pub run_spec :
      {A : Type 0} → (j.Value → Result A) → j.Value → Result CommandSpec → ℕ → S → Done S A
  run_spec after params (err e) counter s = record { outcome = err e; counter = counter; state = s }
  run_spec after params panic counter s = record { outcome = panic; counter = counter; state = s }
  run_spec after params (ok spec) counter s =
      perform exchange config codes client
        (λ buf. parse_response j devices spec params buf >>= after)
        (build_request j devices spec params (some client.plc_series)) counter s

  unfoldable pub read_words : Located → ℕ → ℕ → S → Done S j.Value
  read_words at count =
      run_spec ok (create_read_words_params j at count) (spec_of specs Command.read_words)

  unfoldable pub read_bits : Located → ℕ → ℕ → S → Done S j.Value
  read_bits at count =
      run_spec ok (create_read_bits_params j at count) (spec_of specs Command.read_bits)

  unfoldable pub write_words : Located → List ℕ → ℕ → S → Done S j.Value
  write_words at values =
      run_spec ok (create_write_words_params j at values) (spec_of specs Command.write_words)

  pub write_bits : Located → List Bool → ℕ → S → Done S j.Value
  write_bits at values =
      run_spec ok (create_write_bits_params j at values) (spec_of specs Command.write_bits)

  module _ {T : Type 0} where
    typed : FromWords T → Located → ℕ → Result ℕ → ℕ → S → Done S (List T)
    typed codec at count (err e) counter s = record {
      outcome = err e;
      counter = counter;
      state = s;
    }
    typed codec at count panic counter s = record { outcome = panic; counter = counter; state = s }
    typed codec at count (ok words) counter s =
        run_spec (λ parsed. collected j parsed >>= λ ws. decoded (decode_all codec count ws))
          (create_read_words_params j at words) (spec_of specs Command.read_words) counter s

    unfoldable pub read_words_as : FromWords T → Located → ℕ → ℕ → S → Done S (List T)
    unfolding typed
    read_words_as codec at count counter s =
        typed codec at count (required_words codec.words count) counter s

    pub write_words_as : ToWords T → Located → List T → ℕ → S → Done S j.Value
    write_words_as codec at values counter s = write_words at (flat codec [] values) counter s
