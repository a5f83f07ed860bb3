-- ===== src/Client/Bits.antt =====
-- A read of bits, from the request to the points.
use melsec_mc.Prelude.{
  ℕ, ◌^◌, ◌<◌, ◌≡◌, sym, Bool, true, Option, some, List, [], ◌∷◌, append-nil, length,
}
use melsec_mc.Error.{Result, ok, ◌>>=◌}
use melsec_mc.Bytes.{Bytes}
use melsec_mc.Request.{McRequest}
use melsec_mc.Config.{Config}
use melsec_mc.Command.{Command}
use melsec_mc.ErrorCodes.{Global}
use melsec_mc.Device.{Device}
use melsec_mc.Json.{Json, IsJson}
use melsec_mc.Registry.{CommandSpec, block_nibbles}
use melsec_mc.Registry.Blocks.{build_request}
use melsec_mc.Registry.Nibbles.{pack_nibbles}
use melsec_mc.Registry.Params.{Located, create_read_bits_params}
use melsec_mc.Registry.Response.{bool_values, parse_response}
use melsec_mc.Registry.Response.ReadBits.{parse_response-bits}
use melsec_mc.Client.{McClient}
use melsec_mc.Client.Commands.{spec_of, run_spec, read_bits}
use melsec_mc.Client.Exchange.{IsAnsweredBy, perform-framed}

module _ (j : Json) (laws : IsJson j) (devices : List Device) {S : Type 0}
    (exchange : Bytes → S → Result Bytes × S) (config : Config) (codes : Global)
    (client : McClient) where
  -- A read of bits returns the points of the device. Over JSON values with their documented laws:
  -- the command's specification has one block of nibbles, high half first, under "data_blocks" in
  -- its response; the request for as many points, fewer than 65536, can be built; and after fewer
  -- failures than there are attempts the transport gives an MC4E response with end code 0 whose
  -- data are the points, packed as `write_bits` packs them. Then the result has these points as its
  -- one block under "data_blocks", with the serial counter and the transport's state after the
  -- exchange.
  pub read_bits-IsAnsweredBy :
      (specs : Command → Option CommandSpec) (spec : CommandSpec) (at : Located) (vs : List Bool)
      (request_data : Bytes) (counter : ℕ) (s u : S) (a : McRequest)
      → specs Command.read_bits ≡ some spec
      → spec.response_entries ≡ block_nibbles "data_blocks" true ∷ []
      → build_request j devices spec
          (create_read_bits_params j at (length vs))
          (some client.plc_series)
        ≡ ok request_data
      → (answer : IsAnsweredBy exchange config client request_data counter s u a)
      → a.request_data ≡ pack_nibbles vs
      → length vs < 2 ^ 16
      → (v : j.Value) × (read_bits j devices
            (some specs)
            exchange
            config
            codes
            client
            at
            (length vs)
            counter
            s
          ≡ record { outcome = ok v; counter = answer.counter_after; state = u })
        × (j.get v "data_blocks" ≡ some (j.array (j.array (bool_values j vs) ∷ [])))
  unfolding read_bits run_spec spec_of
  read_bits-IsAnsweredBy specs spec at vs request_data counter s u a found entries built answer same
        small =
      let params = create_read_bits_params j at (length vs) in
      let (v, parses, block) = parse_response-bits j laws devices spec at vs [] entries small in
      (
        v,
        rw (
          found,
          run_spec,
          built,
          perform-framed exchange config codes client
              (λ buf. parse_response j devices spec params buf >>= ok) request_data
              answer.mc_payload counter answer.counter_after answer.failures s answer.before u a
              answer.frames answer.failing answer.answers answer.enough answer.answer_is_request
              answer.is_response answer.success,
          same,
          sym (append-nil (pack_nibbles vs)),
          parses,
        ),
        block,
      )
