-- ===== src/Client/Typed.antt =====
-- `read_words_as` on a device that holds the words of a list of values.
use melsec_mc.Prelude.{
  ℕ, ◌*◌, ◌-◌, ◌^◌, ◌<◌, ◌≡◌, refl, sym, ◌∙◌, ap, subst, Bool, Option, some, List, [], ◌∷◌, ◌++◌,
  append_assoc, append-nil, arith, length, All, All-append, le→leb, le→ltb,
}
use melsec_mc.Error.{Result, ok, ◌>>=◌}
use melsec_mc.Bytes.{Bytes, IsU16}
use melsec_mc.Request.{McRequest}
use melsec_mc.Config.{Config}
use melsec_mc.Command.{Command}
use melsec_mc.ErrorCodes.{Global}
use melsec_mc.Device.{Device}
use melsec_mc.Json.{Json, IsJson}
use melsec_mc.Codec.{FromWords, ToWords, required_words, decode_all, flat}
use melsec_mc.Codec.Laws.{IsCodec}
use melsec_mc.Codec.Decode.{words_of, flat-words_of, length-words_of, decode_all-flat}
use melsec_mc.Registry.{CommandSpec, block_words}
use melsec_mc.Registry.Blocks.{build_request}
use melsec_mc.Registry.Params.{Located, create_read_words_params}
use melsec_mc.Registry.Response.{number_values, parse_response}
use melsec_mc.Registry.Response.Words.{bytes_of_words}
use melsec_mc.Registry.Response.ReadBack.{parse_response-words}
use melsec_mc.Client.{McClient}
use melsec_mc.Client.Commands.{
  spec_of, words_of_items, words_of_blocks, collected, decoded, run_spec, read_words_as,
}
use melsec_mc.Client.Exchange.{IsAnsweredBy, perform-framed}

module _ (j : Json) (laws : IsJson j) where
  words_of_items-number_values :
      (ws out : List ℕ) → All IsU16 ws → words_of_items j (number_values j ws) out ≡ ok (out ++ ws)
  unfolding words_of_items
  words_of_items-number_values [] out h = ap ok (sym (append-nil out))
  words_of_items-number_values (w ∷ ws) out h =
      rw (laws.as_u64-number w (omega (arith, h.0)), le→leb w 65535 (omega (arith, h.0)))
        (words_of_items-number_values ws (out ++ (w ∷ [])) h.1
          ∙ ap ok (append_assoc out (w ∷ []) ws))

  collected-block :
      (v : j.Value) (ws : List ℕ)
      → All IsU16 ws
      → j.get v "data_blocks" ≡ some (j.array (j.array (number_values j ws) ∷ []))
      → collected j v ≡ ok ws
  unfolding collected words_of_blocks
  collected-block v ws h e = rw (
    e,
    collected,
    laws.as_array-array (j.array (number_values j ws) ∷ []),
    words_of_blocks,
    laws.as_array-array (number_values j ws),
    words_of_items-number_values ws [] h,
  )

module _ {T : Type 0} {from : FromWords T} {to : ToWords T} {Valid : T → Type 0}
    (codec : IsCodec from to Valid) where
  words_of-IsU16 : (vs : List T) → All Valid vs → All IsU16 (words_of codec vs)
  unfolding words_of
  words_of-IsU16 [] h = tt
  words_of-IsU16 (v ∷ vs) h =
      All-append IsU16 (codec.encoded v) (words_of codec vs) (codec.encoded_words v h.0)
        (words_of-IsU16 vs h.1)

required_words-fits :
    (words count : ℕ) → words * count < 2 ^ 16 → required_words words count ≡ ok (words * count)
unfolding required_words
required_words-fits words count h =
    rw (
      le→leb (words * count) (2 ^ 32 - 1) (omega arith),
      le→ltb 65535 (words * count) (omega arith),
    )

module _ (j : Json) (laws : IsJson j) (devices : List Device) {S : Type 0}
    (exchange : Bytes → S → Result Bytes × S) (config : Config) (codes : Global) (client : McClient)
    {T : Type 0} {from : FromWords T} {to : ToWords T} {Valid : T → Type 0}
    (codec : IsCodec from to Valid) where
  decodes :
      (v : j.Value) (vs : List T) (ws : List ℕ)
      → ws ≡ flat to [] vs
      → All Valid vs
      → All IsU16 ws
      → j.get v "data_blocks" ≡ some (j.array (j.array (number_values j ws) ∷ []))
      → (collected j v >>= λ ws'. decoded (decode_all from (length vs) ws')) ≡ ok vs
  decodes v vs ws same valid h block = rw (collected-block j laws v ws h block) (
      ap (λ l. decoded (decode_all from (length vs) l)) (same ∙ sym (append-nil (flat to [] vs)))
      ∙ ap decoded (decode_all-flat codec vs [] valid))

  -- A typed read returns the values whose words the device holds. The codec and the JSON values
  -- keep their laws; the values are valid, and their words, as `write_words_as` makes them, are
  -- fewer than 65536; the command's specification has one block of words under "data_blocks" in
  -- its response; the request for as many words can be built; and after fewer failures than there
  -- are attempts the transport gives an MC4E response with end code 0 whose data are these words.
  -- Then the result is the list of the values.
  pub read_words_as-IsAnsweredBy :
      (specs : Command → Option CommandSpec) (spec : CommandSpec) (le : Bool) (at : Located)
      (vs : List T) (request_data : Bytes) (counter : ℕ) (s u : S) (a : McRequest)
      → specs Command.read_words ≡ some spec
      → spec.response_entries ≡ block_words "data_blocks" le ∷ []
      → build_request j devices spec
          (create_read_words_params j at (from.words * length vs))
          (some client.plc_series)
        ≡ ok request_data
      → (answer : IsAnsweredBy exchange config client request_data counter s u a)
      → a.request_data ≡ bytes_of_words le (flat to [] vs)
      → All Valid vs
      → from.words * length vs < 2 ^ 16
      → read_words_as j devices
          (some specs)
          exchange
          config
          codes
          client
          from
          at
          (length vs)
          counter
          s
        ≡ record { outcome = ok vs; counter = answer.counter_after; state = u }
  unfolding read_words_as run_spec spec_of
  read_words_as-IsAnsweredBy specs spec le at vs request_data counter s u a found entries built
        answer same valid small =
      let n = from.words * length vs in
      let ws = flat to [] vs in
      let size : length ws ≡ n =
        ap (length {A = ℕ}) (flat-words_of codec [] vs) ∙ length-words_of codec vs ∙ omega arith in
      let h : All IsU16 ws =
        subst (All IsU16) (sym (flat-words_of codec [] vs)) (words_of-IsU16 codec vs valid) in
      let (v, parses, block) =
        parse_response-words j laws devices spec le at ws [] entries h (omega (arith, size)) in
      let parses' : parse_response j devices spec (create_read_words_params j at n)
            (bytes_of_words le ws ++ [])
          ≡ ok v =
        ap
          (λ k.
            parse_response j devices spec (create_read_words_params j at k)
              (bytes_of_words le ws ++ []))
          (sym size)
        ∙ parses in
      rw (
        required_words-fits from.words (length vs) small,
        found,
        run_spec,
        built,
        perform-framed exchange config codes client
            (λ buf.
              parse_response j devices spec (create_read_words_params j at n) buf >>= λ parsed.
              collected j parsed >>= λ l. decoded (decode_all from (length vs) l))
            request_data answer.mc_payload counter answer.counter_after answer.failures s
            answer.before u a answer.frames answer.failing answer.answers answer.enough
            answer.answer_is_request answer.is_response answer.success,
        same,
        sym (append-nil (bytes_of_words le ws)),
        parses',
        decodes v vs ws refl valid h block,
      )
