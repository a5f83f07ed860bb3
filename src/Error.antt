-- ===== src/Error.antt =====
-- src/error.rs: `MelsecError`, and the outcome of a Rust function that returns
-- `Result<_, MelsecError>`. A protocol error's text is its format string with the values that it
-- prints: one constructor of `Message` for each format string of the modelled code.
use melsec_mc.Prelude.{ℕ, ℤ, Bool, true, false, String, List, ◌≡◌, ◌≢◌, refl}

pub data Message : Type 0 where
  -- src/mc_frame.rs
  payload_too_short : Message
  mc4e_invalid_data_len : ℕ → Message
  mc4e_length_mismatch : ℕ → ℕ → Message
  data_len_too_large : ℕ → Message
  -- src/request.rs
  request_data_length_overflow : Message
  request_data_too_large : Message
  -- src/mc_client.rs
  not_enough_words : String → Message
  device_end_code : ℕ → String → Message
  registry_not_set command_not_found : Message
  count_too_large count_overflow : Message
  word_value_out_of_range : Message
  echo_length_out_of_range : ℕ → Message
  echo_invalid_characters echo_not_utf8 : Message
  unknown_transport_error : Message
  -- src/transport.rs
  bad_address : String → String → Message
  connect_error connect_timeout : String → Message
  failed_to_send_tcp : String → List String → Message
  failed_to_send_udp : String → Message
  -- src/command_registry.rs
  registry_already_set : Message
  missing_block_count : String → Message
  count_out_of_range : String → Message
  block_count_too_large : Message
  response_too_short : String → Message
  response_offset_beyond_end : Message
  response_invalid_ascii_hex : ℕ → Message
  response_not_utf8 : Message
  word_item_out_of_range : ℕ → Message
  word_item_not_number : Message
  words_item_not_number : String → Message
  words_expected_array : String → Message
  device_code_out_of_range : ℕ → Message
  requires_bit_device requires_word_device requires_dword_device : String → ℕ → Message
  missing_numeric_param : String → Message
  numeric_param_out_of_range : ℕ → Message
  exceeds_word_points exceeds_dword_points exceeds_bit_points : String → ℕ → ℕ → Message
  missing_block_array : String → Message
  block_entry_not_object : Message
  missing_block_field : String → Message
  missing_field : String → Message
  field_out_of_range : String → ℕ → Message
  payload_item_not_number : String → Message
  payload_item_out_of_range : ℕ → Message
  payload_invalid_ascii_hex : ℕ → Message
  invalid_field_spec : String → Message
  invalid_byte_width : String → Message
  unsupported_field_type : String → Message
  invalid_response_format invalid_response_entry : String → Message
  unsupported_response_kind : String → Message
  subcommand_out_of_range subcommand_value_out_of_range : ℤ → Message
  invalid_subcommand_type : Message
  toml_parse_error : String → Message
  toml_parse_error_at : ℕ → ℕ → String → Message
  duplicate_command_id : String → Message
  read_toml current_exe_failed : String → Message
  no_executable_directory : Message
  commands_toml_not_found : List String → Message
  repeat_field_not_found : String → String → String → Message
  invalid_block_family : String → String → String → Message
  response_name_not_found : String → String → Message
  -- src/commands.rs
  unknown_command_id : String → Message
  -- src/device.rs
  unknown_symbol : String → Message
  known_symbol_not_found : Message
  empty_device_string : Message
  invalid_device_string missing_numeric_address unknown_device_symbol : String → Message
  invalid_numeric_address : String → String → Message
  address_out_of_range : ℕ → Message
  devices_toml_parse_error : String → Message
  invalid_category invalid_base invalid_series : String → String → Message
  device_code_too_large : String → ℕ → Message
  -- src/device_code.rs
  unknown_device : String → Message
  unknown_device_code : ℕ → Message
  -- src/device_registry.rs
  device_toml_parse_error : String → Message
  device_toml_parse_error_at : ℕ → ℕ → String → Message
  device_symbol_empty : Message
  duplicate_device_symbol : String → Message
  device_code_above_u16 : ℕ → Message
  invalid_device_category : String → Message
  gui_name_empty : String → Message
  invalid_compatible_series : String → String → Message
  bit_pos_out_of_range : String → ℕ → Message
  device_overrides_already_registered : Message
  read_device_toml : String → Message
  define_device_toml_not_found : Message
  -- src/error_codes.rs
  error_codes_toml_parse_error : String → Message
  read_error_codes_toml : String → Message
  current_exe_not_found define_error_codes_not_found : Message
  error_registry_inconsistent error_registry_poisoned : Message

pub data MelsecError : Type 0 where
  io : String → MelsecError
  timeout : MelsecError
  protocol : Message → MelsecError
  already_registered : MelsecError
  no_target : MelsecError

-- `panic` is a read or a slice out of range, which Rust does not return from.
pub data Result {ℓ} (A : Type ℓ) : Type ℓ where
  ok : A → Result A
  err : MelsecError → Result A
  panic : Result A

abbrev pub fail {ℓ} : {A : Type ℓ} → Message → Result A
fail m = err (protocol m)

-- `?` at the end of a call, and on a statement.
infixl 5 ◌>>=◌ ◌>>◌
abbrev pub ◌>>=◌ {ℓ κ} : {T : Type ℓ} {U : Type κ} → Result T → (T → Result U) → Result U
panic >>= next = panic
err e >>= next = err e
ok t >>= next = next t

abbrev pub ◌>>◌ {κ} : {U : Type κ} → Result (Unit {0}) → Result U → Result U
first >> second = first >>= λ done. second

-- `if !test { return Err(..) }`
abbrev pub require : Bool → Message → Result (Unit {0})
require true message = ok tt
require false message = fail message

pub ok-inj {ℓ} : {A : Type ℓ} (a b : A) → ok a ≡ ok b → a ≡ b
ok-inj a b e = cc

-- A bind that returns has parts that do.
pub bind-eq-ok {ℓ κ} :
    {T : Type ℓ} {U : Type κ} (first : Result T) (next : T → Result U) {u : U}
    → (first >>= next) ≡ ok u
    → (t : T) × (first ≡ ok t) × (next t ≡ ok u)
bind-eq-ok panic next returned = cc
bind-eq-ok (err e) next returned = cc
bind-eq-ok (ok t) next returned = (t, refl, returned)

-- A bind panics only where one of its parts does.
pub bind-ne-panic {ℓ κ} :
    {A : Type ℓ} {B : Type κ} (m : Result A) (f : A → Result B)
    → m ≢ panic
    → ((a : A) → f a ≢ panic)
    → (m >>= f) ≢ panic
bind-ne-panic (ok a) f hm hf = hf a
bind-ne-panic (err e) f hm hf = cc
bind-ne-panic panic f hm hf = absurd (hm refl)
