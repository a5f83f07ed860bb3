-- ===== src/Registry/Params.antt =====
-- `create_read_words_params`, `create_read_bits_params`, `create_write_words_params` and
-- `create_write_bits_params` of src/command_registry.rs. What they find for the device's text, a
-- start address and a device code, is their argument; `located` finds it.
use melsec_mc.Prelude.{ℕ, Bool, Option, none, some, String, List, [], ◌∷◌, length, if◌then◌else◌}
use Prim.Native.Char.{Char}
use mathlib.Core.Option as Option
use melsec_mc.Error.{ok, err, panic}
use melsec_mc.Text.{all_letters, to_uppercase}
use melsec_mc.Device.{Device, device_by_symbol}
use melsec_mc.Device.Address.{parse_device_and_address}
use melsec_mc.Json.{Json}
use melsec_mc.Registry.Response.{number_values}
use melsec_mc.Registry.Nibbles.{pack_nibbles}

pub record Located : Type 0 where
  pub start_addr : Option ℕ
  pub device_code : Option ℕ

-- A text that does not parse but is letters only is taken for a symbol, with the address 0.
abbrev symbol_only : (Char → String) → (ℕ → String) → List Device → String → Located
symbol_only other names devices text =
    if all_letters text
    then record {
      start_addr = some 0;
      device_code =
          Option.map (λ (d : Device). d.device_code)
            (device_by_symbol names devices (to_uppercase other text));
    }
    else record { start_addr = none; device_code = none }

unfoldable pub located : (Char → String) → (ℕ → String) → List Device → String → Located
located other names devices text = elim (parse_device_and_address other names devices text) [
  | ok (device, addr) ↦ record { start_addr = some addr; device_code = some device.device_code }
  | err e ↦ symbol_only other names devices text
  | panic ↦ record { start_addr = none; device_code = none }
]

module _ (j : Json) where
  insert_found : j.Map → String → Option ℕ → j.Map
  insert_found m key none = m
  insert_found m key (some n) = j.insert m key (j.number n)

  -- The lines that the four functions share.
  located_params : Located → ℕ → j.Map
  located_params at count =
      j.insert
        (insert_found (insert_found j.empty "start_addr" at.start_addr) "device_code"
          at.device_code)
        "count" (j.number count)

  -- `[{ "count": count }]`
  abbrev count_block : ℕ → j.Value
  count_block count = j.array (j.object (j.insert j.empty "count" (j.number count)) ∷ [])

  unfoldable pub create_read_words_params : Located → ℕ → j.Value
  unfolding located_params insert_found
  create_read_words_params at count =
      j.object (j.insert (located_params at count) "data_blocks" (count_block count))

  unfoldable pub create_read_bits_params : Located → ℕ → j.Value
  unfolding located_params insert_found
  create_read_bits_params at count = j.object (
      j.insert (j.insert (located_params at count) "bit_blocks" (count_block count)) "data_blocks"
        (count_block count))

  unfoldable pub create_write_words_params : Located → List ℕ → j.Value
  unfolding located_params insert_found
  create_write_words_params at values =
      j.object
        (j.insert (located_params at (length values)) "data" (j.array (number_values j values)))

  pub create_write_bits_params : Located → List Bool → j.Value
  unfolding located_params insert_found
  create_write_bits_params at values = j.object (
      j.insert (located_params at (length values)) "payload"
        (j.array (number_values j (pack_nibbles values))))
