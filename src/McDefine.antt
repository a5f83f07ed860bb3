-- ===== src/McDefine.antt =====
-- src/mc_define.rs: the constants of the protocol, the frame formats and the access route.
pub mod Route
use melsec_mc.Prelude.{ℕ, zero, ◌+◌, Option, none, some, String, [], ◌∷◌, ◌++◌, ◌==◌, if◌then◌else◌}
use melsec_mc.Bytes.{Bytes, IsByte, IsU16, to_le_bytes}

-- `[u8; 2]` and `[u8; 5]`
abbrev pub Array2 : Type 0
Array2 = ℕ × ℕ

abbrev pub Array5 : Type 0
Array5 = ℕ × ℕ × ℕ × ℕ × ℕ

abbrev pub list2 : Array2 → Bytes
list2 a = a.0 ∷ a.1 ∷ []

abbrev pub list5 : Array5 → Bytes
list5 a = a.0 ∷ a.1 ∷ a.2 ∷ a.3 ∷ a.4 ∷ []

abbrev mc_header_size : ℕ
mc_header_size = 15

abbrev pub mc_subheader_request : Array2
mc_subheader_request = (0x54, 0x00)

abbrev pub mc_subheader_response : Array2
mc_subheader_response = (0xD4, 0x00)

abbrev pub mc_access_path_default : Array5
mc_access_path_default = (0x00, 0xFF, 0xFF, 0x03, 0x00)

abbrev mc_end_ok : ℕ
mc_end_ok = 0x0000

end_code_name : ℕ → Option String
end_code_name code = if code == mc_end_ok then some "OK" else none

pub data McFrameFormat : Type 0 where
  mc4e mc3e : McFrameFormat

-- `#[default]`
abbrev pub default_format : McFrameFormat
default_format = mc4e

pub data Protocol : Type 0 where
  tcp udp : Protocol

pub record AccessRoute : Type 0 where
  pub network_number : ℕ
  pub pc_number : ℕ
  pub io_number : ℕ
  pub station_number : ℕ

-- The fields' types: `u8`, `u8`, `u16`, `u8`.
pub record IsRoute (r : AccessRoute) : Type 0 where
  pub network_byte : IsByte r.network_number
  pub pc_byte : IsByte r.pc_number
  pub io_word : IsU16 r.io_number
  pub station_byte : IsByte r.station_number

unfoldable pub to_bytes : AccessRoute → Bytes
to_bytes r = r.network_number ∷ r.pc_number ∷ (to_le_bytes r.io_number ++ (r.station_number ∷ []))

with_network_number : AccessRoute → ℕ → AccessRoute
with_network_number r n = record r { network_number = n }

with_pc_number : AccessRoute → ℕ → AccessRoute
with_pc_number r n = record r { pc_number = n }

with_io_number : AccessRoute → ℕ → AccessRoute
with_io_number r n = record r { io_number = n }

with_station_number : AccessRoute → ℕ → AccessRoute
with_station_number r n = record r { station_number = n }

abbrev pub default_route : AccessRoute
default_route = record {
  network_number = 0x00;
  pc_number = 0xFF;
  io_number = 0x03FF;
  station_number = 0x00;
}
