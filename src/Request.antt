-- ===== src/Request.antt =====
-- src/request.rs: the serial counter, `McRequest` and its builder, and the frames that it builds.
pub mod Serial
pub mod Build
pub mod Data
pub mod RoundTrip
mod Tests
use melsec_mc.Prelude.{
  ℕ, ◌+◌, ◌-◌, ◌%◌, ◌^◌, ◌≤◌, ◌≡◌, min, Option, none, some, [], ◌++◌, length, leb, ◌==◌,
  if◌then◌else◌,
}
use mathlib.Core.Option.{get_or}
use melsec_mc.Error.{Result, ok, fail, ◌>>=◌, request_data_length_overflow, request_data_too_large}
use melsec_mc.Bytes.{Bytes, IsByte, IsU16, IsBytes, to_le_bytes, to_be_bytes, slice}
use melsec_mc.McDefine.{
  Array2, list2, AccessRoute, IsRoute, to_bytes, default_route, McFrameFormat, mc4e, mc3e,
  mc_subheader_request,
}
use melsec_mc.McDefine.Route.{from_array}
use melsec_mc.McFrame.{FrameParseResult, parse_frame}

-- The counter is a global `AtomicU16` that starts at 1; `fetch_update` stores `bumped v` and
-- returns the value before, from which the result is computed again.
abbrev initial_serial : ℕ
initial_serial = 1

unfoldable pub bumped : ℕ → ℕ
bumped v = if v == 0xFFFF then 1 else (v + 1) % 2 ^ 16

-- The result, and the counter after the call.
unfoldable pub next_serial : ℕ → ℕ × ℕ
next_serial prev = (if prev == 0xFFFF then 1 else (prev + 1) % 2 ^ 16, bumped prev)

pub record McRequest : Type 0 where
  pub subheader : Array2
  pub access_route : AccessRoute
  pub request_data_len : ℕ
  pub monitoring_timer : ℕ
  pub request_data : Bytes
  pub serial_number : ℕ

-- `McRequest::new()`, with the counter after it.
unfoldable pub new : ℕ → McRequest × ℕ
new counter =
    let (serial, counter') = next_serial counter in
    (
      record {
        subheader = mc_subheader_request;
        access_route = default_route;
        request_data_len = 0;
        monitoring_timer = 0x1000;
        request_data = [];
        serial_number = serial;
      },
      counter',
    )

abbrev with_subheader : McRequest → Array2 → McRequest
with_subheader r subheader = record r { subheader = subheader }

abbrev pub with_access_route : McRequest → AccessRoute → McRequest
with_access_route r access_route = record r { access_route = access_route }

abbrev with_serial_number : McRequest → ℕ → McRequest
with_serial_number r serial_number = record r { serial_number = serial_number }

abbrev pub with_monitoring_timer : McRequest → ℕ → McRequest
with_monitoring_timer r monitoring_timer = record r { monitoring_timer = monitoring_timer }

-- `checked_add` on `usize`, then `u16::try_from`.
unfoldable pub try_with_request_data : McRequest → Bytes → Result McRequest
try_with_request_data r request_data =
    let total_len = length request_data + 2 in
    if leb total_len (2 ^ 64 - 1)
    then (if leb total_len 65535
        then ok (record r { request_data_len = total_len; request_data = request_data })
        else fail request_data_too_large)
    else fail request_data_length_overflow

unfoldable pub build_with_format : McRequest → McFrameFormat → Bytes
unfolding to_bytes
build_with_format r mc4e =
    list2 r.subheader
    ++ (to_le_bytes r.serial_number
        ++ (to_le_bytes 0x0000
            ++ (to_bytes r.access_route
                ++ (to_le_bytes r.request_data_len
                    ++ (to_be_bytes r.monitoring_timer ++ r.request_data)))))
build_with_format r mc3e =
    list2 r.subheader
    ++ (to_bytes r.access_route
        ++ (to_le_bytes r.request_data_len ++ (to_le_bytes r.monitoring_timer ++ r.request_data)))

pub build : McRequest → Bytes
unfolding build_with_format
build r = build_with_format r mc4e

-- The data of a parsed frame, as `try_from_payload` and `parse_mc_payload` take it.
unfoldable pub data_slice : Bytes → FrameParseResult → Result Bytes
data_slice payload pr =
    if leb pr.data_offset (length payload)
    then slice payload pr.data_offset (min (length payload) (pr.data_offset + pr.data_bytes))
    else ok []

pub try_from_payload : Bytes → Result McRequest
try_from_payload payload = do
  pr ← parse_frame payload
  data_bytes ← data_slice payload pr
  ok (record {
    subheader = pr.subheader;
    access_route = from_array pr.access_route;
    request_data_len = pr.request_data_len;
    monitoring_timer = get_or pr.monitor_timer 0x1000;
    request_data = data_bytes;
    serial_number = get_or pr.serial_number 0;
  })

-- A request with its data set: the fields' types, and the length field that the builder writes.
pub record IsRequest (r : McRequest) : Type 0 where
  pub subheader_bytes : IsBytes (list2 r.subheader)
  pub route : IsRoute r.access_route
  pub data_len : r.request_data_len ≡ length r.request_data + 2
  pub data_fits : length r.request_data ≤ 65533
  pub timer_word : IsU16 r.monitoring_timer
  pub data_bytes : IsBytes r.request_data
  pub serial_word : IsU16 r.serial_number
