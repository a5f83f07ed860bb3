-- ===== src/McDefine/Route.antt =====
-- The five bytes of an access route.
use melsec_mc.Prelude.{◌/◌, ◌%◌, ◌≡◌, refl, arith}
use melsec_mc.Bytes.{IsBytes, from_le_bytes}
use melsec_mc.McDefine.{
  Array5, list5, mc_access_path_default, AccessRoute, IsRoute, to_bytes, default_route,
}

-- `AccessRoute { .. }` of `McRequest::try_from_payload`.
unfoldable pub from_array : Array5 → AccessRoute
from_array a = record {
  network_number = a.0;
  pc_number = a.1;
  io_number = from_le_bytes a.2 a.3;
  station_number = a.4;
}

unfoldable pub to_array : AccessRoute → Array5
to_array r =
    (r.network_number, r.pc_number, r.io_number % 256, r.io_number / 256 % 256, r.station_number)

to_bytes-to_array : (r : AccessRoute) → to_bytes r ≡ list5 (to_array r)
unfolding to_bytes to_array
to_bytes-to_array r = refl

to_bytes-IsBytes : (r : AccessRoute) → IsRoute r → IsBytes (to_bytes r)
unfolding to_bytes
to_bytes-IsBytes r h = omega arith

pub from_array-to_array : (r : AccessRoute) → IsRoute r → from_array (to_array r) ≡ r
unfolding from_array to_array
from_array-to_array r h = ground arith

pub default_route-IsRoute : IsRoute default_route
default_route-IsRoute = omega arith

default_path : to_bytes default_route ≡ list5 mc_access_path_default
unfolding to_bytes
default_path = refl
