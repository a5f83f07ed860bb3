-- ===== src/Registry/Response/Tests.antt =====
-- The check of `ensure_bytes_available` for a second block of 2 ^ 63 - 1 words, behind one of one
-- word, in a response of two bytes.
use melsec_mc.Prelude.{◌*◌, ◌≡◌, refl, [], ◌∷◌}
use melsec_mc.Error.{panic}
use melsec_mc.Registry.Response.{ensure_bytes_available}

offset_overflows :
    ensure_bytes_available (1 ∷ 2 ∷ []) 2 (9223372036854775807 * 2) "word block" ≡ panic
unfolding ensure_bytes_available
offset_overflows = refl
