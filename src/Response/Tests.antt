-- ===== src/Response/Tests.antt =====
-- Payloads at which the theorems on response.rs apply.
use melsec_mc.Prelude.{◌-◌, true, none, some, [], ◌∷◌, ◌≡◌, refl, arith, take, drop, ◌==◌}
use melsec_mc.Error.{ok}
use melsec_mc.Bytes.{Bytes, le_at}
use melsec_mc.Response.{McResponse, parse_mc_payload, is_success}
use melsec_mc.Response.EndCode.{parse_mc_payload-mc4e, parse_mc_payload-mc3e}

-- End code 0xC059 in the MC4E and in the MC3E format.
abbrev refused_mc4e : Bytes
refused_mc4e = 0xD4 ∷ 0 ∷ 2 ∷ 0 ∷ 0 ∷ 0 ∷ 0 ∷ 0xFF ∷ 0xFF ∷ 3 ∷ 0 ∷ 2 ∷ 0 ∷ 0x59 ∷ 0xC0 ∷ []

abbrev refused_mc3e : Bytes
refused_mc3e = 0xD0 ∷ 0 ∷ 0 ∷ 0xFF ∷ 0xFF ∷ 3 ∷ 0 ∷ 2 ∷ 0 ∷ 0x59 ∷ 0xC0 ∷ []

parse_mc_payload-mc4e_example :
    (r : McResponse) × (parse_mc_payload refused_mc4e ≡ ok r)
    × (r.response_data ≡ take (le_at refused_mc4e 11 - 2) (drop 15 refused_mc4e))
    × (r.serial_number ≡ some (le_at refused_mc4e 2))
    × (r.end_code ≡ some (le_at refused_mc4e 13))
    × (is_success r ≡ (le_at refused_mc4e 13 == 0))
parse_mc_payload-mc4e_example = parse_mc_payload-mc4e refused_mc4e (omega arith) refl (omega arith)

parse_mc_payload-mc3e_example :
    (r : McResponse) × (parse_mc_payload refused_mc3e ≡ ok r)
    × (r.response_data ≡ take (le_at refused_mc3e 7 - 2) (drop 11 refused_mc3e))
    × (r.end_code ≡ none)
    × (is_success r ≡ true)
parse_mc_payload-mc3e_example =
    parse_mc_payload-mc3e refused_mc3e (omega arith) refl (omega arith) (omega arith)
