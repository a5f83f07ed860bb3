-- ===== src/DeviceRegistry/Overrides.antt =====
-- What is registered for a symbol.
use Prim.Native.String.{String}
use melsec_mc.Prelude.{◌≡◌, refl, Option, none, some, List, [], ◌∷◌, str_eq, if◌then◌else◌}
use melsec_mc.Error.{ok, fail, device_overrides_already_registered}
use melsec_mc.DeviceRegistry.{
  DeviceRaw, DeviceOverride, override_of, OverrideMap, insert_override, overrides,
  register_overrides, get_override_by_symbol,
}

-- The override of the last entry with a symbol.
abbrev pub last_override : List DeviceRaw → String → Option DeviceOverride → Option DeviceOverride
last_override [] sym found = found
last_override (d ∷ ds) sym found =
    last_override ds sym (if str_eq d.symbol sym then some (override_of d) else found)

overrides-last :
    (ds : List DeviceRaw) (m : OverrideMap) (sym : String)
    → overrides m ds sym ≡ last_override ds sym (m sym)
unfolding overrides insert_override
overrides-last [] m sym = refl
overrides-last (d ∷ ds) m sym = overrides-last ds (insert_override m d) sym

-- Overrides are registered once: the first registration gives each symbol the last of its entries
-- and no other symbol any, and a later one is refused and changes nothing.
pub register_overrides_lem :
    (ds later : List DeviceRaw) (sym : String)
    → let first = register_overrides ds none in
      let second = register_overrides later first.1 in
      (first.0 ≡ ok tt)
      × (get_override_by_symbol first.1 sym ≡ last_override ds sym none)
      × (second.0 ≡ fail device_overrides_already_registered)
      × (second.1 ≡ first.1)
unfolding register_overrides get_override_by_symbol
register_overrides_lem ds later sym = (refl, overrides-last ds (λ s. none) sym, refl, refl)
