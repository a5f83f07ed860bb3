-- ===== src/DeviceRegistry/Validate.antt =====
-- Exactly the files that are well-formed are valid.
use Prim.Native.String.{String}
use melsec_mc.Prelude.{
  or_nil, ◌≤◌, ◌<◌, ◌≡◌, ◌↔◌, refl, Bool, true, false, not, Option, none, some, List, [], ◌∷◌, ◌⊎◌,
  inl, inr, leb, ltb, leb→le, le→leb, ltb→lt, lt→ltb, Bool-cases, All,
}
use melsec_mc.Error.{require, Message, Result, ok, err, panic, fail, ◌>>◌}
use melsec_mc.Text.{is_empty, trim}
use melsec_mc.DeviceRegistry.{
  BitMapEntry, DeviceRaw, seen, is_category, is_series, check_gui_name, check_series, check_bits,
  check_device, check_devices, from_str, validate_str,
}

abbrev HasName : Option String → Type 0
HasName none = Unit
HasName (some g) = is_empty (trim g) ≡ false

-- What the entry of one device keeps.
abbrev pub IsDevice : DeviceRaw → Type 0
IsDevice d =
    (is_empty (trim d.symbol) ≡ false)
    × (d.code ≤ 0xFFFF)
    × (is_category d.category ≡ true)
    × HasName d.gui_name
    × All (λ s. is_series s ≡ true) (or_nil d.compatible_series)
    × All (λ (e : BitMapEntry). e.bit_pos < 8) (or_nil d.bit_mapping)

-- No symbol stands in the file twice, nor among those before.
abbrev pub Fresh : List String → List DeviceRaw → Type 0
Fresh before [] = Unit
Fresh before (d ∷ ds) = (seen d.symbol before ≡ false) × Fresh (d.symbol ∷ before) ds

require_iff :
    (b : Bool) (message : Message) (next : Result (Unit {0}))
    → ((require b message >> next) ≡ ok tt) ↔ ((b ≡ true) × (next ≡ ok tt))
require_iff true message next = (λ e. (refl, e), λ h. h.1)
require_iff false message next = (λ e. cc, λ h. cc)

then_iff :
    (first next : Result (Unit {0}))
    → ((first >> next) ≡ ok tt) ↔ ((first ≡ ok tt) × (next ≡ ok tt))
then_iff (ok u) next = (λ e. (refl, e), λ h. h.1)
then_iff (err x) next = (λ e. cc, λ h. cc)
then_iff panic next = (λ e. cc, λ h. cc)

not_iff : (b : Bool) → (not b ≡ true) ↔ (b ≡ false)
not_iff true = (λ e. cc, λ e. cc)
not_iff false = (λ e. refl, λ e. refl)

gui_name_iff : (symbol : String) (g : Option String) → (check_gui_name symbol g ≡ ok tt) ↔ HasName g
unfolding check_gui_name
gui_name_iff symbol none = (λ e. tt, λ h. refl)
gui_name_iff symbol (some g) = (
  λ e. elim (Bool-cases (is_empty (trim g))) [
    | inr full ↦ full
    | inl blank ↦ let e' : fail _ ≡ ok tt = rw (blank, check_gui_name) at e in cc
  ],
  λ h. rw h,
)

series_iff :
    (symbol : String) (ss : List String)
    → (check_series symbol ss ≡ ok tt) ↔ All (λ s. is_series s ≡ true) ss
unfolding check_series
series_iff symbol [] = (λ e. tt, λ h. refl)
series_iff symbol (s ∷ ss) = (
  λ e. let (a, b) = (require_iff (is_series s) _ _).0 e in (a, (series_iff symbol ss).0 b),
  λ h. (require_iff (is_series s) _ _).1 (h.0, (series_iff symbol ss).1 h.1),
)

bits_iff :
    (symbol : String) (es : List BitMapEntry)
    → (check_bits symbol es ≡ ok tt) ↔ All (λ (e : BitMapEntry). e.bit_pos < 8) es
unfolding check_bits
bits_iff symbol [] = (λ e. tt, λ h. refl)
bits_iff symbol (b ∷ es) = (
  λ e.
      let (x, y) = (require_iff (ltb b.bit_pos 8) _ _).0 e in
      (ltb→lt b.bit_pos 8 x, (bits_iff symbol es).0 y),
  λ h. (require_iff (ltb b.bit_pos 8) _ _).1 (lt→ltb b.bit_pos 8 h.0, (bits_iff symbol es).1 h.1),
)

check_device_iff :
    (before : List String) (d : DeviceRaw)
    → (check_device before d ≡ ok tt) ↔ (IsDevice d × (seen d.symbol before ≡ false))
unfolding check_device
check_device_iff before d = (
  λ e.
      let (named, e1) = (require_iff (not (is_empty (trim d.symbol))) _ _).0 e in
      let (fresh, e2) = (require_iff (not (seen d.symbol before)) _ _).0 e1 in
      let (small, e3) = (require_iff (leb d.code 0xFFFF) _ _).0 e2 in
      let (category, e4) = (require_iff (is_category d.category) _ _).0 e3 in
      let (gui, e5) = (then_iff (check_gui_name d.symbol d.gui_name) _).0 e4 in
      let (series, e6) = (then_iff (check_series d.symbol (or_nil d.compatible_series)) _).0 e5 in
      (
        (
          (not_iff _).0 named,
          leb→le d.code 0xFFFF small,
          category,
          (gui_name_iff d.symbol d.gui_name).0 gui,
          (series_iff d.symbol (or_nil d.compatible_series)).0 series,
          (bits_iff d.symbol (or_nil d.bit_mapping)).0 e6,
        ),
        (not_iff _).0 fresh,
      ),
  λ h.
      let (named, small, category, gui, series, bits) = h.0 in
      (require_iff (not (is_empty (trim d.symbol))) _ _).1 (
        (not_iff _).1 named,
        (require_iff (not (seen d.symbol before)) _ _).1 (
          (not_iff _).1 h.1,
          (require_iff (leb d.code 0xFFFF) _ _).1 (
            le→leb d.code 0xFFFF small,
            (require_iff (is_category d.category) _ _).1 (
              category,
              (then_iff (check_gui_name d.symbol d.gui_name) _).1 (
                (gui_name_iff d.symbol d.gui_name).1 gui,
                (then_iff (check_series d.symbol (or_nil d.compatible_series)) _).1 (
                  (series_iff d.symbol (or_nil d.compatible_series)).1 series,
                  (bits_iff d.symbol (or_nil d.bit_mapping)).1 bits,
                ),
              ),
            ),
          ),
        ),
      ),
)

check_devices_iff :
    (before : List String) (ds : List DeviceRaw)
    → (check_devices before ds ≡ ok tt) ↔ (All IsDevice ds × Fresh before ds)
unfolding check_devices
check_devices_iff before [] = (λ e. (tt, tt), λ h. refl)
check_devices_iff before (d ∷ ds) = (
  λ e.
      let (first, rest) = (then_iff (check_device before d) _).0 e in
      let (device, fresh) = (check_device_iff before d).0 first in
      let (devices, all_fresh) = (check_devices_iff (d.symbol ∷ before) ds).0 rest in
      ((device, devices), (fresh, all_fresh)),
  λ h. (then_iff (check_device before d) _).1 (
    (check_device_iff before d).1 (h.0.0, h.1.0),
    (check_devices_iff (d.symbol ∷ before) ds).1 (h.0.1, h.1.1),
  ),
)

-- A device file that toml accepts is valid exactly if no symbol is in it twice, and each entry has
-- a symbol and, if it has one, a display name that are not blank, a code of at most 0xFFFF, one of
-- the three categories, no series but "Q" and "R", and no bit position above 7.
pub validate_str_iff :
    (from_toml : String → String ⊎ List DeviceRaw) (s : String) (ds : List DeviceRaw)
    → from_toml s ≡ inr ds
    → (validate_str from_toml s ≡ ok tt) ↔ (All IsDevice ds × Fresh [] ds)
unfolding validate_str
validate_str_iff from_toml s ds parsed = rw (parsed, from_str) (check_devices_iff [] ds)
