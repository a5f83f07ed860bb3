-- ===== src/Device/Load/Loaded.antt =====
-- What the devices that are loaded have from the file's entries.
use melsec_mc.Prelude.{
  ℕ, ◌≤◌, ◌≡◌, ◌↔◌, refl, sym, String, List, [], ◌∷◌, subst, leb, leb→le, le→leb, Bool-cases,
  Option-cases, inl, inr, map,
}
use melsec_mc.Error.{ok-inj, ok, fail, bind-eq-ok}
use melsec_mc.PlcSeries.{PlcSeries}
use melsec_mc.Device.{Device, DeviceType, NumberBase}
use melsec_mc.Device.Codes.{Entries, name_by_code, try_from}
use melsec_mc.Device.Codes.Named.{IsNamed, name_by_code-IsNamed, IsNamed-name_by_code}
use melsec_mc.Device.Load.Names.{
  category_name, base_name, series_name, category_of-ok, base_of-ok, series_of-ok,
  category_of-category_name, base_of-base_name, series_of-series_name,
}
use melsec_mc.Device.Load.{
  RawDevice, built, category_of, base_of, series_of, code_of, load_device, load_devices,
}

-- A device with what its entry says, whose code fits a byte and has a name.
abbrev pub IsLoaded : Entries → RawDevice → Device → Type 0
IsLoaded entries raw d =
    (raw.category ≡ category_name d.category)
    × (raw.base ≡ base_name d.base)
    × (raw.series ≡ map series_name d.supported_series)
    × (d.device_code ≡ raw.code)
    × (d.device_code ≤ 255)
    × IsNamed entries d.device_code
    × (d.description ≡ raw.description)

abbrev pub AllLoaded : Entries → List RawDevice → List Device → Type 0
AllLoaded entries [] [] = Unit
AllLoaded entries [] (d ∷ ds) = ⊥
AllLoaded entries (raw ∷ raws) [] = ⊥
AllLoaded entries (raw ∷ raws) (d ∷ ds) = IsLoaded entries raw d × AllLoaded entries raws ds

code_of-ok :
    (entries : Entries) (symbol : String) (raw code : ℕ)
    → code_of entries symbol raw ≡ ok code
    → (code ≡ raw) × (code ≤ 255) × IsNamed entries code
unfolding code_of
code_of-ok entries symbol raw code e = elim (Bool-cases (leb raw 255)) [
  | inr large ↦ let e' : fail _ ≡ ok code = rw large at e in cc
  | inl small ↦ elim (Option-cases (name_by_code entries raw)) [
    | inl absent ↦ let e' : fail _ ≡ ok code = rw (absent, try_from) at (rw small at e) in cc
    | inr (name, found) ↦
        let e' : ok raw ≡ ok code = rw (found, try_from) at (rw small at e) in
        let same : raw ≡ code = cc in
        (
          sym same,
          rw (sym same) (leb→le raw 255 small),
          rw (sym same) (name_by_code-IsNamed entries raw name found),
        )
  ]
]

built-IsLoaded :
    (entries : Entries) (raw : RawDevice) (d : Device) (category : DeviceType) (base : NumberBase)
    (series : List PlcSeries) (code : ℕ)
    → category_of raw.symbol raw.category ≡ ok category
    → base_of raw.symbol raw.base ≡ ok base
    → series_of raw.symbol raw.series ≡ ok series
    → code_of entries raw.symbol raw.code ≡ ok code
    → built raw category base series code ≡ d
    → IsLoaded entries raw d
built-IsLoaded entries raw d category base series code ec eb es eo e =
    let (same, small, named) = code_of-ok entries raw.symbol raw.code code eo in
    subst (IsLoaded entries raw) e (
      category_of-ok raw.symbol raw.category category ec,
      base_of-ok raw.symbol raw.base base eb,
      series_of-ok raw.symbol raw.series series es,
      same,
      small,
      named,
      refl,
    )

load_device-ok :
    (entries : Entries) (raw : RawDevice) (d : Device)
    → load_device entries raw ≡ ok d
    → IsLoaded entries raw d
unfolding load_device
load_device-ok entries raw d e =
    let (category, ec, e1) = bind-eq-ok (category_of raw.symbol raw.category) _ e in
    let (base, eb, e2) = bind-eq-ok (base_of raw.symbol raw.base) _ e1 in
    let (series, es, e3) = bind-eq-ok (series_of raw.symbol raw.series) _ e2 in
    let (code, eo, e4) = bind-eq-ok (code_of entries raw.symbol raw.code) _ e3 in
    built-IsLoaded entries raw d category base series code ec eb es eo (ok-inj _ d e4)

code_of-named :
    (entries : Entries) (symbol : String) (raw code : ℕ)
    → code ≡ raw
    → code ≤ 255
    → IsNamed entries code
    → code_of entries symbol raw ≡ ok code
unfolding code_of try_from
code_of-named entries symbol raw code same small h =
    let (name, named) = IsNamed-name_by_code entries code h in
    rw (← same) (rw (le→leb code 255 small) (rw (named, try_from) refl))

load_device-IsLoaded :
    (entries : Entries) (raw : RawDevice) (d : Device)
    → IsLoaded entries raw d
    → load_device entries raw ≡ ok d
unfolding load_device
load_device-IsLoaded entries raw d (ec, eb, es, same, small, named, said) = rw ec (
    rw (category_of-category_name raw.symbol d.category) (
      rw eb (
        rw (base_of-base_name raw.symbol d.base) (
          rw es (
            rw (series_of-series_name raw.symbol d.supported_series) (
              rw (code_of-named entries raw.symbol raw.code d.device_code same small named)
                (rw (← said) refl)))))))

load_devices-ok :
    (entries : Entries) (raws : List RawDevice) (devices : List Device)
    → load_devices entries raws ≡ ok devices
    → AllLoaded entries raws devices
unfolding load_devices
load_devices-ok entries [] [] e = tt
load_devices-ok entries [] (d ∷ ds) e = cc
load_devices-ok entries (raw ∷ raws) devices e =
    let (d, ed, e1) = bind-eq-ok (load_device entries raw) _ e in
    let (ds, es, e2) = bind-eq-ok (load_devices entries raws) _ e1 in
    subst (AllLoaded entries (raw ∷ raws)) (ok-inj _ devices e2)
      (load_device-ok entries raw d ed, load_devices-ok entries raws ds es)

load_devices-AllLoaded :
    (entries : Entries) (raws : List RawDevice) (devices : List Device)
    → AllLoaded entries raws devices
    → load_devices entries raws ≡ ok devices
unfolding load_devices
load_devices-AllLoaded entries [] [] h = refl
load_devices-AllLoaded entries [] (d ∷ ds) h = absurd h
load_devices-AllLoaded entries (raw ∷ raws) [] h = absurd h
load_devices-AllLoaded entries (raw ∷ raws) (d ∷ ds) (h, hs) =
    rw (load_device-IsLoaded entries raw d h) (rw (load_devices-AllLoaded entries raws ds hs) refl)

-- The entries of a file are loaded as the given devices exactly if they are as many and each
-- device has the category, the base and the series that its entry names in words, and its entry's
-- description and code, which is at most 255 and that of an entry of the embedded file's names.
pub load_devices_iff :
    (entries : Entries) (raws : List RawDevice) (devices : List Device)
    → (load_devices entries raws ≡ ok devices) ↔ AllLoaded entries raws devices
load_devices_iff entries raws devices =
    (load_devices-ok entries raws devices, load_devices-AllLoaded entries raws devices)
