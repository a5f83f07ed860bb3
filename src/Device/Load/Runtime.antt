-- ===== src/Device/Load/Runtime.antt =====
-- The list of devices that is used, over several calls.
use Prim.Native.String.{String}
use melsec_mc.Prelude.{
  ◌≡◌, refl, ap, map, ◌++◌, Option, none, some, List, [], ◌∷◌, ◌⊎◌, inl, inr, All,
}
use melsec_mc.Error.{MelsecError, ok, err}
use melsec_mc.Files.{System, FilePath, parent, define_path, exists, read_to_string}
use melsec_mc.Device.{Device}
use melsec_mc.Device.Codes.{Entries}
use melsec_mc.Device.Load.{
  RawDevice, define_text, store_after, list_used, parse_devices_toml, runtime_devices,
  find_define_device_toml, text_of, compiled_devices,
}

-- `define/device.toml` stands beside the executable and has this text.
pub record HasDefine (sys : System) (s : String) : Type 0 where
  pub app : String
  pub dir : FilePath
  pub started : sys.current_exe ≡ inr (app ∷ dir)
  pub there : sys.file ("device.toml" ∷ "define" ∷ dir) ≡ some (inr s)

-- The executable is not known or has no directory, there is no such file, or it cannot be read.
abbrev pub HasNone : System → Type 0
HasNone sys =
    ((e : String) × (sys.current_exe ≡ inl e))
    ⊎ ((sys.current_exe ≡ inr [])
        ⊎ ((app : String) × (dir : FilePath) × (sys.current_exe ≡ inr (app ∷ dir))
            × ((sys.file ("device.toml" ∷ "define" ∷ dir) ≡ none)
                ⊎ ((e : String) × (sys.file ("device.toml" ∷ "define" ∷ dir) ≡ some (inl e))))))

-- What is at the file's path is what is read.
define_text_at :
    (current_exe : String ⊎ FilePath) (file : FilePath → Option (String ⊎ String))
    (not_found app : String) (dir : FilePath) (there : Option (String ⊎ String))
    → current_exe ≡ inr (app ∷ dir)
    → file ("device.toml" ∷ "define" ∷ dir) ≡ there
    → define_text (record { current_exe = current_exe; file = file; not_found = not_found })
      ≡ elim there [ none ↦ none | some s ↦ text_of s ]
unfolding define_text find_define_device_toml text_of parent define_path exists read_to_string
define_text_at exe file not_found app dir none started at =
    rw (started, define_text, find_define_device_toml, exists, at)
define_text_at exe file not_found app dir (some s) started at =
    rw (started, define_text, find_define_device_toml, exists, at) (rw (read_to_string, at) refl)

define_text-HasDefine : (sys : System) (s : String) → HasDefine sys s → define_text sys ≡ some s
unfolding text_of
define_text-HasDefine sys s h =
    define_text_at sys.current_exe sys.file sys.not_found h.app h.dir (some (inr s)) h.started
      h.there

define_text-HasNone : (sys : System) → HasNone sys → define_text sys ≡ none
unfolding define_text find_define_device_toml text_of parent
define_text-HasNone sys (inl (e, unknown)) = rw unknown
define_text-HasNone sys (inr (inl root)) = rw root
define_text-HasNone sys (inr (inr (app, dir, started, inl absent))) =
    define_text_at sys.current_exe sys.file sys.not_found app dir none started absent
define_text-HasNone sys (inr (inr (app, dir, started, inr (e, unreadable)))) =
    define_text_at sys.current_exe sys.file sys.not_found app dir (some (inl e)) started unreadable

module _ (from_toml : String → String ⊎ List RawDevice) (entries : Entries)
    (embedded : String) where
  -- The lists that one call after the other uses, as the files are at each.
  abbrev pub lists_used : List System → Option (List Device) → List (List Device)
  lists_used [] store = []
  lists_used (sys ∷ systems) store =
      let (devices, after) = runtime_devices from_toml entries embedded sys store in
      devices ∷ lists_used systems after

  store_after-some :
      (text : Option String) (devices : List Device)
      → store_after from_toml entries text (some devices) ≡ some devices
  unfolding store_after
  store_after-some none devices = refl
  store_after-some (some s) devices = refl

  lists_used-some :
      (systems : List System) (devices : List Device)
      → lists_used systems (some devices) ≡ map (λ (sys : System). devices) systems
  unfolding runtime_devices list_used
  lists_used-some [] devices = refl
  lists_used-some (sys ∷ systems) devices =
      rw (store_after-some (define_text sys) devices)
        (ap (λ (used : List (List Device)). devices ∷ used) (lists_used-some systems devices))

  -- There is no file that can be read, or its entries cannot be loaded.
  abbrev pub IsWithout : System → Type 0
  IsWithout sys =
      HasNone sys
      ⊎ ((s : String) × (e : MelsecError) × HasDefine sys s
          × (parse_devices_toml from_toml entries s ≡ err e))

  store_after-IsWithout :
      (sys : System) → IsWithout sys → store_after from_toml entries (define_text sys) none ≡ none
  unfolding store_after
  store_after-IsWithout sys (inl absent) = rw (define_text-HasNone sys absent)
  store_after-IsWithout sys (inr (s, e, found, refused)) =
      rw (define_text-HasDefine sys s found) (rw refused)

  -- From the first call on for which `define/device.toml` beside the executable can be read and
  -- its entries loaded, every call uses its devices, whatever becomes of the file; the calls before
  -- it use those of the embedded file. The store is empty at the start, and the embedded file can
  -- be loaded.
  pub lists_used_lem :
      (before after : List System) (sys : System) (s : String) (devices builtin : List Device)
      → parse_devices_toml from_toml entries embedded ≡ ok builtin
      → All IsWithout before
      → HasDefine sys s
      → parse_devices_toml from_toml entries s ≡ ok devices
      → lists_used (before ++ (sys ∷ after)) none
        ≡ map (λ (earlier : System). builtin) before
          ++ map (λ (later : System). devices) (sys ∷ after)
  unfolding runtime_devices list_used store_after compiled_devices
  lists_used_lem [] after sys s devices builtin b h found parsed =
      rw (define_text-HasDefine sys s found) (
        rw parsed
          (ap (λ (used : List (List Device)). devices ∷ used) (lists_used-some after devices)))
  lists_used_lem (earlier ∷ before) after sys s devices builtin b (h, hs) found parsed =
      rw (store_after-IsWithout earlier h) (
        rw b (
          ap (λ (used : List (List Device)). builtin ∷ used)
            (lists_used_lem before after sys s devices builtin b hs found parsed)))
