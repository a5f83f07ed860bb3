-- ===== src/Device/Symbol.antt =====
-- `Symbol` of src/device.rs.
use Prim.Native.Char.{Char}
use melsec_mc.Prelude.{ℕ, String, Option, none, some, List, [], ◌∷◌, ◌≡◌, ◌↔◌, refl}
use melsec_mc.Error.{Result, ok, fail, unknown_symbol, known_symbol_not_found}
use melsec_mc.Text.{to_uppercase}
use melsec_mc.Match.{match_str, are_names, match_str-ok}
use melsec_mc.Device.{Device, device_by_symbol}

pub data Symbol : Type 0 where
  d w m x y l f v b ts tc tn sn cn cs hs : Symbol
  hr ar dm em zr ltn sw cc ci di pi si bi fi ai ao : Symbol

pub as_str : Symbol → String
as_str d = "D"
as_str w = "W"
as_str m = "M"
as_str x = "X"
as_str y = "Y"
as_str l = "L"
as_str f = "F"
as_str v = "V"
as_str b = "B"
as_str ts = "TS"
as_str tc = "TC"
as_str tn = "TN"
as_str sn = "SN"
as_str cn = "CN"
as_str cs = "CS"
as_str hs = "HS"
as_str hr = "HR"
as_str ar = "AR"
as_str dm = "DM"
as_str em = "EM"
as_str zr = "ZR"
as_str ltn = "LTN"
as_str sw = "SW"
as_str cc = "CC"
as_str ci = "CI"
as_str di = "DI"
as_str pi = "PI"
as_str si = "SI"
as_str bi = "BI"
as_str fi = "FI"
as_str ai = "AI"
as_str ao = "AO"

abbrev symbols : List (String × Symbol)
symbols =
    ("D", d)
    ∷ ("W", w)
    ∷ ("M", m)
    ∷ ("X", x)
    ∷ ("Y", y)
    ∷ ("L", l)
    ∷ ("F", f)
    ∷ ("V", v)
    ∷ ("B", b)
    ∷ ("TS", ts)
    ∷ ("TC", tc)
    ∷ ("TN", tn)
    ∷ ("SN", sn)
    ∷ ("CN", cn)
    ∷ ("CS", cs)
    ∷ ("HS", hs)
    ∷ ("HR", hr)
    ∷ ("AR", ar)
    ∷ ("DM", dm)
    ∷ ("EM", em)
    ∷ ("ZR", zr)
    ∷ ("LTN", ltn)
    ∷ ("SW", sw)
    ∷ ("CC", cc)
    ∷ ("CI", ci)
    ∷ ("DI", di)
    ∷ ("PI", pi)
    ∷ ("SI", si)
    ∷ ("BI", bi)
    ∷ ("FI", fi)
    ∷ ("AI", ai)
    ∷ ("AO", ao)
    ∷ []

-- `from_str`, after its `to_uppercase`.
pub from_upper : String → Result Symbol
unfolding match_str
from_upper text = match_str symbols (unknown_symbol text) text

from_str : (Char → String) → String → Result Symbol
from_str other text = from_upper (to_uppercase other text)

try_to_device : (ℕ → String) → List Device → Symbol → Option Device
try_to_device names devices sym = device_by_symbol names devices (as_str sym)

found_device : Option Device → Result Device
found_device none = fail known_symbol_not_found
found_device (some device) = ok device

to_device : (ℕ → String) → List Device → Symbol → Result Device
to_device names devices sym = found_device (try_to_device names devices sym)

from_upper-as_str : (sym : Symbol) → from_upper (as_str sym) ≡ ok sym
unfolding from_upper as_str
from_upper-as_str d = refl
from_upper-as_str w = refl
from_upper-as_str m = refl
from_upper-as_str x = refl
from_upper-as_str y = refl
from_upper-as_str l = refl
from_upper-as_str f = refl
from_upper-as_str v = refl
from_upper-as_str b = refl
from_upper-as_str ts = refl
from_upper-as_str tc = refl
from_upper-as_str tn = refl
from_upper-as_str sn = refl
from_upper-as_str cn = refl
from_upper-as_str cs = refl
from_upper-as_str hs = refl
from_upper-as_str hr = refl
from_upper-as_str ar = refl
from_upper-as_str dm = refl
from_upper-as_str em = refl
from_upper-as_str zr = refl
from_upper-as_str ltn = refl
from_upper-as_str sw = refl
from_upper-as_str cc = refl
from_upper-as_str ci = refl
from_upper-as_str di = refl
from_upper-as_str pi = refl
from_upper-as_str si = refl
from_upper-as_str bi = refl
from_upper-as_str fi = refl
from_upper-as_str ai = refl
from_upper-as_str ao = refl

from_upper-ok : (text : String) (sym : Symbol) → from_upper text ≡ ok sym → text ≡ as_str sym
unfolding from_upper as_str are_names
from_upper-ok text sym h = match_str-ok as_str symbols (unknown_symbol text) text sym refl h

-- A string in upper case is read as a symbol exactly if it is the symbol's name.
pub from_upper_iff :
    (text : String) (sym : Symbol) → (from_upper text ≡ ok sym) ↔ (text ≡ as_str sym)
from_upper_iff text sym = (from_upper-ok text sym, λ e. rw e (from_upper-as_str sym))
