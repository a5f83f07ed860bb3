-- ===== src/Device/Load/Names.antt =====
-- How a file names a category, a base and a series, and what it loads for these names.
use melsec_mc.Prelude.{
  ◌≡◌, refl, String, List, [], ◌∷◌, subst, Bool-cases, inl, inr, map, str_eq, eq_iff, ap₂,
}
use melsec_mc.Error.{Result, ok-inj, ok, fail, bind-eq-ok, ◌>>=◌}
use melsec_mc.PlcSeries.{PlcSeries, q, r}
use melsec_mc.Device.{DeviceType, bit, word, double_word, NumberBase, decimal, hexadecimal}
use melsec_mc.Device.Load.{category_of, base_of, series_of}

abbrev pub category_name : DeviceType → String
category_name bit = "Bit"
category_name word = "Word"
category_name double_word = "DoubleWord"

abbrev pub base_name : NumberBase → String
base_name decimal = "Decimal"
base_name hexadecimal = "Hexadecimal"

abbrev pub series_name : PlcSeries → String
series_name q = "Q"
series_name r = "R"

pub category_of-ok :
    (symbol s : String) (category : DeviceType)
    → category_of symbol s ≡ ok category
    → s ≡ category_name category
unfolding category_of
category_of-ok symbol s category e = elim (Bool-cases (str_eq s "Bit")) [
  | inl same ↦
      let e' : ok bit ≡ ok category = rw same at e in
      subst (λ (c : DeviceType). s ≡ category_name c) (ok-inj bit category e')
        ((eq_iff s "Bit").0 same)
  | inr other ↦ elim (Bool-cases (str_eq s "Word")) [
    | inl same ↦
        let e' : ok word ≡ ok category = rw same at (rw other at e) in
        subst (λ (c : DeviceType). s ≡ category_name c) (ok-inj word category e')
          ((eq_iff s "Word").0 same)
    | inr other2 ↦ elim (Bool-cases (str_eq s "DoubleWord")) [
      | inl same ↦
          let e' : ok double_word ≡ ok category = rw same at (rw other2 at (rw other at e)) in
          subst (λ (c : DeviceType). s ≡ category_name c) (ok-inj double_word category e')
            ((eq_iff s "DoubleWord").0 same)
      | inr other3 ↦
          let e' : fail _ ≡ ok category = rw other3 at (rw other2 at (rw other at e)) in cc
    ]
  ]
]

pub base_of-ok :
    (symbol s : String) (base : NumberBase) → base_of symbol s ≡ ok base → s ≡ base_name base
unfolding base_of
base_of-ok symbol s base e = elim (Bool-cases (str_eq s "Decimal")) [
  | inl same ↦
      let e' : ok decimal ≡ ok base = rw same at e in
      subst (λ (b : NumberBase). s ≡ base_name b) (ok-inj decimal base e')
        ((eq_iff s "Decimal").0 same)
  | inr other ↦ elim (Bool-cases (str_eq s "Hexadecimal")) [
    | inl same ↦
        let e' : ok hexadecimal ≡ ok base = rw same at (rw other at e) in
        subst (λ (b : NumberBase). s ≡ base_name b) (ok-inj hexadecimal base e')
          ((eq_iff s "Hexadecimal").0 same)
    | inr other2 ↦ let e' : fail _ ≡ ok base = rw other2 at (rw other at e) in cc
  ]
]

-- A series that has been read in front of those that are.
series-cons :
    (rest : Result (List PlcSeries)) (token : PlcSeries) (s : String) (ss : List String)
    (ts : List PlcSeries)
    → ((us : List PlcSeries) → rest ≡ ok us → ss ≡ map series_name us)
    → s ≡ series_name token
    → (rest >>= λ (tokens : List PlcSeries). ok (token ∷ tokens)) ≡ ok ts
    → (s ∷ ss) ≡ map series_name ts
series-cons rest token s ss ts read same e =
    let (us, e1, e2) = bind-eq-ok rest (λ (tokens : List PlcSeries). ok (token ∷ tokens)) e in
    subst (λ (all : List PlcSeries). (s ∷ ss) ≡ map series_name all) (ok-inj _ ts e2)
      (ap₂ (λ (x : String) (xs : List String). x ∷ xs) same (read us e1))

pub series_of-ok :
    (symbol : String) (ss : List String) (ts : List PlcSeries)
    → series_of symbol ss ≡ ok ts
    → ss ≡ map series_name ts
unfolding series_of
series_of-ok symbol [] ts e =
    subst (λ (all : List PlcSeries). [] ≡ map series_name all) (ok-inj [] ts e) refl
series_of-ok symbol (s ∷ ss) ts e = elim (Bool-cases (str_eq s "Q")) [
  | inl same ↦
      series-cons (series_of symbol ss) q s ss ts (series_of-ok symbol ss) ((eq_iff s "Q").0 same)
        (rw same at e)
  | inr other ↦ elim (Bool-cases (str_eq s "R")) [
    | inl same ↦
        series-cons (series_of symbol ss) r s ss ts (series_of-ok symbol ss) ((eq_iff s "R").0 same)
          (rw same at (rw other at e))
    | inr other2 ↦ let e' : fail _ ≡ ok ts = rw other2 at (rw other at e) in cc
  ]
]

pub category_of-category_name :
    (symbol : String) (category : DeviceType)
    → category_of symbol (category_name category) ≡ ok category
unfolding category_of
category_of-category_name symbol bit = refl
category_of-category_name symbol word = refl
category_of-category_name symbol double_word = refl

pub base_of-base_name :
    (symbol : String) (base : NumberBase) → base_of symbol (base_name base) ≡ ok base
unfolding base_of
base_of-base_name symbol decimal = refl
base_of-base_name symbol hexadecimal = refl

pub series_of-series_name :
    (symbol : String) (series : List PlcSeries)
    → series_of symbol (map series_name series) ≡ ok series
unfolding series_of
series_of-series_name symbol [] = refl
series_of-series_name symbol (q ∷ series) = rw (series_of-series_name symbol series) refl
series_of-series_name symbol (r ∷ series) = rw (series_of-series_name symbol series) refl
