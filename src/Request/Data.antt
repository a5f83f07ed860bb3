-- ===== src/Request/Data.antt =====
-- Setting the data of a request.
use melsec_mc.Prelude.{
  ℕ, ◌+◌, ◌-◌, ◌^◌, ◌≤◌, ◌<◌, ◌≡◌, refl, arith, length, leb, leb→le, le→leb, lt→leb, if◌then◌else◌,
  Bool-cases, inl, inr, sym, ◌∙◌, subst,
}
use melsec_mc.Error.{Result, ok, err, panic, fail, request_data_too_large}
use melsec_mc.Bytes.{Bytes, IsU16, IsBytes}
use melsec_mc.McDefine.{list2, IsRoute}
use melsec_mc.McDefine.Route.{default_route-IsRoute}
use melsec_mc.Request.{McRequest, IsRequest, new, try_with_request_data}
use melsec_mc.Request.Serial.{next_serial-range}

-- The other fields of a request, as the builder sets them.
pub record IsHeader (r : McRequest) : Type 0 where
  pub subheader_bytes : IsBytes (list2 r.subheader)
  pub route : IsRoute r.access_route
  pub timer_word : IsU16 r.monitoring_timer
  pub serial_word : IsU16 r.serial_number

pub new-IsHeader : (c : ℕ) → 1 ≤ c → c ≤ 65535 → IsHeader (new c).0
unfolding new
new-IsHeader c h k =
    let s = next_serial-range c h k in
    record {
      subheader_bytes = omega arith;
      route = default_route-IsRoute;
      timer_word = omega arith;
      serial_word = omega arith;
    }

abbrev GoodRequest : Result McRequest → Type 0
GoodRequest (ok r) = IsRequest r
GoodRequest (err e) = Unit
GoodRequest panic = Unit

-- At most 65533 bytes of data are set, with the length field for them, and more are refused, if
-- the length and 2 fit a `usize`.
pub try_with_request_data_lem :
    (r : McRequest) (d : Bytes)
    → length d + 2 < 2 ^ 64
    → try_with_request_data r d ≡ (
        if leb (length d) 65533
        then ok (record r { request_data_len = length d + 2; request_data = d })
        else fail request_data_too_large)
unfolding try_with_request_data
try_with_request_data_lem r d small = elim (Bool-cases (leb (length d) 65533)) [
  | inl fits ↦ rw (
    fits,
    le→leb (length d + 2) (2 ^ 64 - 1) (omega arith),
    le→leb (length d + 2) 65535 (ground arith),
  )
  | inr long ↦ rw (
    long,
    le→leb (length d + 2) (2 ^ 64 - 1) (omega arith),
    lt→leb (length d + 2) 65535 (ground arith),
  )
]

-- A request with a header as the builder sets it can be framed once its data are set, if they are
-- bytes: its length field is right and fits.
pub try_with_request_data-IsRequest :
    (r r' : McRequest) (d : Bytes)
    → IsHeader r
    → IsBytes d
    → length d + 2 < 2 ^ 64
    → try_with_request_data r d ≡ ok r'
    → IsRequest r'
try_with_request_data-IsRequest r r' d h bytes small e = elim (Bool-cases (leb (length d) 65533)) [
  | inl fits ↦
      let same : ok (record r { request_data_len = length d + 2; request_data = d }) ≡ ok r' =
        (let e' = sym (try_with_request_data_lem r d small) ∙ e in rw fits at e') in
      subst (λ x. GoodRequest x) same
        (record {
          subheader_bytes = h.subheader_bytes;
          route = h.route;
          data_len = refl;
          data_fits = leb→le (length d) 65533 fits;
          timer_word = h.timer_word;
          data_bytes = bytes;
          serial_word = h.serial_word;
        })
  | inr long ↦ let e' = sym (try_with_request_data_lem r d small) ∙ e in absurd (ground (arith, e'))
]
