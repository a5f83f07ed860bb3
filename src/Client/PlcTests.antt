-- ===== src/Client/PlcTests.antt =====
-- A PLC of the Q series with one block of words, at which the theorem on a write and a read applies.
use melsec_mc.Prelude.{
  ℕ, ◌+◌, ◌*◌, ◌≡◌, ◌==◌, refl, ap, arith, true, Option, some, none, inl, List, [], ◌∷◌, get_or,
  take, drop, length, take-length_le, All, if◌then◌else◌,
}
use melsec_mc.Error.{Result, ok, err, panic}
use melsec_mc.Bytes.{Bytes, IsU16}
use melsec_mc.McDefine.{mc4e}
use melsec_mc.McDefine.Route.{default_route-IsRoute}
use melsec_mc.PlcSeries.{q}
use melsec_mc.Request.{McRequest, build_with_format, try_from_payload}
use melsec_mc.Request.RoundTrip.{try_from_payload-build_mc4e}
use melsec_mc.Config.{default_config}
use melsec_mc.Command.{Command, as_str}
use melsec_mc.Json.Plain.{plain, plain-IsJson}
use melsec_mc.Registry.{CommandSpec, low_bytes, effective_sub, resolved}
use melsec_mc.Registry.Numbers.{le_number, le_number-low_bytes}
use melsec_mc.Registry.File.{insert_spec}
use melsec_mc.Registry.FileTests.{read_words_spec}
use melsec_mc.Registry.Response.{number_values}
use melsec_mc.Registry.Response.Words.{bytes_of_words}
use melsec_mc.Client.FileTests.{register_d, names, no_upper, d0, write_words_spec}
use melsec_mc.Client.{Done}
use melsec_mc.Client.Tests.{client}
use melsec_mc.Client.Plc.{IsPlc, IsReady}
use melsec_mc.Client.WriteRead.{IsReadSpec, IsWriteSpec, written, read_back, write_words-read_words}

words_of : Bytes → List ℕ
words_of [] = []
words_of (a ∷ []) = []
words_of (a ∷ b ∷ rest) = (a + 256 * b) ∷ words_of rest

words_of-bytes_of_words : (ws : List ℕ) → All IsU16 ws → words_of (bytes_of_words true ws) ≡ ws
unfolding words_of bytes_of_words
words_of-bytes_of_words [] h = refl
words_of-bytes_of_words (w ∷ ws) (h, hs) =
    rw (words_of-bytes_of_words ws hs) (ap (λ (n : ℕ). n ∷ ws) (omega arith))

-- A command code with 0x14 as its high byte writes; any other reads.
executed : Bytes → List ℕ → Bytes × List ℕ
executed d s =
    if get_or d 1 0 == 0x14
    then ([], words_of (drop 10 d))
    else (bytes_of_words true (take (le_number (take 2 (drop 8 d))) s), s)

abbrev reply_with : McRequest → Bytes → McRequest
reply_with r d = record r {
  subheader = (0xD4, 0x00);
  request_data_len = length d + 2;
  monitoring_timer = 0;
  request_data = d;
}

abbrev run : Result McRequest → List ℕ → Result Bytes × List ℕ
run (ok r) s = (
  ok (build_with_format (reply_with r (executed r.request_data s).0) mc4e),
  (executed r.request_data s).1,
)
run (err e) s = (err e, s)
run panic s = (panic, s)

abbrev q_plc : Bytes → List ℕ → Result Bytes × List ℕ
q_plc payload s = run (try_from_payload payload) s

q_plc-IsPlc : IsPlc q_plc q 0 0
unfolding executed low_bytes
q_plc-IsPlc = record {
  execute = executed;
  reply = reply_with;
  load = λ s code addr count. take count s;
  store = λ s code addr ws. ws;
  answers = λ r s h first. rw (try_from_payload-build_mc4e r h (inl first)) refl;
  reply-IsRequest = λ r d h bytes fits. record {
    subheader_bytes = omega arith;
    route = h.route;
    data_len = refl;
    data_fits = fits;
    timer_word = omega arith;
    data_bytes = bytes;
    serial_word = h.serial_word;
  };
  reply_subheader = λ r d. refl;
  reply_end_code = λ r d. refl;
  reply_data = λ r d. refl;
  execute_write = λ s code addr ws h. ap (λ (l : List ℕ). ([], l)) (words_of-bytes_of_words ws h);
  execute_read = λ s code addr count small.
      ap (λ (n : ℕ). (bytes_of_words true (take n s), s)) (le_number-low_bytes 2 count small);
  load-store = λ s code addr ws h. take-length_le (length ws) ws (omega arith);
}

abbrev both : Command → Option CommandSpec
both =
    insert_spec (insert_spec (λ id. none) Command.read_words read_words_spec) Command.write_words
      write_words_spec

client-IsReady : IsReady client default_config
client-IsReady = record { format = refl; route = default_route-IsRoute; attempts = omega arith }

read_words_spec-IsReadSpec : IsReadSpec read_words_spec
read_words_spec-IsReadSpec = record {
  code = refl;
  fields = refl;
  blocks = refl;
  family = refl;
  entries = refl;
}

write_words_spec-IsWriteSpec : IsWriteSpec write_words_spec
write_words_spec-IsWriteSpec = record {
  code = refl;
  fields = refl;
  blocks = refl;
  family = refl;
  entries = refl;
}

abbrev write_done : Done (List ℕ) plain.Value
write_done =
    written q_plc default_config client 0 0 q_plc-IsPlc client-IsReady no_upper names
      (register_d ∷ []) plain plain-IsJson none both read_words_spec write_words_spec "d0"
      (5 ∷ 6 ∷ []) 1 []

write_words-read_words_example :
    (write_done.outcome ≡ ok (plain.object plain.empty))
    × (v : plain.Value) × ((read_back q_plc default_config client 0 0 q_plc-IsPlc client-IsReady
          no_upper names
          (register_d ∷ [])
          plain
          plain-IsJson
          none
          both
          read_words_spec
          write_words_spec
          "d0"
          2
          write_done).outcome
        ≡ ok v)
    × (plain.get v "data_blocks"
        ≡ some (plain.array (plain.array (number_values plain (5 ∷ 6 ∷ [])) ∷ [])))
unfolding insert_spec as_str effective_sub resolved
write_words-read_words_example =
    write_words-read_words q_plc default_config client 0 0 q_plc-IsPlc client-IsReady no_upper names
      (register_d ∷ []) plain plain-IsJson none both read_words_spec write_words_spec "d0"
      register_d 0 (5 ∷ 6 ∷ []) 1 [] refl write_words_spec-IsWriteSpec refl refl
      read_words_spec-IsReadSpec refl d0 (omega arith) (omega arith) (omega arith) (omega arith)
      (omega arith)
