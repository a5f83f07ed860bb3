-- ===== src/Codec/Tests.antt =====
-- Values at which the theorems on the codecs apply.
use melsec_mc.Prelude.{ℤ, pos, negsuc, ℕ, [], ◌∷◌, ◌≢◌, List, arith}
use melsec_mc.Error.{panic}
use melsec_mc.Codec.{two_words, from_words_i32, decode_all}
use melsec_mc.Codec.Decode.{Decodes, decode_all-Decodes}

abbrev values : List ℤ
values = pos 70000 ∷ negsuc 0 ∷ []

-- Reading an `i32` does not panic.
i32_no_panic : (ws : List ℕ) → from_words_i32.from_words_slice ws ≢ panic
unfolding from_words_i32 two_words
i32_no_panic [] = cc
i32_no_panic (w ∷ []) = cc
i32_no_panic (w ∷ v ∷ ws) = cc

decode_all-Decodes_example : Decodes 2 [] (decode_all from_words_i32 2 (1 ∷ 2 ∷ 3 ∷ []))
unfolding from_words_i32
decode_all-Decodes_example =
    decode_all-Decodes from_words_i32 i32_no_panic 2 (1 ∷ 2 ∷ 3 ∷ []) (omega arith)
