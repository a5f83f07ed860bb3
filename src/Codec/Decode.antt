-- ===== src/Codec/Decode.antt =====
-- The loops of `read_words_as` and `write_words_as`.
use melsec_mc.Prelude.{
  ℕ, zero, suc, ◌+◌, ◌*◌, ◌-◌, ◌≤◌, ◌<◌, ◌≡◌, ◌≢◌, refl, ap, sym, subst, ◌∙◌, Option, none, some,
  List, [], ◌∷◌, ◌++◌, append_assoc, append-nil, arith, length, length-append, drop,
  drop-append_length, All, ltb, leb, ◌&&◌, Bool-cases, inl, inr, lt→ltb, le→leb, le→ltb,
  if◌then◌else◌,
}
use melsec_mc.Error.{Result, ok, err, panic}
use melsec_mc.Codec.{FromWords, ToWords, decode, decode_all, flat}
use melsec_mc.Codec.Laws.{IsCodec}

module _ {T : Type 0} (from : FromWords T) where
  -- What a round does with the element that it reads.
  abbrev after_element : ℕ → ℕ → List ℕ → ℕ → ℕ → List T → Result (T × ℕ) → Option (List T)
  after_element fuel count words idx parsed out (ok (v, used)) =
      decode from fuel count words (idx + used) (parsed + 1) (out ++ (v ∷ []))
  after_element fuel count words idx parsed out (err e) =
      decode from fuel count words (idx + 1) parsed out
  after_element fuel count words idx parsed out panic = none

  decode-suc :
      (fuel count : ℕ) (words : List ℕ) (idx parsed : ℕ) (out : List T)
      → decode from (suc fuel) count words idx parsed out ≡ (
          if ltb parsed count && leb (idx + from.words) (length words)
          then after_element fuel count words idx parsed out
              (from.from_words_slice (drop idx words))
          else some out)
  unfolding decode
  decode-suc fuel count words idx parsed out = ground arith

module _ {T : Type 0} {from : FromWords T} {to : ToWords T} {Valid : T → Type 0}
    (codec : IsCodec from to Valid) where
  -- The words of a list of values.
  unfoldable pub words_of : List T → List ℕ
  words_of [] = []
  words_of (v ∷ vs) = codec.encoded v ++ words_of vs

  pub flat-words_of : (out : List ℕ) (vs : List T) → flat to out vs ≡ out ++ words_of vs
  unfolding flat words_of
  flat-words_of out [] = sym (append-nil out)
  flat-words_of out (v ∷ vs) =
      ap (λ t. flat to t vs) (codec.appends v out)
      ∙ flat-words_of (out ++ codec.encoded v) vs
      ∙ append_assoc out (codec.encoded v) (words_of vs)

  pub length-words_of : (vs : List T) → length (words_of vs) ≡ length vs * from.words
  unfolding words_of
  length-words_of [] = omega arith
  length-words_of (v ∷ vs) =
      length-append (codec.encoded v) (words_of vs)
      ∙ omega (arith, codec.length_encoded v, length-words_of vs)

  -- One round of the loop at the words of a value.
  decode-encoded :
      (fuel count : ℕ) (words before rest : List ℕ) (idx parsed : ℕ) (out : List T) (v : T)
      → Valid v
      → parsed < count
      → words ≡ before ++ (codec.encoded v ++ rest)
      → idx ≡ length before
      → decode from (suc fuel) count words idx parsed out
        ≡ decode from fuel count words (idx + from.words) (parsed + 1) (out ++ (v ∷ []))
  decode-encoded fuel count words before rest idx parsed out v valid more e at = rw (
    decode-suc from fuel count words idx parsed out,
    lt→ltb parsed count more,
    le→leb (idx + from.words) (length words) room,
    ap (drop idx) e ∙ drop-append_length idx before (codec.encoded v ++ rest) at,
    codec.decodes v rest valid,
  )
    where
      room : idx + from.words ≤ length words
      room = omega (
        arith,
        ap (length {A = ℕ}) e,
        length-append before (codec.encoded v ++ rest),
        length-append (codec.encoded v) rest,
        codec.length_encoded v,
      )

  decode_done :
      (fuel count : ℕ) (words : List ℕ) (idx parsed : ℕ) (out : List T)
      → count ≤ parsed
      → decode from (suc fuel) count words idx parsed out ≡ some out
  decode_done fuel count words idx parsed out h =
      rw (decode-suc from fuel count words idx parsed out, le→ltb parsed count h)

  decode-words_of :
      (vs : List T) (fuel count : ℕ) (words before rest : List ℕ) (idx parsed : ℕ) (out : List T)
      → All Valid vs
      → length vs < fuel
      → parsed + length vs ≡ count
      → words ≡ before ++ (words_of vs ++ rest)
      → idx ≡ length before
      → decode from fuel count words idx parsed out ≡ some (out ++ vs)
  decode-words_of vs zero count words before rest idx parsed out valid enough total e at =
      absurd (omega arith)
  decode-words_of [] (suc fuel) count words before rest idx parsed out valid enough total e at =
      decode_done fuel count words idx parsed out (omega arith) ∙ ap some (sym (append-nil out))
  decode-words_of (v ∷ vs) (suc fuel) count words before rest idx parsed out valid enough total e
        at =
      decode-encoded fuel count words before (words_of vs ++ rest) idx parsed out v valid.0
        (omega arith)
        (e
          ∙ ap (λ t. before ++ t)
              (unfold words_of in append_assoc (codec.encoded v) (words_of vs) rest))
        at
      ∙ decode-words_of vs fuel count words (before ++ codec.encoded v) rest (idx + from.words)
          (parsed + 1) (out ++ (v ∷ [])) valid.1 (omega arith) (omega arith)
          (e ∙ (unfold words_of in simp append_assoc))
          (omega (arith, length-append before (codec.encoded v), codec.length_encoded v))
      ∙ ap some (append_assoc out (v ∷ []) vs)

  -- For a codec that keeps its law, decoding the words that `write_words_as` makes of valid
  -- values, whatever words follow them, gives the values back.
  pub decode_all-flat :
      (vs : List T) (rest : List ℕ)
      → All Valid vs
      → decode_all from (length vs) (flat to [] vs ++ rest) ≡ some vs
  unfolding decode_all
  decode_all-flat vs rest valid =
      decode-words_of vs (suc (length vs + length (flat to [] vs ++ rest))) (length vs)
        (flat to [] vs ++ rest) [] rest 0 0 [] valid (omega arith) (omega arith)
        (ap (λ t. t ++ rest) (flat-words_of [] vs)) refl

-- `from_words_slice` never panics, as for the six codecs.
abbrev NoPanic : {T : Type 0} → FromWords T → Type 0
NoPanic from = (ws : List ℕ) → from.from_words_slice ws ≢ panic

-- A decoded list: the elements before it, and at most `room` more.
abbrev pub Decodes : {T : Type 0} → ℕ → List T → Option (List T) → Type 0
Decodes room out none = ⊥
Decodes room out (some vs) = length vs ≤ length out + room

module _ {T : Type 0} (from : FromWords T) (no_panic : NoPanic from) where
  Decodes-more :
      (room : ℕ) (out : List T) (v : T) (r : Option (List T))
      → Decodes room (out ++ (v ∷ [])) r
      → Decodes (suc room) out r
  Decodes-more room out v none h = h
  Decodes-more room out v (some vs) h = omega (arith, length-append out (v ∷ []))

  after_element-Decodes :
      (fuel count : ℕ) (words : List ℕ) (idx parsed : ℕ) (out : List T) (r : Result (T × ℕ))
      → r ≢ panic
      → parsed < count
      → ((v : T) (used : ℕ)
          → Decodes
              (count - (parsed + 1))
              (out ++ (v ∷ []))
              (decode from fuel count words (idx + used) (parsed + 1) (out ++ (v ∷ []))))
      → Decodes (count - parsed) out (decode from fuel count words (idx + 1) parsed out)
      → Decodes (count - parsed) out (after_element from fuel count words idx parsed out r)
  after_element-Decodes fuel count words idx parsed out (ok (v, used)) np more h k =
      subst
        (λ n.
          Decodes n out (decode from fuel count words (idx + used) (parsed + 1) (out ++ (v ∷ []))))
        (let e : suc (count - (parsed + 1)) ≡ count - parsed = omega arith in e)
        (Decodes-more (count - (parsed + 1)) out v
          (decode from fuel count words (idx + used) (parsed + 1) (out ++ (v ∷ []))) (h v used))
  after_element-Decodes fuel count words idx parsed out (err e) np more h k = k
  after_element-Decodes fuel count words idx parsed out panic np more h k = absurd (np refl)

  decode-Decodes :
      (fuel count : ℕ) (words : List ℕ) (idx parsed : ℕ) (out : List T)
      → (count - parsed) + (length words - idx) < fuel
      → 1 ≤ from.words
      → Decodes (count - parsed) out (decode from fuel count words idx parsed out)
  decode-Decodes zero count words idx parsed out h pos = absurd (omega arith)
  decode-Decodes (suc fuel) count words idx parsed out h pos =
      elim (Bool-cases (ltb parsed count && leb (idx + from.words) (length words))) [
        | inr stop ↦ rw (decode-suc from fuel count words idx parsed out, stop) (omega arith)
        | inl go ↦
            let more : parsed < count = ground arith in
            let room : idx + from.words ≤ length words = ground arith in
            rw (decode-suc from fuel count words idx parsed out, go)
              (after_element-Decodes fuel count words idx parsed out
                (from.from_words_slice (drop idx words)) (no_panic (drop idx words)) more
                (λ v used.
                  decode-Decodes fuel count words (idx + used) (parsed + 1) (out ++ (v ∷ []))
                    (omega arith) pos)
                (decode-Decodes fuel count words (idx + 1) parsed out (omega arith) pos))
      ]

  -- For a decoder of at least one word whose reads do not panic, the loop of `read_words_as` ends
  -- for every list of words, with at most `count` elements.
  pub decode_all-Decodes :
      (count : ℕ) (words : List ℕ) → 1 ≤ from.words → Decodes count [] (decode_all from count words)
  unfolding decode_all
  decode_all-Decodes count words pos =
      let all : count - 0 ≡ count = omega arith in
      subst (λ n. Decodes n [] (decode from (suc (count + length words)) count words 0 0 [])) all
        (decode-Decodes (suc (count + length words)) count words 0 0 [] (omega arith) pos)
