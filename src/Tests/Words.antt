-- ===== src/Tests/Words.antt =====
-- The encodings' theorems at small words.
use terp_builder.Base.{ℕ, ◌*◌, ◌≡◌, refl, arith}
use terp_builder.Base.{none, some, List, [], ◌∷◌, ◌++◌, length, ltb, if◌then◌else◌}
use terp_builder.Coding.Varint.{put_varint64, get_varint64}
use terp_builder.Coding.Varint.RoundTrip.{get_varint64-put_varint64}
use terp_builder.Base.Text.{bytes}
use terp_builder.Base64.{ntop, pton, digit}
use terp_builder.Base64.Encode.{base64_text, quads, ntop-encoded, ntop_lem}
use terp_builder.Base64.Decode.{pton-ntop}

get_varint64-put_varint64_example :
    get_varint64 (put_varint64 [] 300 ++ (9 ∷ [])) ≡ (some 300, 9 ∷ [])
get_varint64-put_varint64_example = get_varint64-put_varint64 300 (9 ∷ []) (omega arith)

abbrev input : List ℕ
input = 172 ∷ 2 ∷ 9 ∷ []

ntop_lem_example :
    (ntop (77 ∷ 97 ∷ []) 5
      ≡ (if ltb (4 * quads 2) 5 then some (base64_text (77 ∷ 97 ∷ [])) else none))
    × (length (base64_text (77 ∷ 97 ∷ [])) ≡ 4 * quads 2)
ntop_lem_example = ntop_lem (77 ∷ 97 ∷ []) 5 (omega arith, (omega arith, tt))

-- Two bytes, their text, and a buffer of three bytes.
pton-ntop_example :
    (behind : List ℕ) × (state : ℕ) × (pton (bytes "TWE=") (some (9 ∷ 9 ∷ 9 ∷ [])) 3
      ≡ some (record { target = some (77 ∷ 97 ∷ behind); tarindex = 2; state = state }))
unfolding digit
pton-ntop_example =
    pton-ntop (77 ∷ 97 ∷ []) (bytes "TWE=") (9 ∷ 9 ∷ 9 ∷ []) 5 3 (omega arith, (omega arith, tt))
      (rw (ntop-encoded (77 ∷ 97 ∷ []) 5) refl) (omega arith) (omega arith)
