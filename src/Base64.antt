-- ===== src/Base64.antt =====
-- Terp_Builder/Pods/FirebaseDatabase/FirebaseDatabase/Sources/third_party/SocketRocket/fbase64.c:
-- f_b64_ntop and f_b64_pton, which the web socket's handshake uses.
-- `none` is the return value -1. A C string is the list of its characters before the '\0'.
pub mod Table
pub mod Encode
pub mod Decode
use terp_builder.Base.{
  ℕ, suc, ◌+◌, ◌*◌, ◌/◌, ◌%◌, Bool, true, false, ◌||◌, ◌&&◌, Option, none, some,
}
use terp_builder.Base.{List, [], ◌∷◌, ◌++◌, length, get_or, set, bit_and, bit_or, ltb, leb, ◌==◌}
use terp_builder.Base.{if◌then◌else◌, ◌>>=◌}
use terp_builder.Base.Text.{bytes}

abbrev pub base64 : List ℕ
base64 = bytes "ABCDEFGHIJKLMNOPQRSTUVWXYZabcdefghijklmnopqrstuvwxyz0123456789+/"

abbrev pub pad64 : ℕ
pad64 = b'='

-- `Base64[i]`
unfoldable pub digit : ℕ → ℕ
digit i = get_or base64 i 0

-- The four values of `output` for three bytes of `input`.
abbrev pub output0 : ℕ → ℕ
output0 a = a / 4

abbrev pub output1 : ℕ → ℕ → ℕ
output1 a b = (bit_and a 0x03 * 16 % 256 + b / 16) % 256

abbrev pub output2 : ℕ → ℕ → ℕ
output2 b c = (bit_and b 0x0f * 4 % 256 + c / 64) % 256

abbrev pub output3 : ℕ → ℕ
output3 c = bit_and c 0x3f

-- The end of f_b64_ntop: room for the '\0'.
terminated : ℕ → List ℕ → Option (List ℕ)
terminated targsize target = if leb targsize (length target) then none else some target

-- `target` is what is written so far, and datalength its length; `some` has the string that is
-- returned in target without its '\0', whose length is the returned number.
unfoldable pub ntop_loop : ℕ → List ℕ → List ℕ → Option (List ℕ)
unfolding terminated
ntop_loop targsize [] target = terminated targsize target
ntop_loop targsize (a ∷ []) target =
    if ltb targsize (length target + 4)
    then none
    else terminated targsize
        (target ++ (digit (output0 a) ∷ digit (output1 a 0) ∷ pad64 ∷ pad64 ∷ []))
ntop_loop targsize (a ∷ b ∷ []) target =
    if ltb targsize (length target + 4)
    then none
    else terminated targsize
        (target ++ (digit (output0 a) ∷ digit (output1 a b) ∷ digit (output2 b 0) ∷ pad64 ∷ []))
ntop_loop targsize (a ∷ b ∷ c ∷ src) target =
    let rest = ntop_loop targsize src (
      target
      ++ (digit (output0 a)
          ∷ digit (output1 a b)
          ∷ digit (output2 b c)
          ∷ digit (output3 c)
          ∷ [])) in
    if ltb targsize (length target + 4) then none else rest

pub ntop : List ℕ → ℕ → Option (List ℕ)
ntop src targsize = ntop_loop targsize src []

-- isspace in the C locale
is_space : ℕ → Bool
is_space ch = ch == 32 || leb 9 ch && leb ch 13

-- `strchr(Base64, ch) - Base64`
position : List ℕ → ℕ → Option ℕ
position [] ch = none
position (c ∷ cs) ch =
    let rest = position cs ch in
    if c == ch then some 0 else elim rest [ none ↦ none | some i ↦ some (suc i) ]

-- The variables of f_b64_pton. `target` is none for a null pointer; its first targsize bytes may be
-- written.
pub record Decoder : Type 0 where
  pub target : Option (List ℕ)
  pub tarindex : ℕ
  pub state : ℕ

-- `if (target) { if (index >= targsize) return -1; … }`; `write` makes the stores.
abbrev guarded : ℕ → ℕ → (List ℕ → List ℕ) → Option (List ℕ) → Option (Option (List ℕ))
guarded targsize index write none = some none
guarded targsize index write (some t) = if leb targsize index then none else some (some (write t))

-- `target[i] |= v`
abbrev or_at : ℕ → ℕ → List ℕ → List ℕ
or_at i v t = set t i (bit_or (get_or t i 0) v % 256)

-- The switch of the main loop, for a character at `pos` in the table.
unfoldable pub step : ℕ → ℕ → Decoder → Option Decoder
step targsize pos d =
    if d.state == 0
    then (do
      t ← guarded targsize i (λ t. set t i (pos * 4 % 256)) d.target
      some (record { target = t; tarindex = i; state = 1 }))
    else if d.state == 1
    then (do
      t ←
          guarded targsize (i + 1)
            (λ t. set (or_at i (pos / 16) t) (i + 1) (bit_and pos 0x0f * 16 % 256)) d.target
      some (record { target = t; tarindex = i + 1; state = 2 }))
    else if d.state == 2
    then (do
      t ←
          guarded targsize (i + 1)
            (λ t. set (or_at i (pos / 4) t) (i + 1) (bit_and pos 0x03 * 64 % 256)) d.target
      some (record { target = t; tarindex = i + 1; state = 3 }))
    else (do
      t ← guarded targsize i (or_at i pos) d.target
      some (record { target = t; tarindex = i + 1; state = 0 }))
  where
    i : ℕ
    i = d.tarindex

-- Nothing but spaces may follow the padding.
only_spaces : List ℕ → Bool
only_spaces [] = true
only_spaces (ch ∷ src) = is_space ch && only_spaces src

-- Case 3: nothing else follows, and the bits that slopped past the last full byte are zero.
abbrev slopped : Decoder → Option (List ℕ) → Bool
slopped d none = false
slopped d (some t) = ltb 0 (get_or t d.tarindex 0)

after_padding : List ℕ → Decoder → Option Decoder
after_padding src d =
    if only_spaces src then (if slopped d d.target then none else some d) else none

-- Case 2: any spaces, and another `=`.
second_padding : List ℕ → Decoder → Option Decoder
unfolding after_padding only_spaces
second_padding [] d = none
second_padding (ch ∷ src) d =
    let later = second_padding src d in
    if is_space ch then later else if ch == pad64 then after_padding src d else none

-- The switch after a first `=`; `src` is what follows it.
padded : List ℕ → Decoder → Option Decoder
unfolding second_padding
padded src d =
    if leb d.state 1
    then none
    else if d.state == 2
    then second_padding src d
    else after_padding src d

abbrev at_position : ℕ → Decoder → (Decoder → Option Decoder) → Option ℕ → Option Decoder
at_position targsize d go none = none
at_position targsize d go (some pos) = step targsize pos d >>= go

unfoldable pub pton_loop : ℕ → List ℕ → Decoder → Option Decoder
unfolding padded position is_space step
pton_loop targsize [] d = if d.state == 0 then some d else none
pton_loop targsize (ch ∷ src) d =
    let go = pton_loop targsize src in
    if is_space ch
    then go d
    else if ch == pad64
    then padded src d
    else at_position targsize d go (position base64 ch)

pub pton : List ℕ → Option (List ℕ) → ℕ → Option Decoder
pton src target targsize =
    pton_loop targsize src (record { target = target; tarindex = 0; state = 0 })
