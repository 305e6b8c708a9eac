-- ===== src/DbFormat/Keys.antt =====
-- AppendInternalKey and ParseInternalKey of db/dbformat.h and dbformat.cc, one after the other.
use terp_builder.Base.{ℕ, ◌+◌, ◌-◌, ◌*◌, ◌/◌, ◌%◌, ◌^◌, ◌≤◌, ◌<◌, ◌≡◌, refl, sym, ap, ◌∙◌}
use terp_builder.Base.{arith, Bool, Option, some, none, List, [], ◌∷◌, ◌++◌, length, take, drop}
use terp_builder.Base.{length-append, take-append, drop-append, take-append-drop, append-nil}
use terp_builder.Base.{
  bit_and, ltb, le→ltb, All-take, All-drop, length-drop, Bool-cases, inl, inr, ltb→lt, lt→ltb, ap₂,
}
use terp_builder.Base.Bits.{bit_or_comm, bit_or_disjoint, bit_and_ones_eight}
use terp_builder.Slice.{Slice}
use terp_builder.Coding.Fixed.{le_bytes, le_value, decode_fixed64, put_fixed64}
use terp_builder.Coding.Fixed.Portable.{encode_fixed64_le}
use terp_builder.Coding.Fixed.RoundTrip.{IsByte, decode_fixed64-encode_fixed64}
use terp_builder.Comparator.{IsBytes}
use terp_builder.DbFormat.{ParsedInternalKey, ValueType, deletion, value, type_code, value_type}
use terp_builder.DbFormat.{pack_sequence_and_type, append_internal_key, parse_internal_key}
use terp_builder.DbFormat.{
  extract_user_key, tag, typed, max_sequence_number, internal_key_encoding_length,
}

-- An internal key with user key u and number n.
unfoldable pub keyed : Slice → ℕ → Slice
keyed u n = u ++ le_bytes 8 n

pub pack_sum :
    (seq : ℕ) (t : ValueType)
    → seq < 2 ^ 56
    → pack_sequence_and_type seq t ≡ seq * 256 + type_code t
unfolding pack_sequence_and_type
pack_sum seq deletion h = ground (arith, bit_or_comm (seq * 2 ^ 8) 0, bit_or_disjoint 8 0 seq)
pack_sum seq value h = ground (arith, bit_or_comm (seq * 2 ^ 8) 1, bit_or_disjoint 8 1 seq)

pub length-keyed : (u : Slice) (n : ℕ) → length (keyed u n) ≡ length u + 8
unfolding keyed
length-keyed u n = length-append u (le_bytes 8 n)

pub front : (u : Slice) (n : ℕ) → take (length (keyed u n) - 8) (keyed u n) ≡ u
unfolding keyed
front u n =
    ap (λ k. take k (keyed u n)) (omega (arith, length-keyed u n)) ∙ take-append u (le_bytes 8 n)

pub back : (u : Slice) (n : ℕ) → drop (length (keyed u n) - 8) (keyed u n) ≡ le_bytes 8 n
unfolding keyed
back u n =
    ap (λ k. drop k (keyed u n)) (omega (arith, length-keyed u n)) ∙ drop-append u (le_bytes 8 n)

pub decode-le_bytes :
    (little : Bool) (n : ℕ) → n < 2 ^ 64 → decode_fixed64 little (le_bytes 8 n) ≡ some n
decode-le_bytes little n h =
    ap (λ l. decode_fixed64 little l)
      (sym (append-nil (le_bytes 8 n)) ∙ ap (λ l. l ++ []) (sym (encode_fixed64_le little n)))
    ∙ decode_fixed64-encode_fixed64 little n [] h

pub extract_user_key-keyed : (u : Slice) (n : ℕ) → extract_user_key (keyed u n) ≡ some u
unfolding extract_user_key
extract_user_key-keyed u n = ground (arith, front u n, length-keyed u n)

pub tag-keyed : (little : Bool) (u : Slice) (n : ℕ) → n < 2 ^ 64 → tag little (keyed u n) ≡ some n
unfolding tag
tag-keyed little u n h = ground (arith, back u n, length-keyed u n, decode-le_bytes little n h)

pub append_internal_key-keyed :
    (little : Bool) (key : ParsedInternalKey)
    → key.sequence < 2 ^ 56
    → append_internal_key little [] key
      ≡ keyed key.user_key (key.sequence * 256 + type_code key.type)
unfolding append_internal_key put_fixed64 keyed
append_internal_key-keyed little key h =
    ap (λ l. key.user_key ++ l)
      (encode_fixed64_le little _ ∙ ap (le_bytes 8) (pack_sum key.sequence key.type h))

value_type-code : (t : ValueType) → value_type (type_code t) ≡ some t
value_type-code deletion = refl
value_type-code value = refl

pub code_small : (t : ValueType) → type_code t < 256
code_small deletion = omega arith
code_small value = omega arith

parse-keyed :
    (little : Bool) (u : Slice) (n : ℕ)
    → n < 2 ^ 64
    → parse_internal_key little (keyed u n) ≡ typed u (n / 2 ^ 8) (value_type (n % 256))
unfolding parse_internal_key
parse-keyed little u n h =
    rw
      (
        le→ltb (length (keyed u n)) 8 (omega (arith, length-keyed u n)),
        front u n,
        back u n,
        decode-le_bytes little n h,
      )
      (ap (λ c. typed u (n / 2 ^ 8) (value_type c)) {x = bit_and n 255 % 256} {y = n % 256}
        (omega (arith, bit_and_ones_eight n)))

parse_internal_key-keyed :
    (little : Bool) (u : Slice) (seq : ℕ) (t : ValueType)
    → seq < 2 ^ 56
    → parse_internal_key little (keyed u (seq * 256 + type_code t))
      ≡ some (record { user_key = u; sequence = seq; type = t })
unfolding parse_internal_key
parse_internal_key-keyed little u seq t h =
    parse-keyed little u (seq * 256 + type_code t) (omega (arith, code_small t))
    ∙ ap (λ k. typed u k (value_type ((seq * 256 + type_code t) % 256))) {y = seq}
        (omega (arith, code_small t))
    ∙ ap (λ k. typed u seq (value_type k)) {x = (seq * 256 + type_code t) % 256} {y = type_code t}
        (omega (arith, code_small t))
    ∙ ap (typed u seq) (value_type-code t)

-- ParseInternalKey reads back every key that AppendInternalKey writes into an empty string, for a
-- sequence number of at most kMaxSequenceNumber, and the string is InternalKeyEncodingLength long.
pub parse_internal_key-append :
    (little : Bool) (key : ParsedInternalKey)
    → key.sequence ≤ max_sequence_number
    → (parse_internal_key little (append_internal_key little [] key) ≡ some key)
      × (length (append_internal_key little [] key) ≡ internal_key_encoding_length key)
parse_internal_key-append little key h = rw (append_internal_key-keyed little key (omega arith)) (
  parse_internal_key-keyed little key.user_key key.sequence key.type (omega arith),
  length-keyed key.user_key _,
)

-- Every string of at least eight bytes is an internal key of some user key and number.
eight : (t : List ℕ) → IsBytes t → length t ≡ 8 → (n : ℕ) × (t ≡ le_bytes 8 n) × (n < 2 ^ 64)
eight (a ∷ b ∷ c ∷ d ∷ e ∷ f ∷ g ∷ h ∷ []) bytes l =
    (le_value (a ∷ b ∷ c ∷ d ∷ e ∷ f ∷ g ∷ h ∷ []), ground arith, omega arith)
eight _ bytes l = absurd (omega arith)

pub as_keyed :
    (key : Slice)
    → IsBytes key
    → 8 ≤ length key
    → (u : Slice) × (n : ℕ) × (key ≡ keyed u n) × (n < 2 ^ 64) × IsBytes u
unfolding keyed
as_keyed key bytes l =
    let k = length key - 8 in
    let (n, e, small) =
      eight (drop k key) (All-drop IsByte k key bytes) (omega (arith, length-drop k key)) in
    (
      take k key,
      n,
      sym (take-append-drop k key) ∙ ap (λ t. take k key ++ t) e,
      small,
      All-take IsByte k key bytes,
    )

value_type-eq : (c : ℕ) (t : ValueType) → value_type c ≡ some t → c ≡ type_code t
value_type-eq c deletion h = ground arith
value_type-eq c value h = ground arith

value_type-none : (c : ℕ) → 1 < c → value_type c ≡ none
value_type-none c h = ground arith

typed_inv :
    (u : Slice) (seq : ℕ) (t : Option ValueType) (key : ParsedInternalKey)
    → typed u seq t ≡ some key
    → (t ≡ some key.type) × (key.user_key ≡ u) × (key.sequence ≡ seq)
unfolding typed
typed_inv u seq none key h = cc
typed_inv u seq (some t) key h = ground arith

-- ParseInternalKey answers false for a string of less than eight bytes, and for one whose number has
-- a low byte that is no value type.
pub parse_internal_key_short :
    (little : Bool) (key : Slice) → length key < 8 → parse_internal_key little key ≡ none
unfolding parse_internal_key
parse_internal_key_short little key h = rw (lt→ltb (length key) 8 h)

pub parse_internal_key_bad_type :
    (little : Bool) (u : Slice) (n : ℕ)
    → n < 2 ^ 64
    → 1 < n % 256
    → parse_internal_key little (keyed u n) ≡ none
unfolding typed
parse_internal_key_bad_type little u n h bad =
    parse-keyed little u n h ∙ ap (typed u (n / 2 ^ 8)) (value_type-none (n % 256) bad)

-- What ParseInternalKey accepts of a string of bytes is canonical: the sequence number is at most kMaxSequenceNumber, and
-- AppendInternalKey writes the same bytes again.
pub append_internal_key-parse :
    (little : Bool) (key : Slice) (parsed : ParsedInternalKey)
    → IsBytes key
    → parse_internal_key little key ≡ some parsed
    → (append_internal_key little [] parsed ≡ key) × (parsed.sequence ≤ max_sequence_number)
append_internal_key-parse little key parsed bytes h = elim (Bool-cases (ltb (length key) 8)) [
  | inl short ↦ cc (parse_internal_key_short little key (ltb→lt _ _ short))
  | inr long ↦
      let (u, n, e, small, _) = as_keyed key bytes (ground arith) in
      let (t, same, seq) =
        typed_inv u (n / 2 ^ 8) (value_type (n % 256)) parsed
          (sym (parse-keyed little u n small) ∙ ap (parse_internal_key little) (sym e) ∙ h) in
      (
        append_internal_key-keyed little parsed (omega arith)
            ∙ ap₂ keyed same (omega (arith, value_type-eq (n % 256) parsed.type t))
            ∙ sym e,
        omega arith,
      )
]
