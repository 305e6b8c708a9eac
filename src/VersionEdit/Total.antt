-- ===== src/VersionEdit/Total.antt =====
-- The loop of DecodeFrom on any string.
use Prim.Native.String.{String}
use native.Mathlib.Nat.{le_of_lt}
use terp_builder.Base.{
  if-both, ℕ, ◌≤◌, ◌<◌, ◌≡◌, refl, ap, arith, Bool, Option, none, some, inl, inr,
}
use terp_builder.Base.{[], ◌∷◌, length}
use terp_builder.Base.{ltb, ◌==◌, if◌then◌else◌, Bool-cases}
use terp_builder.Base.Consume.{again, Shrinks, again-rest, run_total}
use terp_builder.Slice.{Slice}
use terp_builder.Status.{Status}
use terp_builder.Coding.Varint.{get_varint32, get_varint64}
use terp_builder.Coding.Prefixed.{get_length_prefixed_slice}
use terp_builder.Coding.Shrinks.{
  get_length_prefixed_slice-shrinks, get_varint32-shrinks, get_varint64-shrinks,
}
use terp_builder.VersionEdit.{VersionEdit, Parsed, clear, decode_from, decode_step, decode_field}
use terp_builder.VersionEdit.{
  set_comparator_name, set_log_number, set_prev_log_number, set_next_file, set_last_sequence,
  set_compact_pointer, delete_file,
}
use terp_builder.VersionEdit.{
  decode_new_file, decode_pointer, decode_deleted, got, failed, get_level, tagged, within,
  num_levels,
}

-- A field that is read goes on with what its reading left.
got_left :
    {A : Type 0} (e e' : VersionEdit) (msg : String) (next : A → Slice → Parsed)
    (q : Option A × Slice) (rest : Slice)
    → got e msg next q ≡ again e' rest
    → (a : A) × (q ≡ (some a, q.1)) × (next a q.1 ≡ again e' rest)
unfolding failed
got_left e e' msg next (none, p) rest h = absurd (cc)
got_left e e' msg next (some a, p) rest h = (a, refl, h)

within_left :
    (q : Option ℕ × Slice) (v : ℕ) (rest : Slice) → within q ≡ (some v, rest) → q ≡ (some v, rest)
within_left (none, p) v rest h = absurd (cc)
within_left (some w, p) v rest h = elim (Bool-cases (ltb w num_levels)) [
  | inl small ↦ rw small at h
  | inr large ↦ absurd (ground (arith, large))
]

get_level-shrinks :
    (input : Slice) (v : ℕ) (rest : Slice)
    → get_level input ≡ (some v, rest)
    → length rest < length input
unfolding get_level
get_level-shrinks input v rest h =
    get_varint32-shrinks input v rest (within_left (get_varint32 input) v rest h)

got-shrinks :
    {A : Type 0} (get : Slice → Option A × Slice) (e : VersionEdit) (msg : String)
    (next : A → Slice → Parsed)
    → ((input : Slice) (a : A) (rest : Slice)
        → get input ≡ (some a, rest)
        → length rest < length input)
    → ((a : A) (p : Slice) (e' : VersionEdit) (rest : Slice)
        → next a p ≡ again e' rest
        → length rest ≤ length p)
    → (input : Slice) (e' : VersionEdit) (rest : Slice) → got e msg next (get input) ≡ again e' rest
    → length rest < length input
got-shrinks get e msg next shrinks later input e' rest h =
    let (a, o, g) = got_left e e' msg next (get input) rest h in
    let less = shrinks input a (get input).1 o in
    let fewer = later a (get input).1 e' rest g in omega (arith, less, fewer)

-- The last field of an entry.
at_end :
    {A : Type 0} (next : A → VersionEdit) (a : A) (p : Slice) (e' : VersionEdit) (rest : Slice)
    → ◌≡◌ {A = Parsed} (again (next a) p) (again e' rest)
    → length rest ≤ length p
at_end next a p e' rest h = omega (arith, ap length (again-rest h))

number-shrinks :
    (e : VersionEdit) (msg : String) (next : ℕ → VersionEdit) (input : Slice) (e' : VersionEdit)
    (rest : Slice)
    → got e msg (λ n. again (next n)) (get_varint64 input) ≡ again e' rest
    → length rest < length input
number-shrinks e msg next =
    got-shrinks get_varint64 e msg (λ n. again (next n)) get_varint64-shrinks (at_end next)

slice-shrinks :
    (e : VersionEdit) (msg : String) (next : Slice → VersionEdit) (input : Slice) (e' : VersionEdit)
    (rest : Slice)
    → got e msg (λ n. again (next n)) (get_length_prefixed_slice input) ≡ again e' rest
    → length rest < length input
slice-shrinks e msg next =
    got-shrinks get_length_prefixed_slice e msg (λ n. again (next n))
      get_length_prefixed_slice-shrinks (at_end next)

decode_new_file-shrinks :
    (e : VersionEdit) (input : Slice) (e' : VersionEdit) (rest : Slice)
    → decode_new_file e input ≡ again e' rest
    → length rest < length input
unfolding decode_new_file
decode_new_file-shrinks e =
    got-shrinks get_level e "new-file entry" _ get_level-shrinks (λ level r1 f1 s1 h1. le_of_lt (
      got-shrinks get_varint64 e "new-file entry" _ get_varint64-shrinks
        (λ number r2 f2 s2 h2. le_of_lt (
          got-shrinks get_varint64 e "new-file entry" _ get_varint64-shrinks
            (λ size r3 f3 s3 h3. le_of_lt (
              got-shrinks get_length_prefixed_slice e "new-file entry" _
                get_length_prefixed_slice-shrinks
                (λ smallest r4 f4 s4 h4. le_of_lt (slice-shrinks e "new-file entry" _ r4 f4 s4 h4))
                r3 f3 s3 h3))
            r2 f2 s2 h2))
        r1 f1 s1 h1))

-- A round that goes on from a shorter input.
abbrev Less : Slice → Parsed → Type 0
Less input r = (e' : VersionEdit) (rest : Slice) → r ≡ again e' rest → length rest < length input

failed-Less : (e : VersionEdit) (msg : String) (input : Slice) → Less input (failed e msg)
unfolding failed
failed-Less e msg input f s h = absurd (cc)

decode_pointer-shrinks : (e : VersionEdit) (input : Slice) → Less input (decode_pointer e input)
unfolding decode_pointer
decode_pointer-shrinks e =
    got-shrinks get_level e "compaction pointer" _ get_level-shrinks (λ level p f s h.
      le_of_lt
        (slice-shrinks e "compaction pointer" (λ key. set_compact_pointer level key e) p f s h))

decode_deleted-shrinks : (e : VersionEdit) (input : Slice) → Less input (decode_deleted e input)
unfolding decode_deleted
decode_deleted-shrinks e =
    got-shrinks get_level e "deleted file" _ get_level-shrinks (λ level p f s h.
      le_of_lt (number-shrinks e "deleted file" (λ number. delete_file level number e) p f s h))

decode_field-shrinks :
    (e : VersionEdit) (tag : ℕ) (input : Slice) → Less input (decode_field e tag input)
unfolding decode_field
decode_field-shrinks e tag input =
    choose (tag == 1) (slice-shrinks e "comparator name" (λ s. set_comparator_name s e) input) (
      choose (tag == 2) (number-shrinks e "log number" (λ n. set_log_number n e) input) (
        choose (tag == 9)
          (number-shrinks e "previous log number" (λ n. set_prev_log_number n e) input)
          (choose (tag == 3) (number-shrinks e "next file number" (λ n. set_next_file n e) input) (
            choose (tag == 4)
              (number-shrinks e "last sequence number" (λ n. set_last_sequence n e) input)
              (choose (tag == 5) (decode_pointer-shrinks e input) (
                choose (tag == 6) (decode_deleted-shrinks e input) (
                  choose (tag == 7) (decode_new_file-shrinks e input)
                    (failed-Less e "unknown tag" input))))))))
  where
    choose :
        (b : Bool) {x y : Parsed} → Less input x → Less input y → Less input (if b then x else y)
    choose b {x} {y} p q = if-both (Less input) b x y p q

tagged-shrinks :
    (e e' : VersionEdit) (q : Option ℕ × Slice) (rest : Slice)
    → tagged e q ≡ again e' rest
    → (tag : ℕ) × (q ≡ (some tag, q.1)) × (length rest < length q.1)
unfolding failed
tagged-shrinks e e' (none, []) rest h = absurd (cc)
tagged-shrinks e e' (none, b ∷ p) rest h = absurd (cc)
tagged-shrinks e e' (some tag, p) rest h = (tag, refl, decode_field-shrinks e tag p e' rest h)

pub decode_step-Shrinks : Shrinks decode_step
unfolding decode_step
decode_step-Shrinks e e' input rest h =
    let (tag, o, less) = tagged-shrinks e e' (get_varint32 input) rest h in
    omega (arith, get_varint32-shrinks input tag _ o)

-- DecodeFrom returns on every string: its loop takes at least one byte a round.
pub decode_from_total :
    (src : Slice) (e : VersionEdit) → (r : VersionEdit × Status) × (decode_from src e ≡ some r)
unfolding decode_from
decode_from_total src e = run_total decode_step decode_step-Shrinks (clear e) src
