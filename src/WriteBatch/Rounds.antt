-- ===== src/WriteBatch/Rounds.antt =====
-- The rounds of Iterate's loop.
use terp_builder.Base.{
  ◌+◌, ◌^◌, ◌<◌, ◌≡◌, ◌≢◌, refl, sym, ◌∙◌, ap, ap₂, arith, Option, none, some, inl, inr,
}
use terp_builder.Base.{List, [], ◌∷◌, ◌++◌, length, All, length-append, append_assoc, append-nil}
use terp_builder.Base.{◌==◌, Bool-cases}
use terp_builder.Base.Consume.{Round, done, again, run, Shrinks, done_inj, run-again, run-done}
use Prim.Native.String.{String}
use terp_builder.Slice.{Slice}
use terp_builder.Status.{ok, corrupt, corrupt-ok}
use terp_builder.Coding.Prefixed.{put_length_prefixed_slice, get_length_prefixed_slice}
use terp_builder.Coding.Prefixed.RoundTrip.{get_length_prefixed_slice-put}
use terp_builder.Coding.Shrinks.{get_length_prefixed_slice-shrinks}
use terp_builder.WriteBatch.{Op, put, delete, Reading, Ended, found_in_all, returned}
use terp_builder.WriteBatch.{read_record, read_put, read_value, read_delete}
use terp_builder.WriteBatch.Layout.{op_record, records}

-- The lengths of the slices fit 32 bits.
abbrev pub Fits : Op → Type 0
Fits (put k v) = (length k < 2 ^ 32) × (length v < 2 ^ 32)
Fits (delete k) = length k < 2 ^ 32

abbrev pub with_call : Reading → Op → Reading
with_call r op = record { calls = r.calls ++ (op ∷ []); found = r.found + 1 }

pub read_record-op :
    (r : Reading) (op : Op) (rest : Slice)
    → Fits op
    → read_record r (op_record op ++ rest) ≡ again (with_call r op) rest
unfolding read_record
read_record-op r (put k v) rest (hk, hv) =
    ap (λ l. read_put r (get_length_prefixed_slice l))
      (append_assoc (put_length_prefixed_slice [] k) (put_length_prefixed_slice [] v) rest)
    ∙ ap (read_put r)
        ((get_length_prefixed_slice-put k (put_length_prefixed_slice [] v ++ rest) hk).0)
    ∙ ap (read_value r k) ((get_length_prefixed_slice-put v rest hv).0)
read_record-op r (delete k) rest hk =
    ap (read_delete r) ((get_length_prefixed_slice-put k rest hk).0)

pub value_left :
    (r r' : Reading) (key : Slice) (q : Option Slice × Slice) (rest : Slice)
    → read_value r key q ≡ again r' rest
    → (s : Slice) × (q ≡ (some s, rest)) × (r' ≡ with_call r (put key s))
value_left r r' key (none, p) rest e = absurd (cc)
value_left r r' key (some s, p) rest e = (s, cc, cc)

pub put_left :
    (r r' : Reading) (q : Option Slice × Slice) (rest : Slice)
    → read_put r q ≡ again r' rest
    → (op : Op) × (s : Slice) × (q ≡ (some s, q.1))
      × (length rest < length q.1)
      × (r' ≡ with_call r op)
put_left r r' (none, p) rest e = absurd (cc)
put_left r r' (some key, p) rest e =
    let (v, e', w) = value_left r r' key (get_length_prefixed_slice p) rest e in
    (put key v, key, refl, get_length_prefixed_slice-shrinks p v rest e', w)

pub delete_left :
    (r r' : Reading) (q : Option Slice × Slice) (rest : Slice)
    → read_delete r q ≡ again r' rest
    → (s : Slice) × (q ≡ (some s, rest)) × (r' ≡ with_call r (delete s))
delete_left r r' (none, p) rest e = absurd (cc)
delete_left r r' (some s, p) rest e = (s, cc, cc)

-- A round that goes on made one call, and left less of the input.
pub read_record-again :
    (r r' : Reading) (input rest : Slice)
    → read_record r input ≡ again r' rest
    → (op : Op) × (r' ≡ with_call r op) × (length rest < length input)
unfolding read_record
read_record-again r r' [] rest e = absurd (cc)
read_record-again r r' (tag ∷ input) rest e = elim (Bool-cases (tag == 1)) [
  | inl is_put ↦
      let (op, s, o, less, w) =
        put_left r r' (get_length_prefixed_slice input) rest (ground (arith, is_put)) in
      let fewer = get_length_prefixed_slice-shrinks input s _ o in (op, w, omega (arith, fewer))
  | inr other ↦ elim (Bool-cases (tag == 0)) [
    | inl is_delete ↦
        let (s, e', w) =
          delete_left r r' (get_length_prefixed_slice input) rest (ground (arith, is_delete)) in
        (delete s, w, omega (arith, get_length_prefixed_slice-shrinks input s rest e'))
    | inr unknown ↦ absurd (ground (arith))
  ]
]

pub read_record-Shrinks : Shrinks read_record
read_record-Shrinks r r' input rest e = (read_record-again r r' input rest e).2

pub run-records :
    (ops : List Op) (r : Reading)
    → All Fits ops
    → run read_record r (records ops) ≡ some (r.calls ++ ops, found_in_all (r.found + length ops))
unfolding read_record
run-records [] r h =
    run-done read_record r [] (r.calls, found_in_all r.found) refl
    ∙ ap₂ (λ calls n. some (calls, found_in_all n)) (sym (append-nil r.calls)) (omega arith)
run-records (op ∷ ops) r (h, hs) =
    run-again read_record read_record-Shrinks r (with_call r op) (op_record op ++ records ops)
      (records ops) (read_record-op r op (records ops) h)
    ∙ run-records ops (with_call r op) hs
    ∙ ap₂ (λ calls n. some (calls, found_in_all n)) (append_assoc r.calls (op ∷ []) ops)
        (omega arith)

abbrev pub start : Reading
start = record { calls = []; found = 0 }

-- Every round that goes on adds one to both.
unfoldable pub Counts : Reading → Type 0
Counts r = r.found ≡ length r.calls

unfoldable pub Tallies : List Op × Ended → Type 0
Tallies (calls, returned s) = s ≢ ok
Tallies (calls, found_in_all n) = n ≡ length calls

pub keeps-Counts :
    (r r' : Reading) (input rest : Slice)
    → Counts r
    → read_record r input ≡ again r' rest
    → Counts r'
unfolding Counts
keeps-Counts r r' input rest h e =
    let (op, w, _) = read_record-again r r' input rest e in
    rw w (omega (arith, h, length-append r.calls (op ∷ [])))

pub bad-Tallies :
    (r : Reading) (msg : String) (x : List Op × Ended)
    → ◌≡◌ {A = Round Reading (List Op × Ended)} (done (r.calls, returned (corrupt msg))) (done x)
    → Tallies x
unfolding Tallies
bad-Tallies r msg x e = rw (← done_inj e) (corrupt-ok msg)

pub value-Tallies :
    (r : Reading) (key : Slice) (q : Option Slice × Slice) (x : List Op × Ended)
    → read_value r key q ≡ done x
    → Tallies x
value-Tallies r key (none, p) x e = bad-Tallies r "bad WriteBatch Put" x e
value-Tallies r key (some v, p) x e = absurd (cc)

pub put-Tallies :
    (r : Reading) (q : Option Slice × Slice) (x : List Op × Ended)
    → read_put r q ≡ done x
    → Tallies x
put-Tallies r (none, p) x e = bad-Tallies r "bad WriteBatch Put" x e
put-Tallies r (some key, p) x e = value-Tallies r key (get_length_prefixed_slice p) x e

pub delete-Tallies :
    (r : Reading) (q : Option Slice × Slice) (x : List Op × Ended)
    → read_delete r q ≡ done x
    → Tallies x
delete-Tallies r (none, p) x e = bad-Tallies r "bad WriteBatch Delete" x e
delete-Tallies r (some key, p) x e = absurd (cc)

pub read_record-Tallies :
    (r : Reading) (input : Slice) (x : List Op × Ended)
    → Counts r
    → read_record r input ≡ done x
    → Tallies x
unfolding read_record Counts Tallies
read_record-Tallies r [] x h e = rw (← done_inj e) h
read_record-Tallies r (tag ∷ input) x h e = elim (Bool-cases (tag == 1)) [
  | inl is_put ↦ put-Tallies r (get_length_prefixed_slice input) x (ground (arith, is_put))
  | inr other ↦ elim (Bool-cases (tag == 0)) [
    | inl is_delete ↦
        delete-Tallies r (get_length_prefixed_slice input) x (ground (arith, is_delete))
    | inr unknown ↦ bad-Tallies r "unknown WriteBatch tag" x (ground arith)
  ]
]
