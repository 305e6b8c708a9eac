-- ===== src/WriteBatch.antt =====
-- Terp_Builder/Pods/leveldb-library/db/write_batch.cc, db/write_batch_internal.h and include/leveldb/write_batch.h: a batch of
-- updates in one string, rep_. `little` is port::kLittleEndian. An int is its 32-bit word. A read
-- past the string is `none`.
pub mod Layout
pub mod Rounds
pub mod Iterate
use terp_builder.Base.{ℕ, ◌+◌, ◌%◌, ◌^◌, Bool, Option, none, some}
use terp_builder.Base.{
  List, [], ◌∷◌, ◌++◌, length, take, drop, ltb, leb, ◌==◌, if◌then◌else◌, ◌>>=◌,
}
use terp_builder.Base.Consume.{Round, done, again, run}
use terp_builder.Slice.{Slice}
use terp_builder.Status.{Status, ok, corrupt}
use terp_builder.DbFormat.{ValueType, deletion, value, type_code}
use terp_builder.Coding.Fixed.{encode_fixed32, encode_fixed64, decode_fixed32, decode_fixed64}
use terp_builder.Coding.Prefixed.{put_length_prefixed_slice, get_length_prefixed_slice}

abbrev pub header_size : ℕ
header_size = 12

-- A call of the handler's Put or Delete.
pub data Op : Type 0 where
  put : Slice → Slice → Op
  delete : Slice → Op

-- How the loop of Iterate ends: by a return, or with the value of `found`; and the calls made.
pub data Ended : Type 0 where
  returned : Status → Ended
  found_in_all : ℕ → Ended

-- The calls so far, and `found`.
pub record Reading : Type 0 where
  pub calls : List Op
  pub found : ℕ

abbrev Outcome : Type 0
Outcome = Round Reading (List Op × Ended)

abbrev bad : Reading → Status → Outcome
bad r s = done (r.calls, returned s)

abbrev called : Reading → Op → Slice → Outcome
called r op input = again (record { calls = r.calls ++ (op ∷ []); found = r.found + 1 }) input

abbrev pub read_value : Reading → Slice → Option Slice × Slice → Outcome
read_value r key (none, input) = bad r (corrupt "bad WriteBatch Put")
read_value r key (some v, input) = called r (put key v) input

abbrev pub read_put : Reading → Option Slice × Slice → Outcome
read_put r (none, input) = bad r (corrupt "bad WriteBatch Put")
read_put r (some key, input) = read_value r key (get_length_prefixed_slice input)

abbrev pub read_delete : Reading → Option Slice × Slice → Outcome
read_delete r (none, input) = bad r (corrupt "bad WriteBatch Delete")
read_delete r (some key, input) = called r (delete key) input

-- One round of the loop.
unfoldable pub read_record : Reading → Slice → Outcome
read_record r [] = done (r.calls, found_in_all r.found)
read_record r (tag ∷ input) =
    if tag == 1
    then read_put r (get_length_prefixed_slice input)
    else if tag == 0
    then read_delete r (get_length_prefixed_slice input)
    else bad r (corrupt "unknown WriteBatch tag")

module _ (little : Bool) where
  unfoldable pub count : Slice → Option ℕ
  count rep = decode_fixed32 little (drop 8 rep)

  unfoldable pub set_count : ℕ → Slice → Slice
  set_count n rep = take 8 rep ++ (encode_fixed32 little (n % 2 ^ 32) ++ drop header_size rep)

  unfoldable pub sequence : Slice → Option ℕ
  sequence rep = decode_fixed64 little rep

  unfoldable pub set_sequence : ℕ → Slice → Slice
  set_sequence seq rep = encode_fixed64 little seq ++ drop 8 rep

  -- `Put`, on rep_
  unfoldable pub put_op : Slice → Slice → Slice → Option Slice
  put_op key v rep = do
    n ← count rep
    some (
        put_length_prefixed_slice
          (put_length_prefixed_slice (set_count (n + 1) rep ++ (type_code value ∷ [])) key) v)

  unfoldable pub delete_op : Slice → Slice → Option Slice
  delete_op key rep = do
    n ← count rep
    some (put_length_prefixed_slice (set_count (n + 1) rep ++ (type_code deletion ∷ [])) key)

  -- `Append(dst, src)`
  unfoldable pub append : Slice → Slice → Option Slice
  append dst src = do
    n ← count dst
    m ← count src
    (if leb header_size (length src)
        then some (set_count (n + m) dst ++ drop header_size src)
        else none)

  -- The end of Iterate: the test on `found`.
  abbrev pub counted : Slice → List Op × Ended → Option (List Op × Status)
  counted rep (calls, returned s) = some (calls, s)
  counted rep (calls, found_in_all found) = do
    n ← count rep
    some (calls, if found % 2 ^ 32 == n then ok else corrupt "WriteBatch has wrong count")

  -- `Iterate`: the handler's calls in their order, and the returned status.
  unfoldable pub iterate : Slice → Option (List Op × Status)
  iterate rep =
      if ltb (length rep) header_size
      then some ([], corrupt "malformed WriteBatch (too small)")
      else (run read_record (record { calls = []; found = 0 }) (drop header_size rep)
          >>= counted rep)

-- What MemTable::Add is called with.
pub record Addition : Type 0 where
  pub number : ℕ
  pub type : ValueType
  pub key : Slice
  pub content : Slice

-- MemTableInserter, called for each operation in turn: sequence_ goes up by one.
unfoldable pub insert : ℕ → List Op → List Addition
insert n [] = []
insert n (put k v ∷ ops) =
    record { number = n; type = value; key = k; content = v } ∷ insert ((n + 1) % 2 ^ 64) ops
insert n (delete k ∷ ops) =
    record { number = n; type = deletion; key = k; content = [] } ∷ insert ((n + 1) % 2 ^ 64) ops

unfoldable pub insert_into : Bool → Slice → Option (List Addition × Status)
insert_into little rep = do
  n ← sequence little rep
  (calls, s) ← iterate little rep
  some (insert n calls, s)

-- `Clear`, which the constructor calls.
abbrev pub cleared : Slice
cleared = 0 ∷ 0 ∷ 0 ∷ 0 ∷ 0 ∷ 0 ∷ 0 ∷ 0 ∷ 0 ∷ 0 ∷ 0 ∷ 0 ∷ []

unfoldable pub set_contents : Slice → Option Slice
set_contents contents = if leb header_size (length contents) then some contents else none
