-- ===== src/Cache.antt =====
-- Terp_Builder/Pods/leveldb-library/util/cache.cc: HandleTable, the hash table of the cache. A bucket, linked by next_hash, is
-- the list of its handles.
pub mod Buckets
pub mod Moving
pub mod Table
use terp_builder.Base.{ℕ, zero, suc, ◌+◌, ◌-◌, ◌*◌, ◌%◌, ◌^◌, Bool, ◌&&◌, Option, none, some}
use terp_builder.Base.{List, [], ◌∷◌, length, get_or, set, bit_and, ltb, ◌==◌, if◌then◌else◌, ◌>>=◌}
use terp_builder.Slice.{Slice, equals}

-- LRUHandle, as far as the table reads it, and the address of the entry.
pub record Handle : Type 0 where
  pub key : Slice
  pub hash : ℕ
  pub entry : ℕ

pub record HandleTable : Type 0 where
  pub table_length : ℕ
  pub elems : ℕ
  pub buckets : List (List Handle)

abbrev pub matches : Slice → ℕ → Handle → Bool
matches key hash h = (h.hash == hash) && equals key h.key

-- What FindPointer's slot points at.
abbrev pub find_pointer : Slice → ℕ → List Handle → Option Handle
find_pointer key hash [] = none
find_pointer key hash (h ∷ bucket) =
    let rest = find_pointer key hash bucket in if matches key hash h then some h else rest

-- A handle put into the slot, in place of the one there.
abbrev pub put : Handle → List Handle → List Handle
put h [] = h ∷ []
put h (old ∷ bucket) =
    let rest = put h bucket in if matches h.key h.hash old then h ∷ bucket else old ∷ rest

-- The slot set to what follows the handle there.
abbrev pub take_out : Slice → ℕ → List Handle → List Handle
take_out key hash [] = []
take_out key hash (h ∷ bucket) =
    let rest = take_out key hash bucket in if matches key hash h then bucket else h ∷ rest

abbrev pub slot : ℕ → ℕ → ℕ
slot table_length hash = bit_and hash (table_length - 1)

abbrev pub bucket_at : List (List Handle) → ℕ → List Handle
bucket_at buckets i = get_or buckets i []

unfoldable pub lookup : Slice → ℕ → HandleTable → Option Handle
lookup key hash t = find_pointer key hash (bucket_at t.buckets (slot t.table_length hash))

abbrev pub empty_buckets : ℕ → List (List Handle)
empty_buckets zero = []
empty_buckets (suc n) = [] ∷ empty_buckets n

-- The doubling in Resize; `none` where the fuel runs out.
unfoldable pub new_length : ℕ → ℕ → ℕ → Option ℕ
new_length zero n elems = none
new_length (suc fuel) n elems =
    let more = new_length fuel (n * 2 % 2 ^ 32) elems in if ltb n elems then more else some n

abbrev pub push : ℕ → List (List Handle) → Handle → List (List Handle)
push n buckets h = set buckets (slot n h.hash) (h ∷ bucket_at buckets (slot n h.hash))

abbrev pub move_bucket : ℕ → List (List Handle) → List Handle → List (List Handle)
move_bucket n new [] = new
move_bucket n new (h ∷ bucket) = move_bucket n (push n new h) bucket

abbrev pub move_all : ℕ → List (List Handle) → List (List Handle) → List (List Handle)
move_all n new [] = new
move_all n new (bucket ∷ buckets) = move_all n (move_bucket n new bucket) buckets

abbrev pub count : List (List Handle) → ℕ
count [] = 0
count (bucket ∷ buckets) = length bucket + count buckets

-- `none` is also that the assertion on the count fails.
unfoldable pub resize : HandleTable → Option HandleTable
resize t = new_length 33 4 t.elems >>= λ n.
    (if t.elems == count t.buckets % 2 ^ 32
      then some (record t { table_length = n; buckets = move_all n (empty_buckets n) t.buckets })
      else none)

-- The constructor calls Resize on a table of no buckets.
unfoldable pub handle_table : Option HandleTable
handle_table = resize (record { table_length = 0; elems = 0; buckets = [] })

abbrev pub with_bucket : HandleTable → ℕ → List Handle → HandleTable
with_bucket t i bucket = record t { buckets = set t.buckets i bucket }

abbrev pub added : HandleTable → Option Handle → Option HandleTable
added t (some old) = some t
added t none =
    let t' = record t { elems = (t.elems + 1) % 2 ^ 32 } in
    let resized = resize t' in if ltb t'.table_length t'.elems then resized else some t'

-- What Insert returns, and the table.
unfoldable pub insert : Handle → HandleTable → Option (Option Handle × HandleTable)
insert h t =
    let i = slot t.table_length h.hash in
    let old = lookup h.key h.hash t in
    added (with_bucket t i (put h (bucket_at t.buckets i))) old >>= λ t'. some (old, t')

abbrev pub removed : HandleTable → Option Handle → HandleTable
removed t none = t
removed t (some h) = record t { elems = (t.elems + (2 ^ 32 - 1)) % 2 ^ 32 }

unfoldable pub remove : Slice → ℕ → HandleTable → Option Handle × HandleTable
remove key hash t =
    let i = slot t.table_length hash in
    let result = lookup key hash t in
    (result, removed (with_bucket t i (take_out key hash (bucket_at t.buckets i))) result)
