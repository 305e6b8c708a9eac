-- ===== src/Snapshot.antt =====
-- Terp_Builder/Pods/leveldb-library/db/snapshot.h: the snapshots of the database, a circular doubly
-- linked list of nodes in the heap. A pointer is a number, and the list's head_ is at `head`.
pub mod Ring
pub mod Operations
use terp_builder.Base.{ℕ, Bool, ◌||◌, Option, none, some, leb, ◌==◌, if◌then◌else◌}

pub record SnapshotImpl : Type 0 where
  pub prev : ℕ
  pub next : ℕ
  pub sequence_number : ℕ

-- The heap: the node at each address.
abbrev pub Heap : Type 0
Heap = ℕ → SnapshotImpl

abbrev pub head : ℕ
head = 0

-- `a->next_ = b` and `a->prev_ = b`
unfoldable pub set_next : ℕ → ℕ → Heap → Heap
set_next a b s x = if x == a then record (s x) { next = b } else s x

unfoldable pub set_prev : ℕ → ℕ → Heap → Heap
set_prev a b s x = if x == a then record (s x) { prev = b } else s x

-- `SnapshotImpl(sequence_number)` leaves the two pointers as the memory has them.
unfoldable pub construct : ℕ → ℕ → Heap → Heap
construct a sequence s x = if x == a then record (s x) { sequence_number = sequence } else s x

unfoldable pub snapshot_list : Heap → Heap
snapshot_list s = set_next head head (set_prev head head (construct head 0 s))

unfoldable pub empty : Heap → Bool
empty s = (s head).next == head

-- The assertions of oldest(), newest() and New() are `none`.
unfoldable pub oldest : Heap → Option ℕ
oldest s = if empty s then none else some ((s head).next)

unfoldable pub newest : Heap → Option ℕ
newest s = if empty s then none else some ((s head).prev)

-- The four stores of New, for a node at `snapshot`.
unfoldable pub linked_in : ℕ → Heap → Heap
linked_in snapshot s =
    let s1 = set_next snapshot head s in
    let s2 = set_prev snapshot ((s1 head).prev) s1 in
    let s3 = set_next ((s2 snapshot).prev) snapshot s2 in set_prev ((s3 snapshot).next) snapshot s3

-- `snapshot` is the address that `new` returns.
unfoldable pub new_snapshot : ℕ → ℕ → Heap → Option Heap
new_snapshot snapshot sequence s =
    if empty s || leb (s ((s head).prev)).sequence_number sequence
    then some (linked_in snapshot (construct snapshot sequence s))
    else none

-- `Delete(snapshot)`; the node is freed, which leaves the other nodes as they are.
unfoldable pub delete_snapshot : ℕ → Heap → Heap
delete_snapshot snapshot s =
    let s1 = set_next ((s snapshot).prev) ((s snapshot).next) s in
    set_prev ((s1 snapshot).next) ((s1 snapshot).prev) s1
