-- ===== src/Snapshot/Operations.antt =====
-- The operations of SnapshotList on a ring of nodes, as operations on the list of its snapshots.
use terp_builder.Base.{ℕ, ◌≤◌, ◌≡◌, ◌≢◌, ◌↔◌, refl, sym, ap, arith, true, Option, none, some}
use terp_builder.Base.{List, [], ◌∷◌, ◌++◌, All, All-append, ◌==◌, if◌then◌else◌, leb, ◌||◌}
use terp_builder.Snapshot.{Heap, head, set_next, set_prev, construct, linked_in}
use terp_builder.Snapshot.{snapshot_list, empty, oldest, newest, new_snapshot, delete_snapshot}
use terp_builder.Snapshot.Ring.{Linked, Without, Distinct, Holds, frame, grown, shrunk, prev_in}
use terp_builder.Snapshot.Ring.{last_in, Without-append, All-implies}

Distinct-snoc : (b : ℕ) (xs : List ℕ) → Distinct xs → Without b xs → Distinct (xs ++ (b ∷ []))
Distinct-snoc b [] d w = (tt, tt)
Distinct-snoc b (x ∷ xs) (dx, d) (wx, w) =
    (All-append (λ y. y ≢ x) xs (b ∷ []) dx ((λ p. wx (sym p)), tt), Distinct-snoc b xs d w)

Distinct-remove :
    (x : ℕ) (xs ys : List ℕ) → Distinct (xs ++ (x ∷ ys)) → Distinct (xs ++ ys) × Without x xs
Distinct-remove x [] ys (dx, d) = (d, tt)
Distinct-remove x (z ∷ xs) ys (dz, d) =
    let (before, (away, after)) = Without-append z xs (x ∷ ys) dz in
    let (rest, w) = Distinct-remove x xs ys d in
    ((All-append (λ y. y ≢ z) xs ys before after, rest), ((λ p. away (sym p)), w))

-- What holds of all nodes holds of the one that head_ links back to.
at_last :
    (P : ℕ → Type 0) (s : Heap) (a : ℕ) (xs : List ℕ)
    → Linked s a xs
    → All P (a ∷ xs)
    → P ((s head).prev)
at_last P s a [] (e, f) (p, _) = rw f p
at_last P s a (x ∷ xs) (e, f, l) (p, ps) = at_last P s x xs l ps

construct-links :
    (b sequence : ℕ) (s : Heap) (x : ℕ)
    → ((construct b sequence s x).next ≡ (s x).next)
      × ((construct b sequence s x).prev ≡ (s x).prev)
unfolding construct
construct-links b sequence s x = ground arith

All-of : {A : Type 0} (P : A → Type 0) → ((x : A) → P x) → (xs : List A) → All P xs
All-of P f [] = tt
All-of P f (x ∷ xs) = (f x, All-of P f xs)

-- The sequence number of a node after New.
sequence_after :
    (b sequence : ℕ) (s : Heap) (x : ℕ)
    → (linked_in b (construct b sequence s) x).sequence_number
      ≡ (if x == b then sequence else (s x).sequence_number)
unfolding linked_in construct set_next set_prev
sequence_after b sequence s x = ground arith

delete-sequence :
    (b x : ℕ) (s : Heap) → (delete_snapshot b s x).sequence_number ≡ (s x).sequence_number
unfolding delete_snapshot set_next set_prev
delete-sequence b x s = ground arith

-- The constructor makes an empty list.
pub snapshot_list-Holds : (s : Heap) → Holds (snapshot_list s) []
unfolding snapshot_list construct set_next set_prev
snapshot_list-Holds s = record { linked = (refl, refl); distinct = (tt, tt) }

-- What New makes of the heap is a ring again.
linked_in-Holds :
    (s : Heap) (xs : List ℕ) (b sequence : ℕ)
    → Holds s xs
    → Without b (head ∷ xs)
    → Holds (linked_in b (construct b sequence s)) (xs ++ (b ∷ []))
linked_in-Holds s xs b sequence h (away, w) = record {
  linked = grown made b head xs l (away, w) (λ p. away (sym p)) h.distinct (h.distinct).0 last;
  distinct = Distinct-snoc b (head ∷ xs) h.distinct (away, w);
}
  where
    made : Heap
    made = construct b sequence s

    l : Linked made head xs
    l =
        frame s made head xs h.linked
          (All-of _ (λ x. (construct-links b sequence s x).0) (head ∷ xs))
          (All-of _ (λ x. (construct-links b sequence s x).1) xs)
          ((construct-links b sequence s head).1)

    last : (made head).prev ≢ b
    last = last_in made head b xs l away w

-- The assertion of New.
asserted :
    (s : Heap) (xs : List ℕ) (sequence : ℕ)
    → Linked s head xs
    → All (λ x. (s x).sequence_number ≤ sequence) xs
    → (empty s || leb (s ((s head).prev)).sequence_number sequence) ≡ true
unfolding empty
asserted s [] sequence (e, f) h = ground arith
asserted s (x ∷ xs) sequence (e, f, l) h =
    let p = at_last (λ x. (s x).sequence_number ≤ sequence) s x xs l h in ground arith

-- New with a sequence number that no snapshot of the list exceeds, at an address that the list does
-- not use: its assertion holds, the new node comes last in the list and has the number, and the
-- other nodes keep theirs.
pub new_snapshot_lem :
    (s : Heap) (xs : List ℕ) (snapshot sequence : ℕ)
    → Holds s xs
    → Without snapshot (head ∷ xs)
    → All (λ x. (s x).sequence_number ≤ sequence) xs
    → (s' : Heap) × (new_snapshot snapshot sequence s ≡ some s')
      × Holds s' (xs ++ (snapshot ∷ []))
      × ((s' snapshot).sequence_number ≡ sequence)
      × All (λ x. (s' x).sequence_number ≡ (s x).sequence_number) xs
unfolding new_snapshot
new_snapshot_lem s xs snapshot sequence h (away, w) below = (
  linked_in snapshot (construct snapshot sequence s),
  rw (asserted s xs sequence h.linked below),
  linked_in-Holds s xs snapshot sequence h (away, w),
  ground (arith, sequence_after snapshot sequence s snapshot),
  All-implies _ _ xs (λ x differs. ground (arith, sequence_after snapshot sequence s x)) w,
)

-- Delete of a snapshot of the list: it leaves the list, and the others stay in their order with
-- their sequence numbers.
pub delete_snapshot_lem :
    (s : Heap) (xs : List ℕ) (snapshot : ℕ) (ys : List ℕ)
    → Holds s (xs ++ (snapshot ∷ ys))
    → Holds (delete_snapshot snapshot s) (xs ++ ys)
      × All (λ x. (delete_snapshot snapshot s x).sequence_number ≡ (s x).sequence_number) (xs ++ ys)
delete_snapshot_lem s xs snapshot ys h =
    let (d, (w, before)) = Distinct-remove snapshot (head ∷ xs) ys h.distinct in
    let p = prev_in s head snapshot snapshot xs ys h.linked (w, before) in
    (
      record {
        linked = shrunk s snapshot head xs ys h.linked h.distinct (h.distinct).0 p;
        distinct = d;
      },
      All-of _ (λ x. delete-sequence snapshot x s) (xs ++ ys),
    )

abbrev pub first : List ℕ → Option ℕ
first [] = none
first (x ∷ xs) = some x

abbrev pub last : List ℕ → Option ℕ
last [] = none
last (x ∷ []) = some x
last (x ∷ y ∷ xs) = last (y ∷ xs)

last-prev :
    (s : Heap) (a x : ℕ) (xs : List ℕ) → Linked s a (x ∷ xs) → last (x ∷ xs) ≡ some ((s head).prev)
last-prev s a x [] (e, f, (e', f')) = ap some (sym f')
last-prev s a x (y ∷ xs) (e, f, l) = last-prev s x y xs l

-- oldest and newest return the first and the last snapshot of the list, and stop at their assertion
-- exactly where it is empty, which `empty` tells.
pub ends_lem :
    (s : Heap) (xs : List ℕ)
    → Holds s xs
    → (oldest s ≡ first xs) × (newest s ≡ last xs) × ((empty s ≡ true) ↔ (xs ≡ []))
unfolding oldest newest empty
ends_lem s [] h =
    let (e, f) = h.linked in (ground arith, ground arith, (λ _. refl, λ _. ground arith))
ends_lem s (x ∷ xs) h =
    let (e, f, l) = h.linked in
    let ((away, _), _) = h.distinct in
    let final = last-prev s head x xs (e, f, l) in
    (ground arith, rw final (ground arith), (λ p. absurd (ground arith), λ p. absurd (cc)))
