-- ===== src/WriteBatch/Iterate.antt =====
-- Iterate and InsertInto on the batches that the other operations write, and on any string.
use terp_builder.Base.{
  ℕ, ◌%◌, ◌^◌, ◌≤◌, ◌<◌, ◌≡◌, refl, ◌∙◌, ap, arith, Bool, false, Option, some, inl, inr,
}
use terp_builder.Base.{List, [], ◌++◌, length, drop, All, length-drop}
use terp_builder.Base.{ltb, ◌==◌, if◌then◌else◌, ◌>>=◌, le→ltb, Bool-cases, some_inj, ==_iff}
use terp_builder.Base.Consume.{run, run_total, run_inv}
use terp_builder.Slice.{Slice}
use terp_builder.Status.{Status, ok, corrupt, corrupt-ok}
use terp_builder.Coding.Fixed.{encode_fixed32}
use terp_builder.WriteBatch.{Op, header_size, Ended, found_in_all, returned}
use terp_builder.WriteBatch.{read_record, count, sequence}
use terp_builder.WriteBatch.{iterate, insert, insert_into, counted, Addition, put, delete}
use terp_builder.DbFormat.{value, deletion}
use terp_builder.Base.{zero, suc, ◌+◌, none, ◌∷◌, get_elem?}
use terp_builder.Coding.Fixed.RoundTrip.{decode_fixed32_total, decode_fixed64-encode_fixed64}
use terp_builder.WriteBatch.Layout.{records, batch, drop-laid, count-laid, length-laid}
use terp_builder.WriteBatch.Rounds.{
  Fits, read_record-Shrinks, run-records, start, Counts, Tallies, keeps-Counts, read_record-Tallies,
}

-- What one operation adds to the memtable under a sequence number.
abbrev pub addition : ℕ → Op → Addition
addition n (put k v) = record { number = n; type = value; key = k; content = v }
addition n (delete k) = record { number = n; type = deletion; key = k; content = [] }

-- The operation at an index, added under the number that is as many above the first, modulo 2^64.
abbrev pub addition_at : ℕ → ℕ → Option Op → Option Addition
addition_at first i none = none
addition_at first i (some op) = some (addition ((first + i) % 2 ^ 64) op)

insert-next :
    (n i : ℕ) (o : Option Op) → addition_at ((n + 1) % 2 ^ 64) i o ≡ addition_at n (suc i) o
insert-next n i none = refl
insert-next n i (some op) = ap (λ m. some (addition m op)) (omega arith)

insert_lem :
    (n : ℕ) (ops : List Op) (i : ℕ)
    → n < 2 ^ 64
    → get_elem? (insert n ops) i ≡ addition_at n i (get_elem? ops i)
unfolding insert
insert_lem n [] i h = refl
insert_lem n (put k v ∷ ops) zero h = ap (λ m. some (addition m (put k v))) (omega (arith, h))
insert_lem n (delete k ∷ ops) zero h = ap (λ m. some (addition m (delete k))) (omega (arith, h))
insert_lem n (put k v ∷ ops) (suc i) h =
    insert_lem ((n + 1) % 2 ^ 64) ops i (omega arith) ∙ insert-next n i (get_elem? ops i)
insert_lem n (delete k ∷ ops) (suc i) h =
    insert_lem ((n + 1) % 2 ^ 64) ops i (omega arith) ∙ insert-next n i (get_elem? ops i)

module _ (little : Bool) where
  count_total : (rep : Slice) → 12 ≤ length rep → (n : ℕ) × (count little rep ≡ some n)
  unfolding count
  count_total rep h = decode_fixed32_total little (drop 8 rep) (omega (arith, length-drop 8 rep))

  -- Iterate on a batch of less than 2^32 operations, whose keys and values are shorter than 2^32:
  -- it makes the handler's calls in the order of the operations and returns OK. InsertInto returns
  -- OK too, and its additions to the memtable are those of the operations in their order, the i-th
  -- under the batch's own sequence number plus i, modulo 2^64.
  pub iterate-batch :
      (seq : ℕ) (ops : List Op)
      → seq < 2 ^ 64
      → length ops < 2 ^ 32
      → All Fits ops
      → (iterate little (batch little seq ops) ≡ some (ops, ok))
        × ((additions : List Addition) × (insert_into little (batch little seq ops)
              ≡ some (additions, ok))
            × ((i : ℕ) → get_elem? additions i ≡ addition_at seq i (get_elem? ops i)))
  unfolding iterate insert_into sequence
  iterate-batch seq ops small few h = (
    calls,
    (
      insert seq ops,
      rw (
        decode_fixed64-encode_fixed64 little seq
            (encode_fixed32 little (length ops % 2 ^ 32) ++ records ops) small,
        calls,
      ),
      λ i. insert_lem seq ops i small,
    ),
  )
    where
      n : ℕ
      n = length ops % 2 ^ 32

      long : ltb (length (batch little seq ops)) header_size ≡ false
      long = le→ltb _ _ (omega (arith, length-laid little seq n (records ops)))

      all_found : run read_record start (records ops) ≡ some (ops, found_in_all (length ops))
      all_found = run-records ops start h ∙ ap (λ k. some (ops, found_in_all k)) (omega arith)

      calls : iterate little (batch little seq ops) ≡ some (ops, ok)
      calls =
          rw
            (
              long,
              drop-laid little seq n (records ops),
              all_found,
              count-laid little seq n (records ops) (omega arith),
            )
            (ap (λ b. some (ops, if b then ok else corrupt "WriteBatch has wrong count"))
              ((==_iff n n).1 refl))

  counted_total :
      (rep : Slice) (n : ℕ) (x : List Op × Ended)
      → count little rep ≡ some n
      → (r : List Op × Status) × (counted little rep x ≡ some r)
  counted_total rep n (calls, returned s) e = ((calls, s), refl)
  counted_total rep n (calls, found_in_all k) e = (
    _,
    ap
        (λ o. o >>= λ m.
          some (calls, if k % 2 ^ 32 == m then ok else corrupt "WriteBatch has wrong count"))
        e,
  )

  -- Iterate returns on every string, malformed or not: its loop takes at least one byte a round.
  pub iterate_total : (rep : Slice) → (r : List Op × Status) × (iterate little rep ≡ some r)
  unfolding iterate
  iterate_total rep = elim (Bool-cases (ltb (length rep) header_size)) [
    | inl short ↦ (([], corrupt "malformed WriteBatch (too small)"), rw short)
    | inr long ↦
        let (x, e) = run_total read_record read_record-Shrinks start (drop header_size rep) in
        let (n, c) = count_total rep (ground (arith, long)) in
        let (r, f) = counted_total rep n x c in (r, rw (long, e) f)
  ]

  agrees :
      (rep : Slice) (n : ℕ) (x : List Op × Ended) (calls : List Op)
      → count little rep ≡ some n
      → Tallies x
      → counted little rep x ≡ some (calls, ok)
      → n ≡ length calls % 2 ^ 32
  unfolding Tallies
  agrees rep n (made, returned s) calls c t e =
      absurd (t (ap (λ (p : List Op × Status). p.1) (some_inj e)))
  agrees rep n (made, found_in_all k) calls c t e = elim (Bool-cases (k % 2 ^ 32 == n)) [
    | inl same ↦
        let e' : ◌≡◌ {A = Option (List Op × Status)} (some (made, ok)) (some (calls, ok)) =
          rw (c, same) at e in
        let as_long = ap (λ (p : List Op × Status). length p.0) (some_inj e') in
        let remainder = (==_iff (k % 2 ^ 32) n).0 same in omega arith
    | inr differ ↦ absurd (
        corrupt-ok "WriteBatch has wrong count"
          (ap (λ (p : List Op × Status). p.1) (some_inj (rw (c, differ) at e))))
  ]

  -- Iterate returns OK only where the number of calls that it made is the batch's count, modulo 2^32.
  pub iterate-ok :
      (rep : Slice) (calls : List Op)
      → iterate little rep ≡ some (calls, ok)
      → count little rep ≡ some (length calls % 2 ^ 32)
  unfolding iterate Counts
  iterate-ok rep calls e = elim (Bool-cases (ltb (length rep) header_size)) [
    | inl short ↦ absurd (corrupt-ok "malformed WriteBatch (too small)" (ground (arith, short)))
    | inr long ↦
        let (x, ran) = run_total read_record read_record-Shrinks start (drop header_size rep) in
        let (n, c) = count_total rep (ground (arith, long)) in
        let tallies =
          run_inv read_record Counts Tallies keeps-Counts read_record-Tallies start
            (drop header_size rep) x refl ran in
        c ∙ ap some (agrees rep n x calls c tallies (rw (long, ran) at e))
  ]
