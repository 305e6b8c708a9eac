-- ===== src/Cache/Table/Resize.antt =====
-- Well-formed tables, and how Resize gives one that finds what there was.
use mathlib.Core.Path.{subst}
use terp_builder.Base.{
  ℕ, zero, suc, ◌+◌, ◌*◌, ◌%◌, ◌^◌, ◌≤◌, ◌<◌, ◌≡◌, refl, sym, ap, ◌∙◌, arith, some, inl, inr,
}
use terp_builder.Base.{[], All, length, ltb, ==_iff, Bool-cases, le→ltb, ltb→lt}
use terp_builder.Slice.{Slice}
use terp_builder.Cache.{HandleTable, find_pointer, slot, bucket_at, count, empty_buckets, move_all}
use terp_builder.Cache.{lookup, new_length, resize}
use terp_builder.Cache.Buckets.{IsDistinct}
use terp_builder.Cache.Moving.{move_all-AreMoved}
use terp_builder.Cache.Moving.Arrays.{IsArray}

-- What the operations keep of a table.
pub record IsTable (t : HandleTable) : Type 0 where
  pub positive : 0 < t.table_length
  pub array : IsArray t.table_length t.buckets
  pub counted : count t.buckets ≡ t.elems
  pub bounded : t.elems < 2 ^ 32

doubles : ℕ → ℕ → ℕ
doubles zero n = n
doubles (suc k) n = doubles k (n * 2)

new_length-lem :
    (k n elems : ℕ)
    → 0 < n
    → n < 2 ^ 32
    → elems ≤ 2 ^ 31
    → elems ≤ doubles k n
    → (m : ℕ) × (new_length (suc k) n elems ≡ some m) × (0 < m)
unfolding new_length doubles
new_length-lem zero n elems pos small few reach = (n, rw (le→ltb n elems reach) refl, pos)
new_length-lem (suc k) n elems pos small few reach = elim (Bool-cases (ltb n elems)) [
  | inr enough ↦ (n, rw enough refl, pos)
  | inl short ↦
      let wide : n * 2 % 2 ^ 32 ≡ n * 2 = omega (arith, ltb→lt _ _ short, few) in
      let (m, run, p) =
        new_length-lem k (n * 2) elems (omega (arith, pos)) (omega (arith, ltb→lt _ _ short, few))
          few reach in
      (m, rw short (ap (λ x. new_length (suc k) x elems) wide ∙ run), p)
]

empty-at : (n i : ℕ) → bucket_at (empty_buckets n) i ≡ []
empty-at zero i = refl
empty-at (suc n) zero = refl
empty-at (suc n) (suc i) = empty-at n i

empty-length : (n : ℕ) → length (empty_buckets n) ≡ n
empty-length zero = refl
empty-length (suc n) = omega (arith, empty-length n)

empty-count : (n : ℕ) → count (empty_buckets n) ≡ 0
empty-count zero = refl
empty-count (suc n) = omega (arith, empty-count n)

pub empty-IsArray : (n : ℕ) → IsArray n (empty_buckets n)
empty-IsArray n = record {
  size = empty-length n;
  placed = λ i. subst (λ b. All (λ h. slot n h.hash ≡ i) b) (sym (empty-at n i)) tt;
  distinct = λ i. subst IsDistinct (sym (empty-at n i)) tt;
}

pub resize-lem :
    (t : HandleTable)
    → IsArray t.table_length t.buckets
    → count t.buckets ≡ t.elems
    → t.elems ≤ 2 ^ 31
    → (t' : HandleTable) × (resize t ≡ some t')
      × IsTable t'
      × ((key : Slice) (hash : ℕ) → lookup key hash t' ≡ lookup key hash t)
unfolding resize lookup doubles
resize-lem t array counted few =
    let (n, run, pos) =
      new_length-lem 32 4 t.elems (omega arith) (omega arith) few (omega (arith, few)) in
    let moved =
      move_all-AreMoved n pos t.table_length 0 t.buckets (empty_buckets n) (empty-IsArray n)
        (λ i.
          subst (λ k. All (λ h. slot t.table_length h.hash ≡ k) (bucket_at t.buckets i)) {x = i}
            {y = 0 + i} (omega arith) (array.placed i))
        array.distinct (λ key hash le. ap (find_pointer key hash) (empty-at n (slot n hash))) in
    (
      record t { table_length = n; buckets = move_all n (empty_buckets n) t.buckets },
      rw (run, (==_iff t.elems (count t.buckets % 2 ^ 32)).1 (omega (arith, counted, few))) refl,
      record {
        positive = pos;
        array = moved.array;
        counted = omega (arith, moved.counted, empty-count n, counted);
        bounded = omega (arith, few);
      },
      λ key hash. moved.looks key hash (slot t.table_length hash) (omega arith),
    )
