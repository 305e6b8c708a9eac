-- ===== src/Tests/Caches.antt =====
-- Runs of the cache's hash table.
use terp_builder.Base.{ℕ, zero, suc, All, ◌≡◌, refl, arith, none, some, [], ◌∷◌, if◌then◌else◌}
use terp_builder.Slice.{Slice}
use terp_builder.Cache.{Handle, HandleTable, lookup, insert, remove, slot, bucket_at}
use terp_builder.Cache.Buckets.{or_else, IsDistinct}
use terp_builder.Cache.Buckets.Matches.{is_same_key}
use terp_builder.Cache.Table.Resize.{IsTable}
use terp_builder.Cache.Table.{insert_lem, remove_lem}

abbrev handle : ℕ → Handle
handle n = record { key = n ∷ []; hash = n; entry = n }

-- Four buckets with four handles, of which two share one: the next makes the table grow.
abbrev four : HandleTable
four = record {
  table_length = 4;
  elems = 4;
  buckets = (handle 8 ∷ handle 4 ∷ []) ∷ (handle 5 ∷ []) ∷ [] ∷ (handle 3 ∷ []) ∷ [];
}

four-IsTable : IsTable four
four-IsTable = record {
  positive = omega arith;
  array = record { size = refl; placed = placed; distinct = distinct };
  counted = refl;
  bounded = omega arith;
}
  where
    placed : (i : ℕ) → All (λ h. slot 4 h.hash ≡ i) (bucket_at four.buckets i)
    placed zero = (refl, (refl, tt))
    placed (suc zero) = (refl, tt)
    placed (suc (suc zero)) = tt
    placed (suc (suc (suc zero))) = (refl, tt)
    placed (suc (suc (suc (suc i)))) = tt

    distinct : (i : ℕ) → IsDistinct (bucket_at four.buckets i)
    distinct zero = (refl, (refl, tt))
    distinct (suc zero) = (refl, tt)
    distinct (suc (suc zero)) = tt
    distinct (suc (suc (suc zero))) = (refl, tt)
    distinct (suc (suc (suc (suc i)))) = tt

insert_lem_example :
    (t' : HandleTable) × (insert (handle 12) four ≡ some (lookup (12 ∷ []) 12 four, t'))
    × IsTable t'
    × ((key : Slice) (hash : ℕ)
        → lookup key hash t' ≡ or_else key hash (handle 12) (lookup key hash four))
insert_lem_example = insert_lem (handle 12) four four-IsTable (omega arith)

remove_lem_example :
    ((remove (4 ∷ []) 4 four).0 ≡ lookup (4 ∷ []) 4 four)
    × IsTable ((remove (4 ∷ []) 4 four).1)
    × ((key' : Slice) (hash' : ℕ)
        → lookup key' hash' ((remove (4 ∷ []) 4 four).1)
          ≡ (if is_same_key key' hash' (4 ∷ []) 4 then none else lookup key' hash' four))
remove_lem_example = remove_lem (4 ∷ []) 4 four four-IsTable
