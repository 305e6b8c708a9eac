-- ===== src/Tests/Engine.antt =====
-- The storage engine's theorems at small keys.
use Prim.Native.Nat.{Ordering}
use terp_builder.Base.{ℕ, ◌<◌, ◌≤◌, ◌≡◌, ◌↔◌, ◌⊎◌, refl, arith, true, false}
use terp_builder.Base.{some, [], ◌∷◌}
use terp_builder.Slice.{Slice, memcmp, compare}
use terp_builder.Slice.Lexical.{opposite}
use terp_builder.Comparator.{bytewise_comparator}
use terp_builder.Comparator.Bytewise.{bytewise_comparator-IsLawful, shortest_separator_same}
use terp_builder.DbFormat.{internal_key, lookup_key, ParsedInternalKey, value, append_internal_key}
use terp_builder.DbFormat.{parse_internal_key, internal_compare, internal_separator}
use terp_builder.DbFormat.{max_sequence_number}
use terp_builder.DbFormat.Keys.{append_internal_key-parse}
use terp_builder.DbFormat.Order.{IsInternal}
use terp_builder.DbFormat.Order.{internal_compare_total, internal_compare_trans}
use terp_builder.DbFormat.Separators.{internal_separator_between}
use terp_builder.DbFormat.Lookup.{lookup_key_seeks}
use terp_builder.Coding.Fixed.{decode_fixed32, decode_fixed64, host_value}
use terp_builder.Base.{List, All, ◌==◌, if◌then◌else◌}
use terp_builder.Snapshot.{Heap, new_snapshot, delete_snapshot}
use terp_builder.Snapshot.Ring.{Holds}
use terp_builder.Snapshot.Operations.{new_snapshot_lem, delete_snapshot_lem}

abbrev entry : Slice → ℕ → ParsedInternalKey
entry u n = record { user_key = u; sequence = n; type = value }

-- "b" at 7, "b" at 3, and "d" at 7, as internal keys.
abbrev newer : Slice
newer = 98 ∷ 1 ∷ 7 ∷ 0 ∷ 0 ∷ 0 ∷ 0 ∷ 0 ∷ 0 ∷ []

abbrev older : Slice
older = 98 ∷ 1 ∷ 3 ∷ 0 ∷ 0 ∷ 0 ∷ 0 ∷ 0 ∷ 0 ∷ []

abbrev after : Slice
after = 100 ∷ 1 ∷ 7 ∷ 0 ∷ 0 ∷ 0 ∷ 0 ∷ 0 ∷ 0 ∷ []

newer-IsInternal : IsInternal newer
newer-IsInternal = record { bytes = omega arith; long = omega arith }

older-IsInternal : IsInternal older
older-IsInternal = record { bytes = omega arith; long = omega arith }

after-IsInternal : IsInternal after
after-IsInternal = record { bytes = omega arith; long = omega arith }

append_internal_key-parse_example :
    (append_internal_key false [] (entry (98 ∷ []) 7) ≡ newer) × (7 ≤ max_sequence_number)
unfolding parse_internal_key decode_fixed64 decode_fixed32
append_internal_key-parse_example =
    append_internal_key-parse false newer (entry (98 ∷ []) 7) newer-IsInternal.bytes refl

internal_compare_total_example :
    (r : Ordering) × (internal_compare true bytewise_comparator newer older ≡ some r)
    × (internal_compare true bytewise_comparator older newer ≡ some (opposite r))
    × ((r ≡ Ordering.eq) ↔ (newer ≡ older))
internal_compare_total_example =
    internal_compare_total true bytewise_comparator bytewise_comparator-IsLawful newer older
      newer-IsInternal older-IsInternal

internal_compare_trans_example :
    internal_compare true bytewise_comparator newer after ≡ some Ordering.lt
unfolding internal_compare compare memcmp decode_fixed64 host_value
internal_compare_trans_example =
    internal_compare_trans true bytewise_comparator bytewise_comparator-IsLawful newer older after
      newer-IsInternal older-IsInternal after-IsInternal refl refl

internal_separator_between_example :
    (r : Slice) × (internal_separator true bytewise_comparator newer after ≡ some r)
    × ((r ≡ newer) ⊎ (internal_compare true bytewise_comparator newer r ≡ some Ordering.lt))
    × (internal_compare true bytewise_comparator r after ≡ some Ordering.lt)
unfolding internal_compare compare memcmp decode_fixed64 host_value
internal_separator_between_example =
    internal_separator_between true bytewise_comparator bytewise_comparator-IsLawful
      shortest_separator_same newer after newer-IsInternal after-IsInternal refl

lookup_key_seeks_example :
    (internal_compare true bytewise_comparator
        (internal_key (lookup_key true (98 ∷ []) 7))
        (append_internal_key true [] (entry (98 ∷ []) 9))
      ≡ some Ordering.gt)
    ↔ (7 < 9)
lookup_key_seeks_example =
    lookup_key_seeks true (98 ∷ []) 7 (omega arith) bytewise_comparator bytewise_comparator-IsLawful
      9 value (omega arith)

abbrev pair : Slice
pair = 97 ∷ 98 ∷ []

abbrev single : Slice
single = 97 ∷ []

-- A list of two snapshots, at the addresses 5 and 8.
abbrev two : Heap
two x =
    if x == 5
    then record { prev = 0; next = 8; sequence_number = 3 }
    else if x == 8
    then record { prev = 5; next = 0; sequence_number = 7 }
    else record { prev = 8; next = 5; sequence_number = 0 }

two-Holds : Holds two (5 ∷ 8 ∷ [])
two-Holds = record { linked = (refl, refl, (refl, refl, (refl, refl))); distinct = omega arith }

new_snapshot_lem_example :
    (s' : Heap) × (new_snapshot 6 9 two ≡ some s')
    × Holds s' (5 ∷ 8 ∷ 6 ∷ [])
    × ((s' 6).sequence_number ≡ 9)
    × All (λ x. (s' x).sequence_number ≡ (two x).sequence_number) (5 ∷ 8 ∷ [])
new_snapshot_lem_example =
    new_snapshot_lem two (5 ∷ 8 ∷ []) 6 9 two-Holds (omega arith) (omega arith)

delete_snapshot_lem_example :
    Holds (delete_snapshot 5 two) (8 ∷ [])
    × All (λ x. (delete_snapshot 5 two x).sequence_number ≡ (two x).sequence_number) (8 ∷ [])
delete_snapshot_lem_example = delete_snapshot_lem two [] 5 (8 ∷ []) two-Holds

abbrev snapshots : List ℕ
snapshots = 5 ∷ 8 ∷ []
