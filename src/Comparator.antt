-- ===== src/Comparator.antt =====
-- Terp_Builder/Pods/leveldb-library/include/leveldb/comparator.h and util/comparator.cc: the
-- interface through which the store orders keys, and the built-in byte-wise order.
pub mod Bytewise
use Prim.Native.Nat.{Ordering, min}
use Prim.Native.String.{String}
use terp_builder.Base.{ℕ, ◌+◌, ◌≡◌, ◌≢◌, ◌%◌, ◌&&◌, List, [], ◌∷◌, All}
use terp_builder.Base.{ltb, leb, ◌==◌, if◌then◌else◌, length, get_or, set, take, suc}
use terp_builder.Coding.Fixed.RoundTrip.{IsByte}
use terp_builder.Slice
use terp_builder.Slice.{Slice}
use terp_builder.Slice.Lexical.{opposite}

-- The methods that change `*start` or `*key` return the new string.
pub record Comparator : Type 0 where
  pub compare : Slice → Slice → Ordering
  pub name : String
  pub find_shortest_separator : List ℕ → Slice → List ℕ
  pub find_short_successor : List ℕ → List ℕ

abbrev pub IsBytes : List ℕ → Type 0
IsBytes s = All IsByte s

-- What comparator.h promises of an implementation: a total order whose equality is equality of the
-- slices, and separators and successors on the right side of their keys.
pub record IsLawful (c : Comparator) : Type 0 where
  pub same : (a : Slice) → c.compare a a ≡ Ordering.eq
  pub eq_same : (a b : Slice) → c.compare a b ≡ Ordering.eq → a ≡ b
  pub opposed : (a b : Slice) → c.compare b a ≡ opposite (c.compare a b)
  pub ordered :
      (x y z : Slice)
      → c.compare x y ≡ Ordering.lt
      → c.compare y z ≡ Ordering.lt
      → c.compare x z ≡ Ordering.lt
  pub separated :
      (start limit : Slice)
      → IsBytes start
      → c.compare start limit ≡ Ordering.lt
      → (c.compare start (c.find_shortest_separator start limit) ≢ Ordering.gt)
        × (c.compare (c.find_shortest_separator start limit) limit ≡ Ordering.lt)
  pub separator_bytes :
      (start limit : Slice) → IsBytes start → IsBytes (c.find_shortest_separator start limit)
  pub succeeded :
      (key : Slice) → IsBytes key → c.compare key (c.find_short_successor key) ≢ Ordering.gt
  pub successor_bytes : (key : Slice) → IsBytes key → IsBytes (c.find_short_successor key)

-- The while loop of BytewiseComparatorImpl::FindShortestSeparator: the length of the common prefix.
unfoldable pub diff_index : List ℕ → Slice → ℕ
diff_index [] limit = 0
diff_index (a ∷ start) [] = 0
diff_index (a ∷ start) (b ∷ limit) =
    let rest = suc (diff_index start limit) in if a == b then rest else 0

-- Where one string is a prefix of the other, `start` stays. `(*start)[diff_index]++` wraps a byte.
pub shortest_separator : List ℕ → Slice → List ℕ
unfolding diff_index
shortest_separator start limit =
    let min_length = min (length start) (length limit) in
    let d = diff_index start limit in
    let diff_byte = get_or start d 0 in
    if leb min_length d
    then start
    else if ltb diff_byte 0xff && ltb (diff_byte + 1) (get_or limit d 0)
    then take (suc d) (set start d ((diff_byte + 1) % 256))
    else start

-- BytewiseComparatorImpl::FindShortSuccessor. A run of 0xff stays as it is.
pub short_successor : List ℕ → List ℕ
short_successor [] = []
short_successor (byte ∷ key) =
    let rest = short_successor key in if byte == 0xff then byte ∷ rest else ((byte + 1) % 256) ∷ []

abbrev pub bytewise_comparator : Comparator
bytewise_comparator = record {
  compare = Slice.compare;
  name = "leveldb.BytewiseComparator";
  find_shortest_separator = shortest_separator;
  find_short_successor = short_successor;
}
