-- ===== src/Log/Ends/Left.antt =====
-- What a reader has left in its buffer and its file, and the records and rounds that leave less.
use terp_builder.Base.{if-both, ℕ, ◌+◌, ◌≤◌, ◌<◌, ◌≡◌, Bool}
use terp_builder.Base.{length, if◌then◌else◌}
use terp_builder.Slice.{Slice}
use terp_builder.Log.Reader

module _ {F : Type 0} (left : F → ℕ) where
  -- What is left to read.
  abbrev pub remains : Reader.Reader F → ℕ
  remains r = length r.buffer + left r.file

  -- A physical record after which less is left than this.
  pub record IsBelow (n : ℕ) (x : Reader.Physical F) : Type 0 where
    pub fewer : remains x.2 < n

  pub choose :
      {n : ℕ} (b : Bool) {x y : Reader.Physical F}
      → IsBelow n x
      → IsBelow n y
      → IsBelow n (if b then x else y)
  choose {n} b {x} {y} p q = if-both (IsBelow n) b x y p q

  -- A physical record that takes something from what is left, or the end.
  pub data IsShorter (n : ℕ) (x : Reader.Physical F) : Type 0 where
    ended : x.0 ≡ Reader.eof_type → IsShorter n x
    shorter : IsBelow n x → IsShorter n x

  pub pick :
      {n : ℕ} (b : Bool) {x y : Reader.Physical F}
      → IsShorter n x
      → IsShorter n y
      → IsShorter n (if b then x else y)
  pick {n} b {x} {y} p q = if-both (IsShorter n) b x y p q

  -- A round that ends the loop, or leaves no more than this.
  pub data IsGoing (n : ℕ) : Reader.Turn F → Type 0 where
    stops :
        {returned : Bool} {s : Slice} {r : Reader.Reader F} → IsGoing n (Reader.stop returned s r)
    goes : {p : Reader.Partial} {r : Reader.Reader F} → remains r ≤ n → IsGoing n (Reader.next p r)

  pub turn :
      {n : ℕ} (b : Bool) {x y : Reader.Turn F}
      → IsGoing n x
      → IsGoing n y
      → IsGoing n (if b then x else y)
  turn {n} b {x} {y} p q = if-both (IsGoing n) b x y p q
