-- ===== src/Log/Ends.antt =====
-- ReadRecord returns.
pub mod Left
pub mod Physical
use terp_builder.Base.{
  if-both, ◌%◌, ℕ, zero, suc, ◌+◌, ◌-◌, ◌≤◌, ◌<◌, ◌≡◌, refl, ap, arith, Bool, true, false, not,
  ◌&&◌, Option, some, inl, inr,
}
use terp_builder.Base.{[], length, ltb, ◌==◌, if◌then◌else◌, Bool-cases}
use terp_builder.Slice.{Slice}
use terp_builder.Status.{Status, ok, corrupt}
use terp_builder.Env.{SequentialFile, IsFinite}
use terp_builder.Log.{full_type, first_type, middle_type, last_type, block_size}
use terp_builder.Log.Reader
use terp_builder.Log.Ends.Left.{remains, ended, shorter, IsGoing, stops, goes, turn}
use terp_builder.Log.Ends.Physical.{drop-remains, corruption-remains, read-IsShorter}

module _ (little : Bool) (extend : ℕ → Slice → ℕ) {F : Type 0} (file_ops : SequentialFile F)
    (left : F → ℕ) (fin : IsFinite file_ops left) (has_reporter checksum : Bool)
    (initial_offset : ℕ) where
  unended-remains :
      (reason : Status) (p : Reader.Partial) (r : Reader.Reader F)
      → remains left (
          Reader.report_unended little extend file_ops has_reporter checksum initial_offset reason p
            r)
        ≡ remains left r
  unended-remains reason p r =
      if-both (λ x. remains left x ≡ remains left r)
        (p.in_fragmented_record && not (length p.scratch == 0)) _ r
        (corruption-remains little extend file_ops left fin has_reporter checksum initial_offset
          (length p.scratch) reason r)
        refl

  type-IsGoing :
      (t offset : ℕ) (fragment : Slice) (p : Reader.Partial) (r : Reader.Reader F)
      → IsGoing left (remains left r) (
          Reader.on_type little extend file_ops has_reporter checksum initial_offset t fragment
            offset p r)
  unfolding Reader.on_type
  type-IsGoing t offset fragment p r = turn left (t == full_type) stops (
      turn left (t == first_type)
        (goes (omega (arith, unended-remains (corrupt "partial record without end(2)") p r)))
        (turn left (t == middle_type)
          (turn left p.in_fragmented_record (goes (omega arith)) (reported _ _))
          (turn left (t == last_type) (turn left p.in_fragmented_record stops (reported _ _)) (
            turn left (t == Reader.eof_type) stops (
              turn left (t == Reader.bad_record)
                (turn left p.in_fragmented_record (reported _ _) (goes (omega arith)))
                (reported _ _))))))
    where
      reported :
          {q : Reader.Partial} (n : ℕ) (reason : Status)
          → IsGoing left (remains left r) (
              Reader.next q (
                Reader.report_corruption little extend file_ops has_reporter checksum initial_offset
                  n reason r))
      reported n reason = goes (
          omega (
            arith,
            corruption-remains little extend file_ops left fin has_reporter checksum initial_offset
                n reason r,
          ))

  round-IsGoing :
      (p : Reader.Partial) (x : Reader.Physical F)
      → IsGoing left
          (remains left x.2)
          (Reader.read_round little extend file_ops has_reporter checksum initial_offset p x)
  unfolding Reader.read_round
  round-IsGoing p (t, fragment, r) =
      turn left (r.resyncing && (t == middle_type)) (goes (omega arith)) (
        turn left (r.resyncing && (t == last_type)) (goes (omega arith))
          (type-IsGoing t _ fragment p (record r { resyncing = false })))

  end-stops :
      (p : Reader.Partial) (x : Reader.Physical F)
      → x.0 ≡ Reader.eof_type
      → (r : Reader.Reader F) × (Reader.read_round little extend file_ops has_reporter checksum
            initial_offset p x
          ≡ Reader.stop false [] r)
  unfolding Reader.read_round Reader.on_type
  end-stops p (t, fragment, r) e = rw e (elim (Bool-cases r.resyncing) [
    | inl on ↦ (record r { resyncing = false }, rw on refl)
    | inr off ↦ (record r { resyncing = false }, rw off refl)
  ])

  Returns : Option (Bool × Slice × Reader.Reader F) → Type 0
  Returns o = (result : Bool × Slice × Reader.Reader F) × (o ≡ some result)

  turned-Returns :
      (n : ℕ) (go : Reader.Partial → Reader.Reader F → Option (Bool × Slice × Reader.Reader F))
      → ((p : Reader.Partial) (r : Reader.Reader F) → remains left r ≤ n → Returns (go p r))
      → (x : Reader.Turn F) → IsGoing left n x
      → Returns (Reader.turned little extend file_ops has_reporter checksum initial_offset go x)
  unfolding Returns
  turned-Returns n go later _ (stops {returned} {s} {r}) = ((returned, s, r), refl)
  turned-Returns n go later _ (goes {p} {r} le) = later p r le

  rounds-Returns :
      (n : ℕ) (p : Reader.Partial) (r : Reader.Reader F)
      → remains left r < n
      → Returns
          (Reader.read_rounds little extend file_ops has_reporter checksum initial_offset n p r)
  unfolding Reader.read_rounds Returns
  rounds-Returns zero p r enough = absurd (omega arith)
  rounds-Returns (suc n) p r enough =
      let x =
        Reader.read_physical_record little extend file_ops has_reporter checksum initial_offset r in
      let rounds =
        Reader.read_rounds little extend file_ops has_reporter checksum initial_offset n in
      elim (read-IsShorter little extend file_ops left fin has_reporter checksum initial_offset r) [
        | ended e ↦
            let end = end-stops p x e in
            (
              (false, [], end.0),
              ap (Reader.turned little extend file_ops has_reporter checksum initial_offset rounds)
                  end.1,
            )
        | shorter less ↦
            turned-Returns (remains left x.2) rounds
              (λ p' r' le. rounds-Returns n p' r' (omega (arith, less.fewer, enough, le))) _
              (round-IsGoing p x)
      ]

  skipped-remains :
      (location : ℕ) (r : Reader.Reader F) (x : Status × F)
      → left x.1 ≤ left r.file
      → remains left (
          (Reader.skipped little extend file_ops has_reporter checksum initial_offset location r
            x).1)
        ≤ remains left r
  skipped-remains location r (ok, file) le = omega (arith, le)
  skipped-remains location r (Status.error c msg, file) le = omega (
    arith,
    drop-remains little extend file_ops left fin has_reporter checksum initial_offset location
        (Status.error c msg) (record r { file = file }),
    le,
  )

  skip-remains :
      (r : Reader.Reader F)
      → remains left (
          (Reader.skip_to_initial_block little extend file_ops has_reporter checksum initial_offset
            r).1)
        ≤ remains left r
  unfolding Reader.skip_to_initial_block
  skip-remains r =
      if-both (λ (x : Bool × Reader.Reader F). remains left x.1 ≤ remains left r) (ltb 0 location)
        (Reader.skipped little extend file_ops has_reporter checksum initial_offset location moved
          (file_ops.skip location r.file))
        (true, moved)
        (skipped-remains location moved (file_ops.skip location r.file)
          (fin.skip_within location r.file))
        (omega arith)
    where
      in_block : ℕ
      in_block = initial_offset % block_size

      location : ℕ
      location =
          if ltb (block_size - 6) in_block
          then initial_offset - in_block + block_size
          else initial_offset - in_block

      moved : Reader.Reader F
      moved = record r { end_of_buffer_offset = location }

  -- On any file that gives no more bytes than it has left ReadRecord returns, whatever the bytes
  -- are, and whether or not its reads and skips go well, when the fuel is more than the bytes that
  -- the buffer and the file have left.
  pub read_record-Returns :
      (n : ℕ) (r : Reader.Reader F)
      → length r.buffer + left r.file < n
      → (result : Bool × Slice × Reader.Reader F) × (Reader.read_record little extend file_ops
            has_reporter checksum initial_offset n r
          ≡ some result)
  unfolding Reader.read_record Returns
  read_record-Returns n r enough =
      let there =
        Reader.skip_to_initial_block little extend file_ops has_reporter checksum initial_offset
          r in
      if-both Returns (ltb r.last_record_offset initial_offset) _ _
        (if-both Returns there.0 _ _
          (rounds-Returns n Reader.no_partial there.1 (omega (arith, skip-remains r, enough)))
          ((false, [], there.1), refl))
        (rounds-Returns n Reader.no_partial r enough)
