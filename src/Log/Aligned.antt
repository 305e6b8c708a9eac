-- ===== src/Log/Aligned.antt =====
-- A reader whose buffer is what is left of the block that it is in, and the physical record that it
-- reads next.
pub mod Parse
pub mod Refill
pub mod Read
use terp_builder.Base.{ℕ, zero, suc, ◌+◌, ◌-◌, ◌≤◌, ◌≡◌, refl, arith, Bool, false}
use terp_builder.Base.{List, [], length, take, drop}
use terp_builder.Base.{ltb, if◌then◌else◌}
use terp_builder.Slice.{Slice}
use terp_builder.Env.{SequentialFile, IsReading}
use terp_builder.Log.{IsChecksum, block_size, log_header_size}
use terp_builder.Log.Writer.{trailer}
use terp_builder.Log.Reader.{Reader, Physical, read_physical_record}

pub record IsAligned {F : Type 0} (left : F → List ℕ) (r : Reader F) (off : ℕ) (stream : List ℕ)
    : Type 0 where
  pub buffered : r.buffer ≡ take (block_size - off) stream
  pub behind : left r.file ≡ drop (block_size - off) stream
  pub ended : r.eof ≡ ltb (off + length r.buffer) block_size
  pub within : off ≤ block_size
  pub synced : r.resyncing ≡ false
  pub quiet : r.drops ≡ []

-- What the writer puts before a record at this offset, and where the record begins.
abbrev pub padding : ℕ → Slice
padding off = if ltb (block_size - off) log_header_size then trailer (block_size - off) else []

abbrev pub begins : ℕ → ℕ
begins off = if ltb (block_size - off) log_header_size then 0 else off

pub length-trailer : (n : ℕ) → length (trailer n) ≡ n
length-trailer zero = refl
length-trailer (suc n) = omega (arith, length-trailer n)

module _ (little : Bool) (extend : ℕ → Slice → ℕ) (cs : IsChecksum extend) {F : Type 0}
    (file_ops : SequentialFile F) (left : F → List ℕ) (rd : IsReading file_ops left)
    (has_reporter checksum : Bool) where
  abbrev pub physical : Reader F → Physical F
  physical = read_physical_record little extend file_ops has_reporter checksum 0
