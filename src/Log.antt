-- ===== src/Log.antt =====
-- Terp_Builder/Pods/leveldb-library/db/log_format.h and, in the children, log_writer.cc and log_reader.cc: the log of records.
pub mod Writer
pub mod Reader
pub mod Fragment
pub mod Aligned
pub mod Turns
pub mod Emits
pub mod Rounds
pub mod Session
pub mod RoundTrip
pub mod Ends
use terp_builder.Base.{ℕ, ◌+◌, ◌^◌, ◌<◌, ◌≡◌, ◌++◌}
use terp_builder.Slice.{Slice}

abbrev pub zero_type : ℕ
zero_type = 0

abbrev pub full_type : ℕ
full_type = 1

abbrev pub first_type : ℕ
first_type = 2

abbrev pub middle_type : ℕ
middle_type = 3

abbrev pub last_type : ℕ
last_type = 4

abbrev pub max_record_type : ℕ
max_record_type = last_type

abbrev pub block_size : ℕ
block_size = 32768

-- `kHeaderSize`: checksum, length and type.
abbrev pub log_header_size : ℕ
log_header_size = 4 + 2 + 1

-- What crc32c.h says of Extend: it gives the checksum of a string from that of its front, a uint32.
pub record IsChecksum (extend : ℕ → Slice → ℕ) : Type 0 where
  pub extends : (a b : Slice) → extend (extend 0 a) b ≡ extend 0 (a ++ b)
  pub small : (crc : ℕ) (s : Slice) → extend crc s < 2 ^ 32
