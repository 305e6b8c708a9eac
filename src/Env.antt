-- ===== src/Env.antt =====
-- Terp_Builder/Pods/leveldb-library/include/leveldb/env.h: the files that the engine reads and writes, as interfaces over an
-- unknown state of the file and of what lies behind it.
pub mod System
pub mod Whole
pub mod Text
use terp_builder.Base.{ℕ, ◌+◌, ◌≤◌, ◌<◌, ◌≡◌, List, ◌++◌, length, take, drop}
use terp_builder.Slice.{Slice}
use terp_builder.Status.{Status, ok, error}

pub record WritableFile (W : Type 0) : Type 0 where
  pub append : Slice → W → Status × W
  pub close : W → Status × W
  pub flush : W → Status × W
  pub sync : W → Status × W

-- The status, what was read, and the file after.
pub record SequentialFile (F : Type 0) : Type 0 where
  pub read : ℕ → F → Status × Slice × F
  pub skip : ℕ → F → Status × F

-- A file that takes every write: what it holds grows by what is appended.
pub record IsWriting {W : Type 0} (file : WritableFile W) (holds : W → List ℕ) : Type 0 where
  pub append_ok : (s : Slice) (w : W) → (file.append s w).0 ≡ ok
  pub append_holds : (s : Slice) (w : W) → holds ((file.append s w).1) ≡ holds w ++ s
  pub flush_ok : (w : W) → (file.flush w).0 ≡ ok
  pub flush_holds : (w : W) → holds ((file.flush w).1) ≡ holds w

-- A file that answers every read with as many of the bytes left as are asked for.
pub record IsReading {F : Type 0} (file : SequentialFile F) (left : F → List ℕ) : Type 0 where
  pub read_ok : (n : ℕ) (f : F) → (file.read n f).0 ≡ ok
  pub read_bytes : (n : ℕ) (f : F) → (file.read n f).1 ≡ take n (left f)
  pub read_left : (n : ℕ) (f : F) → left ((file.read n f).2) ≡ drop n (left f)
  pub skip_ok : (n : ℕ) (f : F) → (file.skip n f).0 ≡ ok
  pub skip_left : (n : ℕ) (f : F) → left ((file.skip n f).1) ≡ drop n (left f)

-- A file that gives no more bytes than it has left, whether or not its reads and skips go well.
pub record IsFinite {F : Type 0} (file : SequentialFile F) (left : F → ℕ) : Type 0 where
  pub read_within : (n : ℕ) (f : F) → length (file.read n f).1 + left (file.read n f).2 ≤ left f
  pub skip_within : (n : ℕ) (f : F) → left (file.skip n f).1 ≤ left f

-- What a read that goes well does to what is left: it takes bytes off the front, some if there are.
abbrev pub IsRead : {F : Type 0} → (F → List ℕ) → ℕ → List ℕ → Status × Slice × F → Type 0
IsRead left n bytes (ok, fragment, f) =
    (bytes ≡ fragment ++ left f) × (0 < n → 0 < length bytes → 0 < length fragment)
IsRead left n bytes (error c msg, fragment, f) = Unit

-- A file that is read from its front on; a read may give less than is asked for, and may fail.
pub record IsSequential {F : Type 0} (file : SequentialFile F) (left : F → List ℕ) : Type 0 where
  pub reads : (n : ℕ) (f : F) → IsRead left n (left f) (file.read n f)
