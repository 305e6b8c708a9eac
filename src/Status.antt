-- ===== src/Status.antt =====
-- Terp_Builder/Pods/leveldb-library/include/leveldb/status.h and util/status.cc: how the engine reports errors.
use Prim.Native.String.{String}
use terp_builder.Base.{ℕ, Bool, true, false, List, [], ◌++◌, length, ◌==◌, ◌≢◌, if◌then◌else◌}
use terp_builder.Base.Text.{bytes}

-- enum Code, without kOk
pub data Code : Type 0 where
  not_found corruption not_supported invalid_argument io_error : Code

-- A null state_ is `ok`; else state_ holds the code and the message, behind the message's length.
pub data Status : Type 0 where
  ok : Status
  error : Code → List ℕ → Status

-- The constructor joins its two messages. Messages are shorter than 2^32.
abbrev pub status : Code → List ℕ → List ℕ → Status
status c msg msg2 = if length msg2 == 0 then error c msg else error c (msg ++ (bytes ": " ++ msg2))

unfoldable pub corrupt : String → Status
corrupt msg = status corruption (bytes msg) []

abbrev pub is_ok : Status → Bool
is_ok ok = true
is_ok (error c msg) = false

abbrev pub is_not_found : Status → Bool
is_not_found (error not_found msg) = true
is_not_found _ = false

abbrev pub is_corruption : Status → Bool
is_corruption (error corruption msg) = true
is_corruption _ = false

abbrev pub is_io_error : Status → Bool
is_io_error (error io_error msg) = true
is_io_error _ = false

abbrev pub is_not_supported_error : Status → Bool
is_not_supported_error (error not_supported msg) = true
is_not_supported_error _ = false

abbrev pub is_invalid_argument : Status → Bool
is_invalid_argument (error invalid_argument msg) = true
is_invalid_argument _ = false

abbrev prefix : Code → List ℕ
prefix not_found = bytes "NotFound: "
prefix corruption = bytes "Corruption: "
prefix not_supported = bytes "Not implemented: "
prefix invalid_argument = bytes "Invalid argument: "
prefix io_error = bytes "IO error: "

pub to_string : Status → List ℕ
to_string ok = bytes "OK"
to_string (error c msg) = prefix c ++ msg

pub corrupt-ok : (msg : String) → corrupt msg ≢ ok
unfolding corrupt
corrupt-ok msg h = cc
