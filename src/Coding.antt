-- ===== src/Coding.antt =====
-- Terp_Builder/Pods/leveldb-library/util/coding.h and coding.cc: how numbers and strings are laid
-- out as bytes. A std::string, and the bytes from a char pointer up to its limit, are lists of
-- numbers below 256.
pub mod Fixed
pub mod Varint
pub mod Prefixed
pub mod Shrinks
