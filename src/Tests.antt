-- ===== src/Tests.antt =====
-- The theorems at concrete inputs.
mod Schedule
mod Engine
mod Words
mod Logs
mod Files
mod Caches
mod Formats
mod Names
