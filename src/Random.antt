-- ===== src/Random.antt =====
-- Terp_Builder/Pods/leveldb-library/util/random.h: the generator of the engine's skip list. The state is seed_; an operation
-- returns its value and the new seed_. The C++ integers are 32 and 64 bits wide.
pub mod Cycle
use terp_builder.Base.{ℕ, ◌+◌, ◌-◌, ◌*◌, ◌/◌, ◌%◌, ◌^◌, Bool, ◌||◌, bit_and, ltb, ◌==◌}
use terp_builder.Base.{if◌then◌else◌}

-- M = 2^31 - 1
abbrev pub modulus : ℕ
modulus = 2147483647

abbrev pub multiplier : ℕ
multiplier = 16807

-- `Random(s)`
unfoldable pub seeded : ℕ → ℕ
seeded s = let seed = bit_and s 0x7fffffff in if seed == 0 || seed == 2147483647 then 1 else seed

-- `(product >> 31) + (product & M)`, cut to 32 bits
abbrev pub reduced : ℕ → ℕ
reduced product = (product / 2 ^ 31 + bit_and product modulus) % 2 ^ 32

-- `Next()`: the returned value is the new seed_.
unfoldable pub next : ℕ → ℕ
next seed = let r = reduced (seed * multiplier % 2 ^ 64) in if ltb modulus r then r - modulus else r

-- For 0 < n.
unfoldable pub uniform : ℕ → ℕ → ℕ × ℕ
uniform seed n = (next seed % n, next seed)

unfoldable pub one_in : ℕ → ℕ → Bool × ℕ
one_in seed n = (next seed % n == 0, next seed)

-- For max_log below 31.
unfoldable pub skewed : ℕ → ℕ → ℕ × ℕ
skewed seed max_log = let (base, seed') = uniform seed (max_log + 1) in uniform seed' (2 ^ base)
