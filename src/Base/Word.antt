-- ===== src/Base/Word.antt =====
-- Unsigned machine arithmetic, with its wrap-around written out.
use Prim.Native.Nat.{ℕ, ◌+◌, ◌-◌, ◌*◌, ◌/◌, ◌%◌, ◌^◌}

abbrev pub u64_mod : ℕ
u64_mod = 2 ^ 64

abbrev pub u64 : ℕ → ℕ
u64 n = n % 2 ^ 64

-- `a + b` and `a - b` of type `uint64_t`.
abbrev pub add64 : ℕ → ℕ → ℕ
add64 a b = (a + b) % 2 ^ 64

abbrev pub sub64 : ℕ → ℕ → ℕ
sub64 a b = (a + 2 ^ 64 - b) % 2 ^ 64

-- `((x) + 7ULL) & ~7ULL`.
abbrev pub align64 : ℕ → ℕ
align64 x = (x + 7) % 2 ^ 64 / 8 * 8
