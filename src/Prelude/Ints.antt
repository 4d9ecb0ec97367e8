-- ===== src/Prelude/Ints.antt =====
-- Signed integers over the native numbers, and counters of 64 bits.
use Prim.Native.Nat.{ℕ, ◌+◌, ◌%◌, ◌^◌}

-- `negsuc n` is -(n + 1).
pub data ℤ : Type 0 where
  pos : ℕ → ℤ
  negsuc : ℕ → ℤ

-- `atomic.Uint64.Add` and `++` on a `uint64`: the sum wraps round.
abbrev pub add_uint64 : ℕ → ℕ → ℕ
add_uint64 a b = (a + b) % 2 ^ 64
