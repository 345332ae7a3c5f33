-- ===== src/Base/Int.antt =====
-- Signed integers over the native numbers, for Go's `int` where a value may be negative.
use Prim.Native.Nat.{ℕ, zero, suc, ◌+◌}

-- `negsuc n` is -(n + 1).
pub data ℤ : Type 0 where
  pos : ℕ → ℤ
  negsuc : ℕ → ℤ

-- A number less another.
pub diff : ℕ → ℕ → ℤ
diff m zero = pos m
diff zero (suc n) = negsuc n
diff (suc m) (suc n) = diff m n

-- A number added to an integer.
unfoldable pub add_to : ℕ → ℤ → ℤ
unfolding diff
add_to n (pos m) = pos (m + n)
add_to n (negsuc m) = diff n (suc m)
