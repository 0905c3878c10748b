-- ===== src/Base/Int.antt =====
-- Go's int, for the arguments that a caller may give a negative value. `negsuc n` is -(n + 1).
use Prim.Native.Nat.{ℕ, min}

pub data ℤ : Type 0 where
  pos : ℕ → ℤ
  negsuc : ℕ → ℤ

-- max(0, min(i, n))
unfoldable pub clamp : ℤ → ℕ → ℕ
clamp (pos i) n = min i n
clamp (negsuc i) n = 0
