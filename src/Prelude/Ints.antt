-- ===== src/Prelude/Ints.antt =====
-- A C `int`, over the native numbers: `pos n` is n and `negsuc n` is -1 - n.
use Prim.Native.Nat.{ℕ}

pub data ℤ : Type 0 where
  pos : ℕ → ℤ
  negsuc : ℕ → ℤ
