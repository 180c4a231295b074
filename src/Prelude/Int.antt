-- ===== src/Prelude/Int.antt =====
-- Integers over the native numbers, under the library's names. The program carries coordinates and
-- compares none of them, so no operation is needed. `negsuc n` is -(n + 1).
use Prim.Native.Nat.{ℕ}

pub data ℤ : Type 0 where
  pos : ℕ → ℤ
  negsuc : ℕ → ℤ
