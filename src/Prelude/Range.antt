-- ===== src/Prelude/Range.antt =====
-- Facts about bytes that evaluation checks over a range.
use Prim.Native.Nat.{ℕ, zero, suc, ◌+◌, ◌≤◌, ◌<◌}
use mathlib.Core.Path.{◌≡◌}
use mathlib.Core.Logic.{◌≢◌, inl, inr}
use mathlib.Core.Bool.{Bool, true, false, ◌&&◌}
use native.Mathlib.Omega.{arith}
use kratos_transport_rpc.Prelude.Tests.{◌==◌, ==_iff, Bool-cases}

-- A test passes for the `count` values from `start` on.
unfoldable pub passes : (ℕ → Bool) → ℕ → ℕ → Bool
passes test start zero = true
passes test start (suc count) = passes test (start + 1) count && test start

==_apart : (v w : ℕ) → (v == w) ≡ false → v ≢ w
==_apart v w h e = ground (arith, (==_iff v w).1)

pub passes_at :
    (test : ℕ → Bool) (count start v : ℕ)
    → passes test start count ≡ true
    → start ≤ v
    → v < start + count
    → test v ≡ true
unfolding passes
passes_at test zero start v all from below = absurd (omega arith)
passes_at test (suc count) start v all from below = elim (Bool-cases (v == start)) [
  | inl here ↦ rw ((==_iff v start).0 here) (ground arith)
  | inr later ↦
      let other = ==_apart v start later in
      passes_at test count (start + 1) v (ground arith) (omega arith) (omega arith)
]
