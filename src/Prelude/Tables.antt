-- ===== src/Prelude/Tables.antt =====
-- A fact about every number of a range, checked by evaluation.
use Prim.Native.Nat.{ℕ, zero, suc, ◌+◌, ◌<◌, ◌≤◌}
use mathlib.Core.Path.{◌≡◌}
use mathlib.Core.Bool.{Bool, true, false}
use native.Mathlib.Omega.{arith}
use screx_v.Prelude.Tests.{if◌then◌else◌}

-- The test holds of `count` numbers from `start` on.
unfoldable pub holds_from : (start count : ℕ) → (ℕ → Bool) → Bool
holds_from start zero test = true
holds_from start (suc count) test = if holds_from (start + 1) count test then test start else false

pub holds_from-at :
    (start count : ℕ) (test : ℕ → Bool) (k : ℕ)
    → holds_from start count test ≡ true
    → start ≤ k
    → k < start + count
    → test k ≡ true
unfolding holds_from
holds_from-at start zero test k checked above below = absurd (omega arith)
holds_from-at start (suc count) test k checked above below =
    ground (arith, holds_from-at (start + 1) count test k)
