-- ===== src/Common/Bits.antt =====
-- Facts over a small range, by checking every value.
use Prim.Native.Nat.{ℕ, zero, suc, ◌<◌}
use mathlib.Core.Path.{◌≡◌, ap, ◌∙◌}
use mathlib.Core.Logic.{inl, inr}
use mathlib.Core.Bool.{Bool, true, ◌&&◌}
use native.Mathlib.Omega.{arith}
use prettyos.Common.Tests.{◌==◌, ==_iff, Bool-cases}

-- Whether the test passes for each number under the limit.
unfoldable pub all_below : ℕ → (ℕ → Bool) → Bool
all_below zero test = true
all_below (suc limit) test = all_below limit test && test limit

pub all_below_sound :
    (limit : ℕ) (test : ℕ → Bool) (i : ℕ) → all_below limit test ≡ true → i < limit → test i ≡ true
unfolding all_below
all_below_sound zero test i passed below = absurd (omega arith)
all_below_sound (suc limit) test i passed below = elim (Bool-cases (i == limit)) [
  | inl same ↦ ap test ((==_iff i limit).0 same) ∙ ground arith
  | inr other ↦ all_below_sound limit test i (ground arith) (ground arith)
]
