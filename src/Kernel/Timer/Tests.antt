-- ===== src/Kernel/Timer/Tests.antt =====
-- Timers at a concrete ring, and the theorems at concrete inputs.
use prettyos.Common.{◌≡◌, refl, some, [], ◌∷◌, arith, ◌==◌, if◌then◌else◌}
use prettyos.Common.Int.{ℤ}
use prettyos.Libc.Linked.Chain.{PathTo}
use prettyos.Kernel.Timer.{Timers, no_expiry, add_timer, del_timer}
use prettyos.Kernel.Timer.Ring.{IsRing, Added, add_timer-Added}
use prettyos.Kernel.Timer.Removal.{Deleted, del_timer-Deleted}

-- The header at 1, and timers at 2 and 3 that expire at 50 and 90.
abbrev ring : Timers
ring = record {
  links = record {
    next = λ k. if k == 1 then 2 else if k == 2 then 3 else 1;
    prev = λ k. if k == 1 then 3 else if k == 2 then 1 else 2;
  };
  expires = λ k. if k == 1 then no_expiry else if k == 2 then 50 else if k == 3 then 90 else 30;
  timer_header = 1;
  jiffies = 40;
}

ring-IsRing : IsRing ring (2 ∷ 3 ∷ [])
unfolding PathTo
ring-IsRing = record {
  linked = record {
    links = (refl, refl, (refl, refl, (refl, refl)));
    apart = ((omega arith, (omega arith, tt)), ((omega arith, tt), (tt, tt)));
    nonnull = (omega arith, (omega arith, (omega arith, tt)));
  };
  ordered = ((omega arith, tt), (tt, tt));
  header = refl;
}

add_timer-Added_example :
    (s' : Timers) × (add_timer 3 4 ring ≡ some s') × Added ring 4 (2 ∷ 3 ∷ []) s'
add_timer-Added_example =
    add_timer-Added 3 4 ring (2 ∷ 3 ∷ []) ring-IsRing (omega arith)
      (omega arith, (omega arith, (omega arith, tt))) (omega arith)

del_timer-Deleted_example :
    (out : ℤ × Timers) × (del_timer 2 3 ring ≡ some out) × Deleted ring 3 (2 ∷ []) out
del_timer-Deleted_example = del_timer-Deleted 2 3 ring (2 ∷ []) [] ring-IsRing (omega arith)
