-- ===== src/Kernel/Wait/Tests.antt =====
-- Wait queues at concrete queues, and the theorems at concrete inputs.
use prettyos.Common.{◌≡◌, refl, inr, [], ◌∷◌, arith, if◌then◌else◌, ◌==◌}
use prettyos.Kernel.Wait.{Waits, done, wake_up, is_sleeping}
use prettyos.Kernel.Wait.Wake.{Woken, wake_up-Woken}

-- Two nodes, at 10 and 20, in a ring; task 1 waits and task 2 sleeps.
abbrev queue : Waits
queue = record {
  wq = 10;
  count = 1;
  task = λ k. if k == 10 then 1 else 2;
  next = λ k. if k == 10 then 20 else 10;
  state = λ k. if k == 1 then 2 else 1;
  current = 3;
}

wake_up-Woken_example :
    (s' : Waits) × (wake_up 2 queue ≡ done s') × Woken is_sleeping queue (1 ∷ 2 ∷ []) s'
wake_up-Woken_example =
    wake_up-Woken 2 queue (20 ∷ []) (omega arith) (refl, omega arith, omega arith, inr refl)
      (omega arith)
