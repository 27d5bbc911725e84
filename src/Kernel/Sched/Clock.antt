-- ===== src/Kernel/Sched/Clock.antt =====
-- The clock interrupt and the timeline.
use prettyos.Common.{
  ℕ, ◌+◌, ◌-◌, ◌%◌, ◌^◌, ◌≤◌, ◌<◌, ◌≡◌, ◌≢◌, ◌∙◌, true, some, List, ◌∷◌, ◌==◌, arith,
}
use prettyos.Kernel.Sched.{
  Rbtree, IsRbtree, Sched, set_at, tick, clock_handler, nr_process, task_running,
}
use prettyos.Kernel.Sched.Fair.{
  IsTimeline, Switched, schedule-Switched, set_here, set_apart, Agree-apart, Small-Agree,
  Ascending-Agree,
}

-- A tick moves the current task out of order at most.
pub tick-IsTimeline :
    (s : Sched) (f : ℕ) (fs : List ℕ)
    → IsTimeline s f fs
    → (s.vruntime s.current - s.min_vruntime) + s.vruntime f + 1 < 2 ^ 31
    → s.vruntime s.current < 2 ^ 31
    → IsTimeline (tick s) f fs
unfolding tick
tick-IsTimeline s f fs t b c =
    let z = (s.vruntime s.current + 1) % 2 ^ 32 in
    let w = set_at s.vruntime s.current z in
    let o = set_apart s.vruntime s.current z in
    let e : w s.current ≡ s.vruntime s.current + 1 =
      set_here s.vruntime s.current z ∙ omega arith in
    let v : w f ≡ s.vruntime f = o f t.apart.0 in
    let g = Agree-apart w s.vruntime s.current (f ∷ fs) o t.apart in
    let k = t.relative in
    record {
      before = t.before;
      after = t.after;
      list = t.list;
      rest = t.rest;
      apart = t.apart;
      small = Small-Agree w s.vruntime (f ∷ fs) g t.small;
      ascending = Ascending-Agree w s.vruntime (f ∷ fs) g t.ascending;
      relative = rw e (omega arith);
      bound = rw e (rw v (omega arith));
    }

ticked :
    (s : Sched) (f : ℕ)
    → s.min_vruntime ≤ s.vruntime s.current
    → s.vruntime s.current < 2 ^ 31
    → f ≢ s.current
    → ((tick s).vruntime s.current - s.min_vruntime) + (tick s).vruntime f
      ≡ (s.vruntime s.current - s.min_vruntime) + s.vruntime f + 1
unfolding tick
ticked s f k c n =
    let z = (s.vruntime s.current + 1) % 2 ^ 32 in
    let e : set_at s.vruntime s.current z s.current ≡ s.vruntime s.current + 1 =
      set_here s.vruntime s.current z ∙ omega arith in
    rw e (rw (set_apart s.vruntime s.current z f n) (omega arith))

-- The fourth tick of the clock, not nested, where the red-black library keeps its laws, the current
-- task runs and is on the timeline, the others are in the order of their keys and nothing
-- overflows: the task of the least key is current, and the new key of the one before is one tick further
-- from it than before. If no other task has that key, the one before is on the timeline between the tasks of
-- smaller and those of greater keys; if one has it, the one before is not on the timeline.
pub clock_handler-Switched :
    (rb : Rbtree)
    → IsRbtree rb
    → (s : Sched) (f : ℕ) (fs : List ℕ) → IsTimeline s f fs
    → s.state s.current ≡ task_running
    → s.jiffies < 2 ^ 32
    → s.jiffies % nr_process ≡ 3
    → (s.vruntime s.current - s.min_vruntime) + s.vruntime f + 1 < 2 ^ 31
    → s.vruntime s.current < 2 ^ 31
    → (s' : Sched) × (clock_handler rb 0 s ≡ some s')
      × (s'.vruntime s.current ≡ (s.vruntime s.current - s.min_vruntime) + s.vruntime f + 1)
      × Switched (tick s) f fs s'
unfolding clock_handler tick
clock_handler-Switched rb h s f fs t r j q b c =
    let t' = tick-IsTimeline s f fs t b c in
    let (s', e, w) = schedule-Switched rb h (tick s) f fs t' r in
    let d : ((tick s).jiffies % nr_process == 0) ≡ true = ground arith in
    let k = t.relative in (s', rw d e, w.key ∙ ticked s f k c t.apart.0, w)
