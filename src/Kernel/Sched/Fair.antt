-- ===== src/Kernel/Sched/Fair.antt =====
-- The choice of the next task from the timeline.
use prettyos.Common.{
  ℕ, ◌+◌, ◌-◌, ◌%◌, ◌^◌, ◌≤◌, ◌<◌, ◌≡◌, ◌≢◌, refl, sym, ap, subst, ◌∙◌, true, false, Option, none,
  some, List, [], ◌∷◌, ◌++◌, All, ◌==◌, arith,
}
use prettyos.Kernel.Sched.{
  to_list, first_of, Rbtree, IsRbtree, Sched, set_at, ts_earse, ts_leftmost, plus_min, minus_min,
  cfs_enqueue, cfs_dequeue, take_next, taken, cfs_next_task, switched, schedule, block,
  task_running, task_interruptible,
}
use prettyos.Kernel.Sched.Timeline.{
  Ascending, Small, Placed, place, place-Placed, place_first, ts_insert-place,
}

pub set_here : (f : ℕ → ℕ) (p v : ℕ) → set_at f p v p ≡ v
unfolding set_at
set_here f p v = let c : (p == p) ≡ true = ground arith in rw c refl

pub set_apart : (f : ℕ → ℕ) (p v k : ℕ) → k ≢ p → set_at f p v k ≡ f k
unfolding set_at
set_apart f p v k n = let c : (p == k) ≡ false = ground arith in rw c refl

abbrev pub Agree : (ℕ → ℕ) → (ℕ → ℕ) → List ℕ → Type 0
Agree w v xs = All (λ y. w y ≡ v y) xs

pub Agree-apart :
    (w v : ℕ → ℕ) (p : ℕ) (xs : List ℕ)
    → ((k : ℕ) → k ≢ p → w k ≡ v k)
    → All (λ y. y ≢ p) xs
    → Agree w v xs
Agree-apart w v p [] h n = tt
Agree-apart w v p (x ∷ xs) h n = (h x n.0, Agree-apart w v p xs h n.1)

pub Small-Agree : (w v : ℕ → ℕ) (xs : List ℕ) → Agree w v xs → Small v xs → Small w xs
Small-Agree w v [] h s = tt
Small-Agree w v (x ∷ xs) h s = (rw h.0 s.0, Small-Agree w v xs h.1 s.1)

above-Agree :
    (w v : ℕ → ℕ) (a : ℕ) (xs : List ℕ)
    → Agree w v xs
    → All (λ y. a < v y) xs
    → All (λ y. a < w y) xs
above-Agree w v a [] h s = tt
above-Agree w v a (x ∷ xs) h s = (rw h.0 s.0, above-Agree w v a xs h.1 s.1)

pub Ascending-Agree : (w v : ℕ → ℕ) (xs : List ℕ) → Agree w v xs → Ascending v xs → Ascending w xs
Ascending-Agree w v [] h s = tt
Ascending-Agree w v (x ∷ xs) h s =
    (rw h.0 (above-Agree w v (v x) xs h.1 s.0), Ascending-Agree w v xs h.1 s.1)

-- A task whose key was relative to the least one is back on the timeline of the tasks zs.
pub record Enqueued (s : Sched) (p : ℕ) (zs : List ℕ) (s' : Sched) : Type 0 where
  pub key : s'.vruntime p ≡ s.vruntime p + s.min_vruntime
  pub others : (k : ℕ) → k ≢ p → s'.vruntime k ≡ s.vruntime k
  pub list : to_list s'.task_timeline ≡ place s'.vruntime p zs
  pub ascending : Ascending s'.vruntime (to_list s'.task_timeline)

pub cfs_enqueue-Enqueued :
    (rb : Rbtree)
    → IsRbtree rb
    → (s : Sched) (p : ℕ) → s.vruntime p + s.min_vruntime < 2 ^ 31
    → All (λ y. y ≢ p) (to_list s.task_timeline)
    → Small s.vruntime (to_list s.task_timeline)
    → Ascending s.vruntime (to_list s.task_timeline)
    → Enqueued s p (to_list s.task_timeline) (cfs_enqueue rb s p 0)
unfolding cfs_enqueue plus_min
cfs_enqueue-Enqueued rb h s p b n m a =
    let z = (s.vruntime p + s.min_vruntime) % 2 ^ 32 in
    let w = set_at s.vruntime p z in
    let zs = to_list s.task_timeline in
    let e : w p ≡ s.vruntime p + s.min_vruntime = set_here s.vruntime p z ∙ omega arith in
    let o = set_apart s.vruntime p z in
    let g = Agree-apart w s.vruntime p zs o n in
    let (l, q) =
      ts_insert-place rb h w p s.task_timeline (rw e b) (Small-Agree w s.vruntime zs g m)
        (Ascending-Agree w s.vruntime zs g a) in
    record { key = e; others = o; list = l; ascending = q }

-- The state after the current task is taken off the timeline, its key relative to the least one
abbrev aside : Rbtree → Sched → Sched
aside rb s = cfs_dequeue rb (minus_min s s.current) s.current 0

record Aside (s : Sched) (zs : List ℕ) (s' : Sched) : Type 0 where
  pub key : s'.vruntime s.current ≡ (s.vruntime s.current + 2 ^ 32 - s.min_vruntime) % 2 ^ 32
  pub others : (k : ℕ) → k ≢ s.current → s'.vruntime k ≡ s.vruntime k
  pub list : to_list s'.task_timeline ≡ zs
  pub state : s'.state ≡ s.state
  pub current : s'.current ≡ s.current

aside-Aside :
    (rb : Rbtree)
    → IsRbtree rb
    → (s : Sched) (xs ys : List ℕ) → to_list s.task_timeline ≡ xs ++ (s.current ∷ ys)
    → All (λ y. y ≢ s.current) (xs ++ ys)
    → Aside s (xs ++ ys) (aside rb s)
unfolding cfs_dequeue minus_min ts_earse
aside-Aside rb h s xs ys e n =
    let z = (s.vruntime s.current + 2 ^ 32 - s.min_vruntime) % 2 ^ 32 in
    record {
      key = set_here s.vruntime s.current z;
      others = set_apart s.vruntime s.current z;
      list = h.erased s.current s.task_timeline xs ys e n;
      state = refl;
      current = refl;
    }

schedule_takes :
    (rb : Rbtree) (s : Sched) (o : Option ℕ)
    → rb.rb_first (aside rb s).task_timeline ≡ o
    → schedule rb s ≡ switched (taken rb (aside rb s) o)
unfolding schedule cfs_next_task ts_leftmost
schedule_takes rb s o e = ap (λ x. switched (taken rb (aside rb s) x)) e

-- What `schedule` leaves, where the other tasks are f and fs: f, whose key is the least, is the current
-- task, and the one before is on the timeline again, unless another task has its new key.
pub record Switched (s : Sched) (f : ℕ) (fs : List ℕ) (s' : Sched) : Type 0 where
  pub current : s'.current ≡ f
  pub least : All (λ y. s.vruntime f < s.vruntime y) fs
  pub min : s'.min_vruntime ≡ s.vruntime f
  pub key : s'.vruntime s.current ≡ (s.vruntime s.current - s.min_vruntime) + s.vruntime f
  pub others : (k : ℕ) → k ≢ s.current → s'.vruntime k ≡ s.vruntime k
  pub list : to_list s'.task_timeline ≡ place s'.vruntime s.current (f ∷ fs)
  pub placed : Placed s'.vruntime s.current (f ∷ fs) (to_list s'.task_timeline)
  pub ascending : Ascending s'.vruntime (to_list s'.task_timeline)

-- The current task is on the timeline, and the others, f first, are in the order of their keys.
pub record IsTimeline (s : Sched) (f : ℕ) (fs : List ℕ) : Type 0 where
  pub before : List ℕ
  pub after : List ℕ
  pub list : to_list s.task_timeline ≡ before ++ (s.current ∷ after)
  pub rest : before ++ after ≡ f ∷ fs
  pub apart : All (λ y. y ≢ s.current) (f ∷ fs)
  pub small : Small s.vruntime (f ∷ fs)
  pub ascending : Ascending s.vruntime (f ∷ fs)
  pub relative : s.min_vruntime ≤ s.vruntime s.current
  pub bound : (s.vruntime s.current - s.min_vruntime) + s.vruntime f < 2 ^ 31

-- Where the red-black library keeps its laws, the current task runs and is on the timeline, and the
-- others are in the order of their keys, without overflow, `schedule` ends and makes the task of
-- the least key current, and the new key of the one before is its distance from the least key, added to
-- the next task's key. If no other task has that key, the one before is put among the others after those of a smaller key
-- and before those of a greater one; if one has it, the timeline is the others only, without it. In
-- both cases the keys on the timeline ascend.
pub schedule-Switched :
    (rb : Rbtree)
    → IsRbtree rb
    → (s : Sched) (f : ℕ) (fs : List ℕ) → IsTimeline s f fs
    → s.state s.current ≡ task_running
    → (s' : Sched) × (schedule rb s ≡ some s') × Switched s f fs s'
unfolding taken switched take_next cfs_enqueue cfs_dequeue plus_min minus_min
schedule-Switched rb h s f fs t r =
    let u = aside rb s in
    let d = aside-Aside rb h s t.before t.after t.list (rw t.rest t.apart) in
    let l : to_list u.task_timeline ≡ f ∷ fs = d.list ∙ t.rest in
    let e : rb.rb_first u.task_timeline ≡ some f = h.first u.task_timeline ∙ ap first_of l in
    let m : Sched = record u { min_vruntime = u.vruntime f } in
    let g = Agree-apart u.vruntime s.vruntime s.current (f ∷ fs) d.others t.apart in
    let vf : u.vruntime f ≡ s.vruntime f = d.others f t.apart.0 in
    let b = t.bound in
    let k = t.relative in
    let vc : u.vruntime s.current ≡ s.vruntime s.current - s.min_vruntime = d.key ∙ omega arith in
    let q =
      cfs_enqueue-Enqueued rb h m s.current (rw vc (rw vf b)) (rw l t.apart)
        (rw l (Small-Agree u.vruntime s.vruntime (f ∷ fs) g t.small))
        (rw l (Ascending-Agree u.vruntime s.vruntime (f ∷ fs) g t.ascending)) in
    let out = cfs_enqueue rb m s.current 0 in
    let run : (u.state u.current == task_running) ≡ true = rw d.state (rw d.current (rw r refl)) in
    let ls : to_list out.task_timeline ≡ place out.vruntime s.current (f ∷ fs) =
      q.list ∙ ap (place out.vruntime s.current) l in
    (
      record out { current = f },
      schedule_takes rb s (some f) e ∙ rw run (rw d.current refl),
      record {
        current = refl;
        least = t.ascending.0;
        min = vf;
        key = q.key ∙ rw vc (rw vf refl);
        others = λ j n. q.others j n ∙ d.others j n;
        list = ls;
        placed = subst (Placed out.vruntime s.current (f ∷ fs)) (sym ls) (
            place-Placed out.vruntime s.current (f ∷ fs) (
              Ascending-Agree out.vruntime u.vruntime (f ∷ fs)
                (Agree-apart out.vruntime u.vruntime s.current (f ∷ fs) q.others t.apart)
                (Ascending-Agree u.vruntime s.vruntime (f ∷ fs) g t.ascending)));
        ascending = q.ascending;
      },
    )

-- Where the red-black library keeps its laws, the current task runs, is on the timeline and has the
-- key `min_vruntime`, and the others are in the order of their keys, without overflow, `schedule`
-- leaves the task off the timeline: its new key is that of the next task.
pub schedule_loses :
    (rb : Rbtree)
    → IsRbtree rb
    → (s : Sched) (f : ℕ) (fs : List ℕ) → IsTimeline s f fs
    → s.state s.current ≡ task_running
    → s.vruntime s.current ≡ s.min_vruntime
    → (s' : Sched) × (schedule rb s ≡ some s') × (to_list s'.task_timeline ≡ f ∷ fs)
schedule_loses rb h s f fs t r e =
    let (s', q, w) = schedule-Switched rb h s f fs t r in
    let n = t.apart in
    let k : s'.vruntime s.current ≡ s'.vruntime f = w.key ∙ omega (arith, w.others f n.0) in
    (s', q, w.list ∙ place_first s'.vruntime s.current f fs k)

-- `block` of the current task, where the others are in the order of their keys, makes the task of the least key current
-- and leaves the others on the timeline.
block-Blocked :
    (rb : Rbtree)
    → IsRbtree rb
    → (s : Sched) (f : ℕ) (fs : List ℕ) → IsTimeline s f fs
    → (s' : Sched) × (block rb s s.current ≡ some s')
      × (s'.current ≡ f)
      × (s'.state s.current ≡ task_interruptible)
      × (to_list s'.task_timeline ≡ f ∷ fs)
unfolding block taken switched take_next
block-Blocked rb h s f fs t =
    let s0 : Sched = record s { state = set_at s.state s.current task_interruptible } in
    let u = aside rb s0 in
    let d = aside-Aside rb h s0 t.before t.after t.list (rw t.rest t.apart) in
    let l : to_list u.task_timeline ≡ f ∷ fs = d.list ∙ t.rest in
    let e : rb.rb_first u.task_timeline ≡ some f = h.first u.task_timeline ∙ ap first_of l in
    let z : s0.state s.current ≡ task_interruptible =
      set_here s.state s.current task_interruptible in
    let stop : (u.state u.current == task_running) ≡ false =
      rw d.state (rw d.current (rw z refl)) in
    (
      record u { min_vruntime = u.vruntime f; current = f },
      schedule_takes rb s0 (some f) e ∙ rw stop refl,
      refl,
      rw d.state z,
      l,
    )

-- With no other task on the timeline `schedule` reads at NULL.
schedule_alone :
    (rb : Rbtree)
    → IsRbtree rb
    → (s : Sched) → to_list s.task_timeline ≡ s.current ∷ []
    → schedule rb s ≡ none
unfolding taken switched
schedule_alone rb h s e =
    let d = aside-Aside rb h s [] [] e tt in
    schedule_takes rb s none (h.first (aside rb s).task_timeline ∙ ap first_of d.list)
