-- ===== src/Kernel/Sched/Tests.antt =====
-- The scheduler at concrete tasks, and the theorems at concrete inputs.
use prettyos.Common.{
  ℕ, ◌+◌, ◌-◌, ◌≤◌, ◌≡◌, ◌≢◌, ◌⊎◌, inl, refl, ap, ◌∙◌, true, false, some, List, [], ◌∷◌, ◌++◌, All,
  arith, ◌==◌, if◌then◌else◌,
}
use prettyos.Kernel.Sched.{
  Tree, leaf, node, to_list, first_of, Rbtree, IsRbtree, Sched, schedule, clock_handler, tick, RrRq,
  next, rr_next_task, all_running, can_choose, after_walk, greatest_of, is_greater, refilled,
  refill, set_at, removed,
}
use prettyos.Kernel.Sched.Fair.{IsTimeline, Switched, schedule-Switched}
use prettyos.Kernel.Sched.Clock.{clock_handler-Switched}
use prettyos.Kernel.Sched.RoundRobin.{Best, score, rr_next_task-Best}

-- A library whose trees lean to the right: a removal lists the nodes again.
abbrev lined : List ℕ → Tree
lined [] = leaf
lined (x ∷ xs) = node true leaf x (lined xs)

lined_list : (xs : List ℕ) → to_list (lined xs) ≡ xs
unfolding to_list
lined_list [] = refl
lined_list (x ∷ xs) = ap (◌∷◌ x) (lined_list xs)

removed_lem :
    (k : ℕ) (xs ys : List ℕ) → All (λ y. y ≢ k) (xs ++ ys) → removed k (xs ++ (k ∷ ys)) ≡ xs ++ ys
unfolding removed
removed_lem k [] ys n = let c : (k == k) ≡ true = ground arith in rw c refl
removed_lem k (x ∷ xs) ys n =
    let d = n.0 in
    let c : (k == x) ≡ false = ground arith in rw c (ap (◌∷◌ x) (removed_lem k xs ys n.1))

abbrev library : Rbtree
library = record {
  rb_insert_color = λ k t. t;
  rb_erase = λ k t. lined (removed k (to_list t));
  rb_first = λ t. first_of (to_list t);
}

library-IsRbtree : IsRbtree library
library-IsRbtree = record {
  same = λ k t. refl;
  erased = λ k t xs ys e n.
      lined_list (removed k (to_list t)) ∙ ap (removed k) e ∙ removed_lem k xs ys n;
  first = λ t. refl;
}

abbrev key : ℕ → ℕ
key k = if k == 1 then 103 else if k == 2 then 101 else if k == 3 then 104 else 100

-- Task 1 is current, at 103; task 2 stands at 101 and task 3 at 104.
abbrev tasks : Sched
tasks = record {
  vruntime = key;
  state = λ k. 0;
  task_ticks = λ k. 10;
  task_timeline = lined (2 ∷ 1 ∷ 3 ∷ []);
  min_vruntime = 100;
  current = 1;
  jiffies = 3;
  ticks = 3;
}

tasks-IsTimeline : IsTimeline tasks 2 (3 ∷ [])
unfolding to_list
tasks-IsTimeline = record {
  before = 2 ∷ [];
  after = 3 ∷ [];
  list = refl;
  rest = refl;
  apart = (omega arith, (omega arith, tt));
  small = (omega arith, (omega arith, tt));
  ascending = ((omega arith, tt), (tt, tt));
  relative = omega arith;
  bound = omega arith;
}

schedule-Switched_example :
    (s' : Sched) × (schedule library tasks ≡ some s') × Switched tasks 2 (3 ∷ []) s'
schedule-Switched_example =
    schedule-Switched library library-IsRbtree tasks 2 (3 ∷ []) tasks-IsTimeline refl

-- The same tasks, before the first tick of task 1
abbrev untouched : Sched
untouched = record tasks { vruntime = λ k. if k == 1 then 100 else key k }

untouched-IsTimeline : IsTimeline untouched 2 (3 ∷ [])
unfolding to_list
untouched-IsTimeline = record {
  before = 2 ∷ [];
  after = 3 ∷ [];
  list = refl;
  rest = refl;
  apart = (omega arith, (omega arith, tt));
  small = (omega arith, (omega arith, tt));
  ascending = ((omega arith, tt), (tt, tt));
  relative = omega arith;
  bound = omega arith;
}

clock_handler-Switched_example :
    (s' : Sched) × (clock_handler library 0 tasks ≡ some s')
    × (s'.vruntime 1 ≡ (103 - 100) + 101 + 1)
    × Switched (tick tasks) 2 (3 ∷ []) s'
clock_handler-Switched_example =
    clock_handler-Switched library library-IsRbtree tasks 2 (3 ∷ []) tasks-IsTimeline refl
      (omega arith) (omega arith) (omega arith) (omega arith)

-- Three round-robin tasks whose time is spent
abbrev spent : RrRq
spent = record {
  rr_rq_list = 1 ∷ 2 ∷ 3 ∷ [];
  ticks = λ k. 0;
  priority = λ k. k + 4;
  state = λ k. 0;
}

chosen : (rr_next_task 2 spent).0 ≡ next 3
unfolding rr_next_task can_choose all_running after_walk greatest_of is_greater refilled refill
    set_at
chosen = refl

rr_next_task-Best_example :
    (p : ℕ) × (q' : RrRq) × (rr_next_task 2 spent ≡ (next p, q'))
    × Best q'.ticks (1 ∷ 2 ∷ 3 ∷ []) p
    × ((q' ≡ spent)
        ⊎ (All (λ t. score (spent.ticks t) ≤ 0) (1 ∷ 2 ∷ 3 ∷ [])
            × All (λ t. q'.ticks t ≡ spent.priority t) (1 ∷ 2 ∷ 3 ∷ [])))
unfolding score all_running
rr_next_task-Best_example = rr_next_task-Best 0 spent 1 (inl refl) refl (omega arith)
