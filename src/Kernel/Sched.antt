-- ===== src/Kernel/Sched.antt =====
-- The scheduler: kernel/sched.c, the timeline of kernel/sched_fair.c, and `clock_handler` of
-- kernel/clock.c. A task is a number; its fields are functions of it, and an `int` or an `unsigned int`
-- is its 32 bits. The timeline is the tree of the tasks; the red-black library that balances it,
-- lib/rbtree.c, is the parameter `Rbtree`.
mod Tests
pub mod Timeline
pub mod Fair
pub mod Clock
pub mod RoundRobin
use prettyos.Common.{
  ℕ, zero, suc, ◌+◌, ◌-◌, ◌*◌, ◌%◌, ◌^◌, ◌≤◌, ◌<◌, ◌≡◌, ◌≢◌, All, Bool, true, false, ◌&&◌, Option,
  none, some, List, [], ◌∷◌, ◌++◌, ltb, leb, ◌==◌, if◌then◌else◌,
}

-- A node has a colour, which is the library's; `rb_link_node` makes it red.
pub data Tree : Type 0 where
  leaf : Tree
  node : Bool → Tree → ℕ → Tree → Tree

-- The nodes of a tree from left to right
unfoldable pub to_list : Tree → List ℕ
to_list leaf = []
to_list (node b l k r) = to_list l ++ (k ∷ to_list r)

-- `rb_insert_color` after a node was linked, `rb_erase` of a node, and `rb_first`
pub record Rbtree : Type 0 where
  pub rb_insert_color : ℕ → Tree → Tree
  pub rb_erase : ℕ → Tree → Tree
  pub rb_first : Tree → Option ℕ

-- Rotations and colours leave the nodes in order, a removal takes out the one node, and the first node
-- is the leftmost.
abbrev pub first_of : List ℕ → Option ℕ
first_of [] = none
first_of (x ∷ xs) = some x

pub record IsRbtree (rb : Rbtree) : Type 0 where
  pub same : (k : ℕ) (t : Tree) → to_list (rb.rb_insert_color k t) ≡ to_list t
  pub erased :
      (k : ℕ) (t : Tree) (xs ys : List ℕ)
      → to_list t ≡ xs ++ (k ∷ ys)
      → All (λ y. y ≢ k) (xs ++ ys)
      → to_list (rb.rb_erase k t) ≡ xs ++ ys
  pub first : (t : Tree) → rb.rb_first t ≡ first_of (to_list t)

-- The part of `sched_rq` that `struct cfs_rq` is, the tasks, `current` and the clock's counters
pub record Sched : Type 0 where
  pub vruntime : ℕ → ℕ
  pub state : ℕ → ℕ
  pub task_ticks : ℕ → ℕ
  pub task_timeline : Tree
  pub min_vruntime : ℕ
  pub current : ℕ
  pub jiffies : ℕ
  pub ticks : ℕ

abbrev pub task_running : ℕ
task_running = 0

abbrev pub task_interruptible : ℕ
task_interruptible = 1

abbrev pub task_uninterruptible : ℕ
task_uninterruptible = 2

abbrev pub nr_process : ℕ
nr_process = 4

abbrev pub first_min_vruntime : ℕ
first_min_vruntime = 100

unfoldable pub set_at : (ℕ → ℕ) → ℕ → ℕ → ℕ → ℕ
set_at f p x k = if p == k then x else f k

-- The difference of two `unsigned int` as an `int` is negative.
unfoldable pub is_before : ℕ → ℕ → Bool
is_before a b = leb (2 ^ 31) ((a + 2 ^ 32 - b) % 2 ^ 32)

-- The walk of `ts_insert` to the place of the task, with the node linked there; `none` where it meets
-- a node of the same key.
unfoldable pub link_at : (ℕ → ℕ) → ℕ → Tree → Option Tree
link_at v p leaf = some (node false leaf p leaf)
link_at v p (node b l k r) = elim (is_before (v p) (v k)) [
  | true ↦ elim (link_at v p l) [ none ↦ none | some l' ↦ some (node b l' k r) ]
  | false ↦ elim (v p == v k) [
    | true ↦ none
    | false ↦ elim (link_at v p r) [ none ↦ none | some r' ↦ some (node b l k r') ]
  ]
]

-- The end of `ts_insert`: the tree before, and the tree with the linked node
unfoldable pub balanced : Rbtree → ℕ → Tree → Option Tree → ℕ × Tree
balanced rb p t none = (0, t)
balanced rb p t (some t') = (1, rb.rb_insert_color p t')

unfoldable pub ts_insert : Rbtree → (ℕ → ℕ) → ℕ → Tree → ℕ × Tree
ts_insert rb v p t = balanced rb p t (link_at v p t)

unfoldable pub ts_earse : Rbtree → ℕ → Tree → Tree
ts_earse rb p t = rb.rb_erase p t

unfoldable pub ts_leftmost : Rbtree → Tree → Option ℕ
ts_leftmost rb t = rb.rb_first t

-- The walk of `se_search`
unfoldable pub se_search : (ℕ → ℕ) → ℕ → Tree → Option ℕ
se_search v key leaf = none
se_search v key (node b l k r) = elim (is_before key (v k)) [
  | true ↦ se_search v key l
  | false ↦ elim (key == v k) [ true ↦ some k | false ↦ se_search v key r ]
]

-- The timeline's part; the other writes are to the counts of running tasks, to the list of the round-robin queue,
-- which shares its memory with the timeline, and to the numbers of processes.
unfoldable pub init_sched : Sched → Sched
init_sched s = record s { task_timeline = leaf; min_vruntime = first_min_vruntime }

unfoldable pub plus_min : Sched → ℕ → Sched
plus_min s p = record s {
  vruntime = set_at s.vruntime p ((s.vruntime p + s.min_vruntime) % 2 ^ 32);
}

unfoldable pub minus_min : Sched → ℕ → Sched
minus_min s p = record s {
  vruntime = set_at s.vruntime p ((s.vruntime p + 2 ^ 32 - s.min_vruntime) % 2 ^ 32);
}

-- The result of `ts_insert` is not looked at.
unfoldable pub cfs_enqueue : Rbtree → Sched → ℕ → ℕ → Sched
cfs_enqueue rb s p wakeup =
    let s' : Sched = if wakeup == 0 then plus_min s p else s in
    record s' { task_timeline = (ts_insert rb s'.vruntime p s'.task_timeline).1 }

unfoldable pub cfs_dequeue : Rbtree → Sched → ℕ → ℕ → Sched
cfs_dequeue rb s p sleep =
    let s' : Sched = if sleep == 1 then minus_min s p else s in
    record s' { task_timeline = ts_earse rb p s'.task_timeline }

-- The rest of `cfs_next_task` once the leftmost task is known
unfoldable pub take_next : Rbtree → Sched → ℕ → Sched
take_next rb s p =
    let s' : Sched = record s { min_vruntime = s.vruntime p } in
    if s'.state s'.current == task_running then cfs_enqueue rb s' s'.current 0 else s'

-- `none` where the timeline is empty without the current task: the code reads at NULL then.
unfoldable pub taken : Rbtree → Sched → Option ℕ → Option (ℕ × Sched)
taken rb s none = none
taken rb s (some p) = some (p, take_next rb s p)

unfoldable pub cfs_next_task : Rbtree → Sched → Option (ℕ × Sched)
cfs_next_task rb s =
    let s' = cfs_dequeue rb (minus_min s s.current) s.current 0 in
    taken rb s' (ts_leftmost rb s'.task_timeline)

unfoldable pub switched : Option (ℕ × Sched) → Option Sched
switched none = none
switched (some (p, s)) = some (record s { current = p })

unfoldable pub schedule : Rbtree → Sched → Option Sched
schedule rb s = switched (cfs_next_task rb s)

unfoldable pub unblock : Sched → ℕ → Sched
unblock s p = record s { state = set_at s.state p task_running }

unfoldable pub block : Rbtree → Sched → ℕ → Option Sched
block rb s p = schedule rb (record s { state = set_at s.state p task_interruptible })

-- The counters, before the test for a nested interrupt
unfoldable pub tick : Sched → Sched
tick s = record s {
  jiffies = (s.jiffies + 1) % 2 ^ 32;
  ticks = (s.ticks + 1) % 2 ^ 32;
  task_ticks = set_at s.task_ticks s.current ((s.task_ticks s.current + 2 ^ 32 - 1) % 2 ^ 32);
  vruntime = set_at s.vruntime s.current ((s.vruntime s.current + 1) % 2 ^ 32);
}

-- `jiffies` is signed, but 2 ^ 32 is a multiple of `NR_PROCESS`.
unfoldable pub clock_handler : Rbtree → ℕ → Sched → Option Sched
clock_handler rb k_reenter s =
    let s' = tick s in
    if k_reenter == 0
    then (if s'.jiffies % nr_process == 0 then schedule rb s' else some s')
    else some s'

-- The round-robin queue: the tasks of `rr_rq_list` in order, with their `ticks`, `priority` and `state`
pub record RrRq : Type 0 where
  pub rr_rq_list : List ℕ
  pub ticks : ℕ → ℕ
  pub priority : ℕ → ℕ
  pub state : ℕ → ℕ

-- A failed `assert` and an empty queue panic.
pub data Next : Type 0 where
  ran_out : Next
  panicked : Next
  next : ℕ → Next

-- `ticks > greatest_ticks` for `int`s, where `greatest_ticks` is never negative
unfoldable pub is_greater : ℕ → ℕ → Bool
is_greater t greatest = ltb greatest t && ltb t (2 ^ 31)

-- `greatest_ticks` and `p` after the walk
unfoldable pub greatest_of : (ℕ → ℕ) → List ℕ → ℕ × ℕ → ℕ × ℕ
greatest_of ticks [] best = best
greatest_of ticks (t ∷ ts) (greatest, p) =
    greatest_of ticks ts (if is_greater (ticks t) greatest then (ticks t, t) else (greatest, p))

unfoldable pub all_running : (ℕ → ℕ) → List ℕ → Bool
all_running state [] = true
all_running state (t ∷ ts) = (state t == task_running) && all_running state ts

unfoldable pub refill : List ℕ → (ℕ → ℕ) → (ℕ → ℕ) → ℕ → ℕ
refill [] priority ticks = ticks
refill (t ∷ ts) priority ticks = refill ts priority (set_at ticks t (priority t))

unfoldable pub refilled : RrRq → RrRq
refilled q = record q { ticks = refill q.rr_rq_list q.priority q.ticks }

-- There is a task, and all are running.
unfoldable pub can_choose : (ℕ → ℕ) → List ℕ → Bool
can_choose state [] = false
can_choose state (t ∷ ts) = all_running state (t ∷ ts)

-- After the walk: `again` is the jump to `rr_repeat`.
unfoldable pub after_walk : (RrRq → Next × RrRq) → RrRq → ℕ × ℕ → Next × RrRq
after_walk again q (greatest, p) = elim (greatest == 0) [
  | true ↦ again (refilled q)
  | false ↦ (next p, q)
]

-- `rr_repeat:`, on fuel
unfoldable pub rr_next_task : ℕ → RrRq → Next × RrRq
rr_next_task zero q = (ran_out, q)
rr_next_task (suc fuel) q = elim (can_choose q.state q.rr_rq_list) [
  | false ↦ (panicked, q)
  | true ↦ after_walk (rr_next_task fuel) q (greatest_of q.ticks q.rr_rq_list (0, 0))
]

-- `list_add` inserts at the end.
unfoldable pub rr_enqueue : RrRq → ℕ → RrRq
rr_enqueue q p = record q { rr_rq_list = q.rr_rq_list ++ (p ∷ []) }

unfoldable pub removed : ℕ → List ℕ → List ℕ
removed p [] = []
removed p (x ∷ xs) = if p == x then xs else x ∷ removed p xs

unfoldable pub rr_dequeue : RrRq → ℕ → RrRq
rr_dequeue q p = record q { rr_rq_list = removed p q.rr_rq_list }
