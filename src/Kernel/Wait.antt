-- ===== src/Kernel/Wait.antt =====
-- Wait queues and semaphores: kernel/wait.c and include/linux/wait.h. A node of a queue is an address of
-- the links and of the task; NULL is 0, and so is a task that is NULL. The state of a task is a function of the task.
mod Tests
pub mod Wake
pub mod Sleep
use prettyos.Common.{
  ℕ, zero, suc, ◌+◌, ◌-◌, ◌%◌, ◌^◌, Bool, true, false, ◌&&◌, ◌||◌, List, [], ◌∷◌, ltb, ◌==◌,
  if◌then◌else◌,
}
use prettyos.Kernel.Sched.{set_at, task_running, task_interruptible, task_uninterruptible}

-- One queue, `*wq`, with the semaphore's count where it has one, and the tasks
pub record Waits : Type 0 where
  pub wq : ℕ
  pub count : ℕ
  pub task : ℕ → ℕ
  pub next : ℕ → ℕ
  pub state : ℕ → ℕ
  pub current : ℕ

-- A read or a write at NULL, a loop that has run out of fuel, and the state after the call
pub data Run : Type 0 where
  at_null : Run
  ran_out : Run
  done : Waits → Run

abbrev pub null : ℕ
null = 0

-- The next call, where there is a state to go on with
unfoldable pub and_then : Run → (Waits → Run) → Run
and_then at_null f = at_null
and_then ran_out f = ran_out
and_then (done s) f = f s

unfoldable pub add_wait_queue : ℕ → Waits → Run
add_wait_queue wait s =
    if s.wq == null then at_null else done (record s { next = set_at s.next wait null; wq = wait })

-- The walk to the node before `wait`, on fuel, and the write of its link
unfoldable pub unlink_loop : ℕ → ℕ → ℕ → Waits → Run
unlink_loop zero tmp wait s = ran_out
unlink_loop (suc fuel) tmp wait s = elim (tmp == null) [
  | true ↦ at_null
  | false ↦ elim (s.next tmp == wait) [
    | true ↦ done (record s { next = set_at s.next tmp (s.next wait) })
    | false ↦ unlink_loop fuel (s.next tmp) wait s
  ]
]

unfoldable pub clear_next : ℕ → Waits → Run
clear_next wait s = done (record s { next = set_at s.next wait null })

-- The first test of `remove_wait_queue` assigns to `*wq` before the second one.
unfoldable pub remove_wait_queue : ℕ → ℕ → Waits → Run
remove_wait_queue fuel wait s =
    let s' : Waits = if s.wq == wait then record s { wq = s.next wait } else s in
    if (s.wq == wait) && (s.next wait == wait)
    then clear_next wait (record s { wq = null })
    else and_then (unlink_loop fuel wait wait s') (clear_next wait)

unfoldable pub is_sleeping : ℕ → Bool
is_sleeping state = (state == task_interruptible) || (state == task_uninterruptible)

unfoldable pub is_interruptible : ℕ → Bool
is_interruptible state = state == task_interruptible

-- The body of the loop of `wake_up`: `which` is the test of the state.
unfoldable pub wake_task : (ℕ → Bool) → ℕ → Waits → Waits
wake_task which task s =
    if task == null
    then s
    else if which (s.state task)
    then record s { state = set_at s.state task task_running }
    else s

unfoldable pub wake_loop : (ℕ → Bool) → ℕ → ℕ → Waits → Run
wake_loop which zero tmp s = ran_out
wake_loop which (suc fuel) tmp s =
    let s' = wake_task which (s.task tmp) s in
    elim ((s'.next tmp == null) || (s'.next tmp == s'.wq)) [
      | true ↦ done s'
      | false ↦ wake_loop which fuel (s'.next tmp) s'
    ]

-- `wake_up` and `wake_up_interruptible` differ in the test only; `wq` itself is not NULL in any call.
unfoldable pub wake_with : (ℕ → Bool) → ℕ → Waits → Run
wake_with which fuel s = if s.wq == null then done s else wake_loop which fuel s.wq s

unfoldable pub wake_up : ℕ → Waits → Run
wake_up fuel s = wake_with is_sleeping fuel s

unfoldable pub wake_up_interruptible : ℕ → Waits → Run
wake_up_interruptible fuel s = wake_with is_interruptible fuel s

unfoldable pub set_state : ℕ → Waits → Waits
set_state state s = record s { state = set_at s.state s.current state }

-- `__sleep_on`: `wait` is the node on the stack, and `schedule` returns when the task is chosen again.
unfoldable pub sleep_with : (Waits → Waits) → ℕ → ℕ → ℕ → Waits → Run
sleep_with schedule fuel wait state s =
    let s1 = set_state state s in
    let s2 : Waits = record s1 {
      task = set_at s1.task wait s1.current;
      next = set_at s1.next wait null;
    } in
    and_then (add_wait_queue wait s2) (λ s3. remove_wait_queue fuel wait (schedule s3))

unfoldable pub interruptible_sleep_on : (Waits → Waits) → ℕ → ℕ → Waits → Run
interruptible_sleep_on schedule fuel wait s = sleep_with schedule fuel wait task_interruptible s

unfoldable pub sleep_on : (Waits → Waits) → ℕ → ℕ → Waits → Run
sleep_on schedule fuel wait s = sleep_with schedule fuel wait task_uninterruptible s

-- The count of a semaphore is an `int`.
unfoldable pub is_free : Waits → Bool
is_free s = ltb 0 s.count && ltb s.count (2 ^ 31)

-- The loop of `__down`
unfoldable pub down_loop : (Waits → Waits) → ℕ → Waits → Run
down_loop schedule zero s = ran_out
down_loop schedule (suc fuel) s = elim (is_free s) [
  | true ↦ done s
  | false ↦ down_loop schedule fuel (set_state task_uninterruptible (schedule s))
]

-- `__down`
unfoldable pub wait_down : (Waits → Waits) → ℕ → ℕ → Waits → Run
wait_down schedule fuel wait s =
    let s1 : Waits = record s {
      task = set_at s.task wait s.current;
      next = set_at s.next wait null;
    } in
    and_then (add_wait_queue wait s1) (λ s2.
      and_then (down_loop schedule fuel (set_state task_uninterruptible s2))
        (λ s3. remove_wait_queue fuel wait (set_state task_running s3)))

unfoldable pub take_one : Waits → Run
take_one s = done (record s { count = (s.count + 2 ^ 32 - 1) % 2 ^ 32 })

unfoldable pub down : (Waits → Waits) → ℕ → ℕ → Waits → Run
down schedule fuel wait s =
    if is_free s then take_one s else and_then (wait_down schedule fuel wait s) take_one

unfoldable pub up : ℕ → Waits → Run
up fuel s = wake_up fuel (record s { count = (s.count + 1) % 2 ^ 32 })
