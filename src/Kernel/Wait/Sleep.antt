-- ===== src/Kernel/Wait/Sleep.antt =====
-- The sleeping side of a wait queue, and semaphores.
use prettyos.Common.{
  ℕ, suc, ◌+◌, ◌-◌, ◌%◌, ◌^◌, ◌<◌, ◌≡◌, ◌≢◌, refl, ap, ◌∙◌, true, false, ◌&&◌, List, ◌∷◌, length,
  map, ltb, ◌==◌, arith, Bool-cases, inl, inr, ==_iff,
}
use prettyos.Kernel.Sched.{set_at}
use prettyos.Kernel.Sched.Fair.{set_here}
use prettyos.Kernel.Wait.{
  Waits, Run, at_null, done, null, and_then, add_wait_queue, unlink_loop, remove_wait_queue,
  clear_next, set_state, sleep_with, is_free, wait_down, take_one, down, up, is_sleeping, wake_up,
  wake_with,
}
use prettyos.Kernel.Wait.Wake.{Nodes, Nodes-same, woken, wake_up-Woken}

add_empty : (wait : ℕ) (s : Waits) → s.wq ≡ null → add_wait_queue wait s ≡ at_null
unfolding add_wait_queue
add_empty wait s e = let c : (s.wq == null) ≡ true = ground arith in rw c refl

-- A node that links to NULL is not found by the walk from itself.
remove_fails :
    (fuel wait : ℕ) (s : Waits)
    → wait ≢ null
    → s.next wait ≡ null
    → remove_wait_queue (suc (suc fuel)) wait s ≡ at_null
unfolding remove_wait_queue
remove_fails fuel wait s z e =
    let c : (s.next wait == wait) ≡ false = ground arith in
    elim (Bool-cases (s.wq == wait)) [
      | inl d ↦ rw d (
          rw c (
            ap (λ r. and_then r (clear_next wait)) (walks (record s { wq = s.next wait }) e)
            ∙ stop))
      | inr d ↦ rw d (ap (λ r. and_then r (clear_next wait)) (walks s e) ∙ stop)
    ]
  where
    walks : (r : Waits) → r.next wait ≡ null → unlink_loop (suc (suc fuel)) wait wait r ≡ at_null
    walks r f =
        unfold unlink_loop in
        let a : (wait == null) ≡ false = ground arith in
        let b : (r.next wait == wait) ≡ false = ground arith in
        let y : (r.next wait == null) ≡ true = ground arith in
        rw (a, unlink_loop) (rw (b, unlink_loop) (rw (y, unlink_loop) refl))

    stop : and_then at_null (clear_next wait) ≡ at_null
    stop = unfold and_then in refl

add_some :
    (wait : ℕ) (s : Waits)
    → s.wq ≢ null
    → add_wait_queue wait s ≡ done (record s { next = set_at s.next wait null; wq = wait })
unfolding add_wait_queue
add_some wait s n = let c : (s.wq == null) ≡ false = ground arith in rw c refl

-- Where the tasks that run meanwhile leave the link of its node, not at NULL, at NULL, a task that
-- goes to sleep reads at NULL, with two rounds or more for the walk: at once on an empty queue,
-- otherwise when it wakes, as the walk from the node does not come back to it.
pub sleep_with_faults :
    (schedule : Waits → Waits) (fuel wait state : ℕ) (s : Waits)
    → wait ≢ null
    → ((r : Waits) → r.next wait ≡ null → (schedule r).next wait ≡ null)
    → sleep_with schedule (suc (suc fuel)) wait state s ≡ at_null
unfolding sleep_with and_then set_state
sleep_with_faults schedule fuel wait state s z h =
    let s1 : Waits = record s {
      state = set_at s.state s.current state;
      task = set_at s.task wait s.current;
      next = set_at s.next wait null;
    } in
    let k : Waits → Run = λ r. remove_wait_queue (suc (suc fuel)) wait (schedule r) in
    elim (Bool-cases (s.wq == null)) [
      | inl c ↦ ap (λ r. and_then r k) (add_empty wait s1 ((==_iff s.wq null).0 c))
      | inr c ↦
          let r : Waits = record s1 { next = set_at s1.next wait null; wq = wait } in
          ap (λ r. and_then r k) (add_some wait s1 (λ d. ground arith))
          ∙ remove_fails fuel wait (schedule r) z (h r (set_here s1.next wait null))
    ]

-- On a semaphore of a positive count below 2 ^ 31, with no one waiting, `down` does not sleep, and
-- `up` after it gives back the state before.
up-down :
    (schedule : Waits → Waits) (fuel wait : ℕ) (s : Waits)
    → 0 < s.count
    → s.count < 2 ^ 31
    → s.wq ≡ null
    → and_then (down schedule fuel wait s) (up fuel) ≡ done s
unfolding down take_one and_then up wake_up wake_with is_free
up-down schedule fuel wait s p q e =
    let c : (ltb 0 s.count && ltb s.count (2 ^ 31)) ≡ true = ground arith in
    let d : (s.wq == null) ≡ true = ground arith in
    let n : ((s.count + 2 ^ 32 - 1) % 2 ^ 32 + 1) % 2 ^ 32 ≡ s.count = omega arith in
    rw c (rw d (ap (λ (m : ℕ). done (record s { count = m })) n))

-- `down` of a semaphore whose count is not positive, with no one waiting, reads at NULL.
down_faults :
    (schedule : Waits → Waits) (fuel wait : ℕ) (s : Waits)
    → is_free s ≡ false
    → s.wq ≡ null
    → down schedule fuel wait s ≡ at_null
unfolding down wait_down and_then
down_faults schedule fuel wait s f e =
    let s1 : Waits = record s {
      task = set_at s.task wait s.current;
      next = set_at s.next wait null;
    } in
    let a = add_empty wait s1 e in rw f (rw a refl)

-- `up` on a queue whose nodes end at NULL or close a ring, with more rounds than it has nodes after the first: the count
-- goes up by one, and exactly the sleeping tasks of the queue are running.
up-Woken :
    (fuel : ℕ) (s : Waits) (bs : List ℕ)
    → s.wq ≢ null
    → Nodes s s.wq bs
    → length bs < fuel
    → s.count < 2 ^ 31
    → (s' : Waits) × (up fuel s ≡ done s')
      × (s'.count ≡ s.count + 1)
      × ((t : ℕ) → s'.state t ≡ woken is_sleeping (map s.task (s.wq ∷ bs)) s.state t)
unfolding up
up-Woken fuel s bs z n l b =
    let s1 : Waits = record s { count = (s.count + 1) % 2 ^ 32 } in
    let (s', e, w) = wake_up-Woken fuel s1 bs z (Nodes-same s s1 s.wq bs refl refl n) l in
    (s', e, w.count ∙ omega arith, w.state)
