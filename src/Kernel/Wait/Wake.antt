-- ===== src/Kernel/Wait/Wake.antt =====
-- `wake_up` wakes the sleeping tasks of the queue and no others.
use mathlib.Core.Path.{fun_ext}
use prettyos.Common.{
  ℕ, zero, suc, ◌<◌, ◌≡◌, ◌≢◌, ◌⊎◌, refl, sym, ap, subst, ◌∙◌, Bool, true, false, ◌||◌, List, [],
  ◌∷◌, length, map, ◌==◌, arith, Bool-cases, inl, inr, ==_iff,
}
use prettyos.Kernel.Sched.{set_at, task_running}
use prettyos.Kernel.Wait.{
  Waits, done, null, wake_task, wake_loop, wake_with, wake_up, wake_up_interruptible, is_sleeping,
  is_interruptible,
}

-- The queue holds the nodes from a on: each links to the next, the last one to NULL or to the first, and no other does.
abbrev pub Nodes : Waits → ℕ → List ℕ → Type 0
Nodes s a [] = (s.next a ≡ null) ⊎ (s.next a ≡ s.wq)
Nodes s a (b ∷ bs) = (s.next a ≡ b) × (b ≢ null) × (b ≢ s.wq) × Nodes s b bs

unfoldable pub member : ℕ → List ℕ → Bool
member t [] = false
member t (x ∷ xs) = (x == t) || member t xs

-- The new state: of a task of the queue, that is not NULL, and whose state passes the test
abbrev pick : Bool → Bool → Bool → ℕ → ℕ
pick true false true v = task_running
pick true false false v = v
pick true true w v = v
pick false z w v = v

-- The state of a task once those of the list that pass the test are woken
unfoldable pub woken : (ℕ → Bool) → List ℕ → (ℕ → ℕ) → ℕ → ℕ
woken which ts state t = pick (member t ts) (t == null) (which (state t)) (state t)

-- The tasks of the list are woken, and nothing else changes.
pub record Woken (which : ℕ → Bool) (s : Waits) (ts : List ℕ) (s' : Waits) : Type 0 where
  pub state : (t : ℕ) → s'.state t ≡ woken which ts s.state t
  pub next : s'.next ≡ s.next
  pub task : s'.task ≡ s.task
  pub wq : s'.wq ≡ s.wq
  pub count : s'.count ≡ s.count
  pub current : s'.current ≡ s.current

pick_zero : (m z w : Bool) → pick m z w task_running ≡ task_running
pick_zero true false true = refl
pick_zero true false false = refl
pick_zero true true w = refl
pick_zero false z w = refl

pick_kept : (m z : Bool) (v : ℕ) → pick m z false v ≡ v
pick_kept true false v = refl
pick_kept true true v = refl
pick_kept false z v = refl

pick_again :
    (f : ℕ → Bool) (m n z w : Bool) (v : ℕ)
    → f v ≡ w
    → pick n z (f (pick m z w v)) (pick m z w v) ≡ pick (m || n) z w v
pick_again f true n false true v e = pick_zero n false (f task_running)
pick_again f true n false false v e = rw e (pick_kept n false v)
pick_again f true true true w v e = refl
pick_again f true false true w v e = refl
pick_again f false n z w v e = rw e refl

both_woken :
    (which : ℕ → Bool) (x : ℕ) (ts : List ℕ) (state : ℕ → ℕ) (t : ℕ)
    → woken which ts (woken which (x ∷ []) state) t ≡ woken which (x ∷ ts) state t
unfolding woken member
both_woken which x ts state t =
    pick_again which (x == t || false) (member t ts) (t == null) (which (state t)) (state t) refl
    ∙ ap (λ m. pick (m || member t ts) (t == null) (which (state t)) (state t)) (or_false (x == t))
  where
    or_false : (b : Bool) → (b || false) ≡ b
    or_false true = refl
    or_false false = refl

woken-null :
    (which : ℕ → Bool) (x t : ℕ) (state : ℕ → ℕ) → x ≡ null → state t ≡ woken which (x ∷ []) state t
unfolding woken member
woken-null which x t state e = elim (Bool-cases (x == t)) [
  | inl c ↦ let z : (t == null) ≡ true = ground arith in rw c (rw z refl)
  | inr c ↦ rw c refl
]

woken_not :
    (which : ℕ → Bool) (x t : ℕ) (state : ℕ → ℕ)
    → which (state x) ≡ false
    → state t ≡ woken which (x ∷ []) state t
unfolding woken member
woken_not which x t state w = elim (Bool-cases (x == t)) [
  | inl c ↦
      let e : which (state t) ≡ false = ap (λ u. which (state u)) (sym ((==_iff x t).0 c)) ∙ w in
      rw e (sym (pick_kept (x == t || false) (t == null) (state t)))
  | inr c ↦ rw c refl
]

woken_one :
    (which : ℕ → Bool) (x t : ℕ) (state : ℕ → ℕ)
    → (x == null) ≡ false
    → which (state x) ≡ true
    → set_at state x task_running t ≡ woken which (x ∷ []) state t
unfolding woken member set_at
woken_one which x t state n w = elim (Bool-cases (x == t)) [
  | inl c ↦
      let i = (==_iff x t).0 c in
      let e : which (state t) ≡ true = ap (λ u. which (state u)) (sym i) ∙ w in
      let z : (t == null) ≡ false = ap (λ u. u == null) (sym i) ∙ n in rw c (rw e (rw z refl))
  | inr c ↦ rw c refl
]

wake_task-Woken :
    (which : ℕ → Bool) (x : ℕ) (s : Waits) → Woken which s (x ∷ []) (wake_task which x s)
unfolding wake_task
wake_task-Woken which x s = elim (Bool-cases (x == null)) [
  | inl c ↦ rw c (record {
    state = λ t. woken-null which x t s.state ((==_iff x null).0 c);
    next = refl;
    task = refl;
    wq = refl;
    count = refl;
    current = refl;
  })
  | inr c ↦ elim (Bool-cases (which (s.state x))) [
    | inl w ↦ rw c (
        rw w (record {
          state = λ t. woken_one which x t s.state c w;
          next = refl;
          task = refl;
          wq = refl;
          count = refl;
          current = refl;
        }))
    | inr w ↦ rw c (
        rw w (record {
          state = λ t. woken_not which x t s.state w;
          next = refl;
          task = refl;
          wq = refl;
          count = refl;
          current = refl;
        }))
  ]
]

Woken-Woken :
    (which : ℕ → Bool) (s s1 s2 : Waits) (x : ℕ) (ts : List ℕ)
    → Woken which s (x ∷ []) s1
    → Woken which s1 ts s2
    → Woken which s (x ∷ ts) s2
Woken-Woken which s s1 s2 x ts v w = record {
  state = λ t.
      let p : s1.state ≡ woken which (x ∷ []) s.state = fun_ext v.state in
      w.state t ∙ ap (λ f. woken which ts f t) p ∙ both_woken which x ts s.state t;
  next = w.next ∙ v.next;
  task = w.task ∙ v.task;
  wq = w.wq ∙ v.wq;
  count = w.count ∙ v.count;
  current = w.current ∙ v.current;
}

pub Nodes-same :
    (s s' : Waits) (a : ℕ) (bs : List ℕ)
    → s'.next ≡ s.next
    → s'.wq ≡ s.wq
    → Nodes s a bs
    → Nodes s' a bs
Nodes-same s s' a [] e f n = rw (e, f) n
Nodes-same s s' a (b ∷ bs) e f n = (rw e n.0, n.1, rw f n.2, Nodes-same s s' b bs e f n.3)

wake_loop-Woken :
    (which : ℕ → Bool) (fuel : ℕ) (s : Waits) (a : ℕ) (bs : List ℕ)
    → Nodes s a bs
    → length bs < fuel
    → (s' : Waits) × (wake_loop which fuel a s ≡ done s') × Woken which s (map s.task (a ∷ bs)) s'
unfolding wake_loop
wake_loop-Woken which zero s a bs n l = absurd (omega arith)
wake_loop-Woken which (suc fuel) s a [] n l =
    let w = wake_task-Woken which (s.task a) s in
    let s1 = wake_task which (s.task a) s in
    let m = Nodes-same s s1 a [] w.next w.wq n in
    let c : ((s1.next a == null) || (s1.next a == s1.wq)) ≡ true = ground arith in
    (s1, rw (c, wake_loop) refl, w)
wake_loop-Woken which (suc fuel) s a (b ∷ bs) n l =
    let w = wake_task-Woken which (s.task a) s in
    let s1 = wake_task which (s.task a) s in
    let m : Nodes s1 a (b ∷ bs) = Nodes-same s s1 a (b ∷ bs) w.next w.wq n in
    let e : s1.next a ≡ b = m.0 in
    let p : b ≢ null = m.1 in
    let q : b ≢ s1.wq = m.2 in
    let c : ((s1.next a == null) || (s1.next a == s1.wq)) ≡ false = ground arith in
    let (s2, r, v) = wake_loop-Woken which fuel s1 b bs m.3 (omega arith) in
    (
      s2,
      rw (c, wake_loop) (ap (λ z. wake_loop which fuel z s1) e ∙ r),
      Woken-Woken which s s1 s2 (s.task a) (map s.task (b ∷ bs)) w
          (subst (λ f. Woken which s1 (map f (b ∷ bs)) s2) w.task v),
    )

-- On a queue that is not NULL, whose nodes end at NULL or close a ring, and with more rounds than
-- it has nodes after the first, `wake_up` ends, and makes running exactly those tasks of the queue
-- that are not NULL and sleep, in whichever way; nothing else changes.
pub wake_up-Woken :
    (fuel : ℕ) (s : Waits) (bs : List ℕ)
    → s.wq ≢ null
    → Nodes s s.wq bs
    → length bs < fuel
    → (s' : Waits) × (wake_up fuel s ≡ done s') × Woken is_sleeping s (map s.task (s.wq ∷ bs)) s'
unfolding wake_up wake_with
wake_up-Woken fuel s bs z n l =
    let c : (s.wq == null) ≡ false = ground arith in
    rw c (wake_loop-Woken is_sleeping fuel s s.wq bs n l)

-- On a queue as for `wake_up`, `wake_up_interruptible` ends, and makes running exactly those tasks of the queue that
-- are not NULL and whose sleep is interruptible; nothing else changes.
wake_up_interruptible-Woken :
    (fuel : ℕ) (s : Waits) (bs : List ℕ)
    → s.wq ≢ null
    → Nodes s s.wq bs
    → length bs < fuel
    → (s' : Waits) × (wake_up_interruptible fuel s ≡ done s')
      × Woken is_interruptible s (map s.task (s.wq ∷ bs)) s'
unfolding wake_up_interruptible wake_with
wake_up_interruptible-Woken fuel s bs z n l =
    let c : (s.wq == null) ≡ false = ground arith in
    rw c (wake_loop-Woken is_interruptible fuel s s.wq bs n l)
