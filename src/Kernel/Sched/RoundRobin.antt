-- ===== src/Kernel/Sched/RoundRobin.antt =====
-- The choice of `rr_next_task`.
use prettyos.Common.{
  ℕ, zero, suc, ◌^◌, ◌≤◌, ◌<◌, ◌≡◌, ◌⊎◌, refl, sym, ap, ◌∙◌, subst, true, false, List, [], ◌∷◌,
  ◌++◌, All, All_at, ltb, ◌==◌, if◌then◌else◌, arith, Bool-cases, inl, inr, ==_iff,
}
use prettyos.Kernel.Sched.{
  RrRq, ran_out, next, is_greater, greatest_of, all_running, refill, refilled, can_choose,
  after_walk, rr_next_task, set_at,
}
use prettyos.Kernel.Sched.Fair.{set_here}
use prettyos.Mm.Slab.Members.{Has, All-Has}

-- A positive `int`, or 0
unfoldable pub score : ℕ → ℕ
score t = if ltb t (2 ^ 31) then t else 0

not_greater : (t g : ℕ) → is_greater t g ≡ false → score t ≤ g
unfolding is_greater score
not_greater t g e = ground arith

greater : (t g : ℕ) → is_greater t g ≡ true → (score t ≡ t) × (g < t)
unfolding is_greater score
greater t g e = (ground arith, ground arith)

-- The first task of the greatest positive value
pub record Best (f : ℕ → ℕ) (ts : List ℕ) (p : ℕ) : Type 0 where
  pub before : List ℕ
  pub after : List ℕ
  pub list : ts ≡ before ++ (p ∷ after)
  pub lower : All (λ t. score (f t) < score (f p)) before
  pub upper : All (λ t. score (f t) ≤ score (f p)) after
  pub positive : 0 < score (f p)

record Above (f : ℕ → ℕ) (ts : List ℕ) (g : ℕ) (out : ℕ × ℕ) : Type 0 where
  pub best : Best f ts out.1
  pub value : out.0 ≡ score (f out.1)
  pub above : g < out.0

greatest_of-cases :
    (f : ℕ → ℕ) (ts : List ℕ) (g p : ℕ)
    → ((greatest_of f ts (g, p) ≡ (g, p)) × All (λ t. score (f t) ≤ g) ts)
      ⊎ Above f ts g (greatest_of f ts (g, p))
unfolding greatest_of
greatest_of-cases f [] g p = inl (refl, tt)
greatest_of-cases f (t ∷ ts) g p = elim (Bool-cases (is_greater (f t) g)) [
  | inl c ↦
      let (e, l) = greater (f t) g c in
      rw c (elim (greatest_of-cases f ts (f t) t) [
        | inl (q, a) ↦ inr (
            subst (Above f (t ∷ ts) g) (sym q) (record {
              best = record {
                before = [];
                after = ts;
                list = refl;
                lower = tt;
                upper = rw e a;
                positive = rw e (omega arith);
              };
              value = sym e;
              above = l;
            }))
        | inr a ↦
            let m = a.above in
            let v = a.value in
            inr (record {
              best = record {
                before = t ∷ a.best.before;
                after = a.best.after;
                list = ap (◌∷◌ t) a.best.list;
                lower = (omega arith, a.best.lower);
                upper = a.best.upper;
                positive = a.best.positive;
              };
              value = v;
              above = omega arith;
            })
      ])
  | inr c ↦
      let k = not_greater (f t) g c in
      rw c (elim (greatest_of-cases f ts g p) [
        | inl (q, a) ↦ inl (q, (k, a))
        | inr a ↦
            let m = a.above in
            let v = a.value in
            inr (record {
              best = record {
                before = t ∷ a.best.before;
                after = a.best.after;
                list = ap (◌∷◌ t) a.best.list;
                lower = (omega arith, a.best.lower);
                upper = a.best.upper;
                positive = a.best.positive;
              };
              value = v;
              above = m;
            })
      ])
]

Best-none : (f : ℕ → ℕ) (ts : List ℕ) (p : ℕ) → Best f ts p → All (λ t. score (f t) ≤ 0) ts → ⊥
Best-none f ts p w a =
    let c =
      All_at (λ t. score (f t) ≤ 0) w.before w.after
        (subst (All (λ t. score (f t) ≤ 0)) w.list a) in
    let d = w.positive in omega arith

refill_keeps : (ts : List ℕ) (pri f : ℕ → ℕ) (k : ℕ) → f k ≡ pri k → refill ts pri f k ≡ pri k
unfolding refill
refill_keeps [] pri f k e = e
refill_keeps (t ∷ ts) pri f k e = refill_keeps ts pri (set_at f t (pri t)) k (set_keeps t)
  where
    set_keeps : (t : ℕ) → set_at f t (pri t) k ≡ pri k
    set_keeps t =
        unfold set_at in
        elim (Bool-cases (t == k)) [ inl c ↦ rw c (ap pri ((==_iff t k).0 c)) | inr c ↦ rw c e ]

refill_all : (ts : List ℕ) (pri f : ℕ → ℕ) → All (λ k. refill ts pri f k ≡ pri k) ts
unfolding refill
refill_all [] pri f = tt
refill_all (t ∷ ts) pri f = (
  refill_keeps ts pri (set_at f t (pri t)) t (set_here f t (pri t)),
  refill_all ts pri (set_at f t (pri t)),
)

chooses :
    (state : ℕ → ℕ) (ts : List ℕ) (k : ℕ)
    → Has k ts
    → all_running state ts ≡ true
    → can_choose state ts ≡ true
unfolding can_choose
chooses state [] k h e = elim h [ ]
chooses state (t ∷ ts) k h e = e

round_walks :
    (fuel : ℕ) (q : RrRq) (k : ℕ)
    → Has k q.rr_rq_list
    → all_running q.state q.rr_rq_list ≡ true
    → rr_next_task (suc fuel) q
      ≡ after_walk (rr_next_task fuel) q (greatest_of q.ticks q.rr_rq_list (0, 0))
unfolding rr_next_task
round_walks fuel q k h r = rw (chooses q.state q.rr_rq_list k h r, rr_next_task) refl

walk_ends :
    (fuel : ℕ) (q : RrRq) (out : ℕ × ℕ)
    → 0 < out.0
    → after_walk (rr_next_task fuel) q out ≡ (next out.1, q)
unfolding after_walk
walk_ends fuel q (g, p) h = let e : (g == 0) ≡ false = ground arith in rw (e, after_walk) refl

score_none :
    (f : ℕ → ℕ) (ts : List ℕ) (k : ℕ)
    → Has k ts
    → All (λ t. score (f t) ≤ 0) ts
    → 0 < score (f k)
    → ⊥
score_none f ts k h a b = let c = All-Has (λ t. score (f t) ≤ 0) k ts a h in omega arith

-- A round that finds a task with time left ends the search.
round_ends :
    (fuel : ℕ) (q : RrRq) (k : ℕ)
    → Has k q.rr_rq_list
    → all_running q.state q.rr_rq_list ≡ true
    → 0 < score (q.ticks k)
    → (p : ℕ) × (rr_next_task (suc fuel) q ≡ (next p, q)) × Best q.ticks q.rr_rq_list p
round_ends fuel q k h r b =
    let out = greatest_of q.ticks q.rr_rq_list (0, 0) in
    elim (greatest_of-cases q.ticks q.rr_rq_list 0 0) [
      | inl (e, a) ↦ absurd (score_none q.ticks q.rr_rq_list k h a b)
      | inr a ↦ (out.1, round_walks fuel q k h r ∙ walk_ends fuel q out a.above, a.best)
    ]

-- A round without one starts the next one.
round_refills :
    (fuel : ℕ) (q : RrRq) (k : ℕ)
    → Has k q.rr_rq_list
    → all_running q.state q.rr_rq_list ≡ true
    → All (λ t. score (q.ticks t) ≤ 0) q.rr_rq_list
    → rr_next_task (suc fuel) q ≡ rr_next_task fuel (refilled q)
unfolding after_walk
round_refills fuel q k h r b = elim (greatest_of-cases q.ticks q.rr_rq_list 0 0) [
  | inl (e, a) ↦ round_walks fuel q k h r ∙ ap (after_walk (rr_next_task fuel) q) e
  | inr a ↦
      absurd (Best-none q.ticks q.rr_rq_list (greatest_of q.ticks q.rr_rq_list (0, 0)).1 a.best b)
]

-- On a queue of running tasks, one of them of a positive priority, `rr_next_task` ends within two rounds,
-- and gives the first task of the greatest positive `ticks`: of those that were there, or, where none
-- was positive, after each task has got its priority.
pub rr_next_task-Best :
    (fuel : ℕ) (q : RrRq) (k : ℕ)
    → Has k q.rr_rq_list
    → all_running q.state q.rr_rq_list ≡ true
    → 0 < score (q.priority k)
    → (p : ℕ) × (q' : RrRq) × (rr_next_task (suc (suc fuel)) q ≡ (next p, q'))
      × Best q'.ticks q.rr_rq_list p
      × ((q' ≡ q)
          ⊎ (All (λ t. score (q.ticks t) ≤ 0) q.rr_rq_list
              × All (λ t. q'.ticks t ≡ q.priority t) q.rr_rq_list))
unfolding refilled
rr_next_task-Best fuel q k h r b =
    let out = greatest_of q.ticks q.rr_rq_list (0, 0) in
    elim (greatest_of-cases q.ticks q.rr_rq_list 0 0) [
      | inr a ↦ (
        out.1,
        q,
        round_walks (suc fuel) q k h r ∙ walk_ends (suc fuel) q out a.above,
        a.best,
        inl refl,
      )
      | inl (e, a) ↦
          let l = refill_all q.rr_rq_list q.priority q.ticks in
          let m = All-Has (λ t. (refilled q).ticks t ≡ q.priority t) k q.rr_rq_list l h in
          let (p, w, v) = round_ends fuel (refilled q) k h r (rw m b) in
          (p, refilled q, round_refills (suc fuel) q k h r a ∙ w, v, inr (a, l))
    ]

spent_refill :
    (q : RrRq)
    → All (λ t. score (q.priority t) ≤ 0) q.rr_rq_list
    → All (λ t. score ((refilled q).ticks t) ≤ 0) (refilled q).rr_rq_list
unfolding refilled
spent_refill q a = spent q.rr_rq_list (refill_all q.rr_rq_list q.priority q.ticks) a
  where
    spent :
        (ts : List ℕ)
        → All (λ k. refill q.rr_rq_list q.priority q.ticks k ≡ q.priority k) ts
        → All (λ t. score (q.priority t) ≤ 0) ts
        → All (λ t. score (refill q.rr_rq_list q.priority q.ticks t) ≤ 0) ts
    spent [] e a = tt
    spent (t ∷ ts) e a = (rw e.0 a.0, spent ts e.1 a.1)

-- On a queue of running tasks without a positive `ticks` or priority `rr_next_task` never ends.
rr_next_task_stuck :
    (fuel : ℕ) (q : RrRq) (k : ℕ)
    → Has k q.rr_rq_list
    → all_running q.state q.rr_rq_list ≡ true
    → All (λ t. score (q.ticks t) ≤ 0) q.rr_rq_list
    → All (λ t. score (q.priority t) ≤ 0) q.rr_rq_list
    → (rr_next_task fuel q).0 ≡ ran_out
rr_next_task_stuck zero q k h r a b = unfold rr_next_task in refl
rr_next_task_stuck (suc fuel) q k h r a b =
    ap (λ o. o.0) (round_refills fuel q k h r a)
    ∙ rr_next_task_stuck fuel (refilled q) k (unfold refilled in h) (unfold refilled in r)
        (spent_refill q b) (unfold refilled in b)
