-- ===== src/Kernel/Timer/Removal.antt =====
-- Timers taken from the ring.
use prettyos.Common.{
  ℕ, zero, suc, ◌+◌, ◌-◌, ◌%◌, ◌^◌, ◌≤◌, ◌<◌, ◌≡◌, ◌≢◌, refl, sym, ap, ◌∙◌, true, false, none, some,
  List, [], ◌∷◌, ◌++◌, All, All-append, All_at, length, ◌==◌, arith,
}
use prettyos.Common.Int.{ℤ, pos}
use prettyos.Libc.Linked.{null}
use prettyos.Libc.Linked.Chain.{PathTo, Distinct, IsLinked}
use prettyos.Libc.Linked.Splice.{All-without, delete_between-IsLinked}
use prettyos.Kernel.Sched.{set_at}
use prettyos.Kernel.Sched.Fair.{Agree-apart, set_here, set_apart}
use prettyos.Kernel.Timer.{Timers, unlink_timer, del_loop, del_timer}
use prettyos.Kernel.Timer.Ring.{IsOrdered, IsRing, IsOrdered-Agree}

IsOrdered-without :
    (f : ℕ → ℕ) (x : ℕ) (xs ys : List ℕ) → IsOrdered f (xs ++ (x ∷ ys)) → IsOrdered f (xs ++ ys)
IsOrdered-without f x [] ys o = o.1
IsOrdered-without f x (z ∷ zs) ys o =
    (All-without (λ y. f z ≤ f y) x zs ys o.0, IsOrdered-without f x zs ys o.1)

del_loop_found :
    (fuel timer q b : ℕ) (s : Timers) (xs ys : List ℕ)
    → PathTo s.links q (xs ++ (timer ∷ ys)) b
    → All (λ y. y ≢ null) (xs ++ (timer ∷ ys))
    → All (λ y. y ≢ timer) xs
    → length xs < fuel
    → del_loop fuel timer q s ≡ some (pos 0, unlink_timer timer s)
unfolding PathTo del_loop unlink_timer
del_loop_found zero timer q b s xs ys p z n l = absurd (omega arith)
del_loop_found (suc fuel) timer q b s [] ys p z n l =
    let e = p.0 in
    let m = z.0 in
    let c : (s.links.next q == null) ≡ false = rw e (ground arith) in
    let d : (s.links.next q == timer) ≡ true = rw e (ground arith) in
    rw (c, del_loop) (rw (d, del_loop) refl)
del_loop_found (suc fuel) timer q b s (x ∷ xs) ys p z n l =
    let e = p.0 in
    let m = z.0 in
    let k = n.0 in
    let c : (s.links.next q == null) ≡ false = rw e (ground arith) in
    let d : (s.links.next q == timer) ≡ false = rw e (ground arith) in
    rw (c, del_loop)
      (rw (d, del_loop)
        (ap (λ u. del_loop fuel timer u s) e
          ∙ del_loop_found fuel timer x b s xs ys p.2 z.1 n.1 (omega arith)))

apart_before :
    (a : ℕ) (xs : List ℕ) (x : ℕ) (ys : List ℕ)
    → Distinct (a ∷ (xs ++ (x ∷ ys)))
    → All (λ y. y ≢ x) xs
apart_before a [] x ys d = tt
apart_before a (z ∷ zs) x ys d =
    ((λ e. All_at (λ u. u ≢ z) zs ys d.1.0 (sym e)), apart_before z zs x ys d.1)

apart_after : (x : ℕ) (xs ys : List ℕ) → Distinct (xs ++ (x ∷ ys)) → All (λ y. y ≢ x) ys
apart_after x [] ys d = d.0
apart_after x (z ∷ zs) ys d = apart_after x zs ys d.1

-- The ring without a timer, whose links are NULL then
pub record Deleted (s : Timers) (timer : ℕ) (ts : List ℕ) (out : ℤ × Timers) : Type 0 where
  pub done : out.0 ≡ pos 0
  pub ring : IsRing out.1 ts
  pub expires : out.1.expires timer ≡ (s.expires timer + 2 ^ 32 - s.jiffies) % 2 ^ 32

-- `del_timer` of a timer of the ring, with more rounds than there are timers before it, ends with 0 and leaves the ring
-- of the others, in order.
pub del_timer-Deleted :
    (fuel timer : ℕ) (s : Timers) (xs ys : List ℕ)
    → IsRing s (xs ++ (timer ∷ ys))
    → length xs < fuel
    → (out : ℤ × Timers) × (del_timer fuel timer s ≡ some out) × Deleted s timer (xs ++ ys) out
unfolding del_timer unlink_timer
del_timer-Deleted fuel timer s xs ys v l =
    let e = (s.expires timer + 2 ^ 32 - s.jiffies) % 2 ^ 32 in
    let w = set_at s.expires timer e in
    let o = set_apart s.expires timer e in
    let u = v.linked in
    let a = apart_before s.timer_header xs timer ys u.apart in
    let h : s.timer_header ≢ timer =
      λ d. All_at (λ y. y ≢ s.timer_header) xs ys u.apart.0 (sym d) in
    let n = All-append (λ y. y ≢ timer) xs ys a (apart_after timer xs ys u.apart.1) in
    (
      (pos 0, unlink_timer timer s),
      del_loop_found fuel timer s.timer_header s.timer_header s xs ys u.links u.nonnull.1 a l,
      record {
        done = refl;
        ring = record {
          linked = delete_between-IsLinked s.links s.timer_header timer null null xs ys u;
          ordered =
              IsOrdered-Agree w s.expires (xs ++ ys) (Agree-apart w s.expires timer (xs ++ ys) o n)
                (IsOrdered-without s.expires timer xs ys v.ordered);
          header = o s.timer_header h ∙ v.header;
        };
        expires = set_here s.expires timer e;
      },
    )

del_loop_stuck :
    (fuel timer q : ℕ) (s : Timers) (ts rest : List ℕ)
    → IsLinked s.links s.timer_header ts
    → All (λ y. y ≢ timer) (s.timer_header ∷ ts)
    → PathTo s.links q rest s.timer_header
    → All (λ y. y ≢ null) rest
    → All (λ y. y ≢ timer) rest
    → del_loop fuel timer q s ≡ none
unfolding PathTo del_loop
del_loop_stuck zero timer q s ts rest v n p z k = refl
del_loop_stuck (suc fuel) timer q s ts [] v n p z k =
    let e = p.0 in
    let m = v.nonnull.0 in
    let i = n.0 in
    let c : (s.links.next q == null) ≡ false = rw e (ground arith) in
    let d : (s.links.next q == timer) ≡ false = rw e (ground arith) in
    rw (c, del_loop)
      (rw (d, del_loop)
        (ap (λ u. del_loop fuel timer u s) e
          ∙ del_loop_stuck fuel timer s.timer_header s ts ts v n v.links v.nonnull.1 n.1))
del_loop_stuck (suc fuel) timer q s ts (x ∷ xs) v n p z k =
    let e = p.0 in
    let m = z.0 in
    let i = k.0 in
    let c : (s.links.next q == null) ≡ false = rw e (ground arith) in
    let d : (s.links.next q == timer) ≡ false = rw e (ground arith) in
    rw (c, del_loop)
      (rw (d, del_loop)
        (ap (λ u. del_loop fuel timer u s) e ∙ del_loop_stuck fuel timer x s ts xs v n p.2 z.1 k.1))

-- `del_timer` of a timer that is not on the ring never ends: no number of rounds is enough.
del_timer_stuck :
    (fuel timer : ℕ) (s : Timers) (ts : List ℕ)
    → IsRing s ts
    → All (λ y. y ≢ timer) (s.timer_header ∷ ts)
    → del_timer fuel timer s ≡ none
unfolding del_timer
del_timer_stuck fuel timer s ts v n =
    let u = v.linked in del_loop_stuck fuel timer s.timer_header s ts ts u n u.links u.nonnull.1 n.1
