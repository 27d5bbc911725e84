-- ===== src/Kernel/Timer/Ring.antt =====
-- The timers of the ring in order.
use prettyos.Common.{
  ℕ, zero, suc, ◌+◌, ◌%◌, ◌^◌, ◌≤◌, ◌<◌, ◌≡◌, ◌≢◌, refl, ap, subst, ◌∙◌, true, false, Option, some,
  List, [], ◌∷◌, ◌++◌, All, All-append, All-left, All-right, length, ltb, arith, Bool-cases, inl,
  inr, ltb→lt, ltb_false→le,
}
use prettyos.Libc.Linked.{null, list_add}
use prettyos.Libc.Linked.Chain.{PathTo, IsLinked}
use prettyos.Libc.Linked.Splice.{first_or, add_between-IsLinked}
use prettyos.Kernel.Sched.{set_at}
use prettyos.Kernel.Sched.Fair.{Agree, Agree-apart, set_here, set_apart}
use prettyos.Kernel.Timer.{Timers, no_expiry, find_place, place_timer, add_timer}

-- Later timers expire later, or at the same time.
abbrev pub IsOrdered : (ℕ → ℕ) → List ℕ → Type 0
IsOrdered f [] = Unit
IsOrdered f (x ∷ xs) = All (λ y. f x ≤ f y) xs × IsOrdered f xs

-- A ring of timers in the order of their expiry, the header's the last
pub record IsRing (s : Timers) (ts : List ℕ) : Type 0 where
  pub linked : IsLinked s.links s.timer_header ts
  pub ordered : IsOrdered s.expires ts
  pub header : s.expires s.timer_header ≡ no_expiry

-- Where the walk stops
record Place (s : Timers) (e : ℕ) (ts : List ℕ) (out : Option ℕ) : Type 0 where
  pub before : List ℕ
  pub after : List ℕ
  pub list : ts ≡ before ++ after
  pub earlier : All (λ y. s.expires y < e) before
  pub later : All (λ y. e ≤ s.expires y) after
  pub found : out ≡ some (first_or s.timer_header after)

all_later :
    (f : ℕ → ℕ) (e x : ℕ) (xs : List ℕ) → e ≤ f x → All (λ y. f x ≤ f y) xs → All (λ y. e ≤ f y) xs
all_later f e x [] h a = tt
all_later f e x (y ∷ ys) h a = (omega arith, all_later f e x ys h a.1)

find_place-Place :
    (fuel : ℕ) (s : Timers) (e q : ℕ) (ts : List ℕ)
    → PathTo s.links q ts s.timer_header
    → IsOrdered s.expires ts
    → e ≤ s.expires s.timer_header
    → length ts < fuel
    → Place s e ts (find_place fuel s e q)
unfolding find_place PathTo
find_place-Place zero s e q ts p o h l = absurd (omega arith)
find_place-Place (suc fuel) s e q [] p o h l =
    let n = p.0 in
    let c : ltb (s.expires (s.links.next q)) e ≡ false = rw n (ground arith) in
    rw (c, find_place)
      (record { before = []; after = []; list = refl; earlier = tt; later = tt; found = ap some n })
find_place-Place (suc fuel) s e q (x ∷ xs) p o h l =
    let n = p.0 in
    elim (Bool-cases (ltb (s.expires x) e)) [
      | inl c ↦
          let r = find_place-Place fuel s e x xs p.2 o.1 h (omega arith) in
          let d : ltb (s.expires (s.links.next q)) e ≡ true = rw n c in
          rw (d, find_place)
            (record {
              before = x ∷ r.before;
              after = r.after;
              list = ap (◌∷◌ x) r.list;
              earlier = (ltb→lt (s.expires x) e c, r.earlier);
              later = r.later;
              found = ap (find_place fuel s e) n ∙ r.found;
            })
      | inr c ↦
          let k = ltb_false→le (s.expires x) e c in
          let d : ltb (s.expires (s.links.next q)) e ≡ false = rw n c in
          rw (d, find_place)
            (record {
              before = [];
              after = x ∷ xs;
              list = refl;
              earlier = tt;
              later = (k, all_later s.expires e x xs k o.0);
              found = ap some n;
            })
    ]

IsOrdered-insert :
    (f : ℕ → ℕ) (e x : ℕ) (xs ys : List ℕ)
    → f x ≡ e
    → IsOrdered f (xs ++ ys)
    → All (λ y. f y < e) xs
    → All (λ y. e ≤ f y) ys
    → IsOrdered f (xs ++ (x ∷ ys))
IsOrdered-insert f e x [] ys q o a b = (rw q b, o)
IsOrdered-insert f e x (z ∷ zs) ys q o a b =
    let l = a.0 in
    (
      All-append (λ y. f z ≤ f y) zs (x ∷ ys) (All-left (λ y. f z ≤ f y) zs ys o.0)
          (rw q (omega arith), All-right (λ y. f z ≤ f y) zs ys o.0),
      IsOrdered-insert f e x zs ys q o.1 a.1 b,
    )

lower-Agree :
    (w v : ℕ → ℕ) (a : ℕ) (xs : List ℕ)
    → Agree w v xs
    → All (λ y. a ≤ v y) xs
    → All (λ y. a ≤ w y) xs
lower-Agree w v a [] g h = tt
lower-Agree w v a (x ∷ xs) g h = (rw g.0 h.0, lower-Agree w v a xs g.1 h.1)

pub IsOrdered-Agree : (w v : ℕ → ℕ) (xs : List ℕ) → Agree w v xs → IsOrdered v xs → IsOrdered w xs
IsOrdered-Agree w v [] g o = tt
IsOrdered-Agree w v (x ∷ xs) g o =
    (rw g.0 (lower-Agree w v (v x) xs g.1 o.0), IsOrdered-Agree w v xs g.1 o.1)

-- The ring with a new timer
pub record Added (s : Timers) (timer : ℕ) (ts : List ℕ) (s' : Timers) : Type 0 where
  pub before : List ℕ
  pub after : List ℕ
  pub list : ts ≡ before ++ after
  pub ring : IsRing s' (before ++ (timer ∷ after))
  pub expires : s'.expires timer ≡ (s.expires timer + s.jiffies) % 2 ^ 32
  pub others : (k : ℕ) → k ≢ timer → s'.expires k ≡ s.expires k

-- `add_timer` of a timer that is not NULL and not on the ring, with more rounds than the ring has timers, ends and
-- puts it, with its expiry moved by the time that has passed, on the ring, which stays in order.
pub add_timer-Added :
    (fuel timer : ℕ) (s : Timers) (ts : List ℕ)
    → IsRing s ts
    → timer ≢ null
    → All (λ y. y ≢ timer) (s.timer_header ∷ ts)
    → length ts < fuel
    → (s' : Timers) × (add_timer fuel timer s ≡ some s') × Added s timer ts s'
unfolding add_timer place_timer
add_timer-Added fuel timer s ts v z n l =
    let e = (s.expires timer + s.jiffies) % 2 ^ 32 in
    let w = set_at s.expires timer e in
    let s1 : Timers = record s { expires = w } in
    let o = set_apart s.expires timer e in
    let k : w s.timer_header ≡ no_expiry = o s.timer_header n.0 ∙ v.header in
    let b : e ≤ w s.timer_header = rw k (omega arith) in
    let g = IsOrdered-Agree w s.expires ts (Agree-apart w s.expires timer ts o n.1) v.ordered in
    let p = find_place-Place fuel s1 e s.timer_header ts v.linked.links g b l in
    let f = first_or s.timer_header p.after in
    let q = p.list in
    let i =
      add_between-IsLinked s.links s.timer_header timer p.before p.after
        (subst (IsLinked s.links s.timer_header) q v.linked) z
        (subst (λ u. All (λ y. y ≢ timer) (s.timer_header ∷ u)) q n) in
    (
      record s1 { links = list_add s.links timer (s.links.prev f) f },
      ap (place_timer timer s1) p.found,
      record {
        before = p.before;
        after = p.after;
        list = q;
        ring = record {
          linked = i;
          ordered =
              IsOrdered-insert w e timer p.before p.after (set_here s.expires timer e)
                (subst (IsOrdered w) q g) p.earlier p.later;
          header = k;
        };
        expires = set_here s.expires timer e;
        others = o;
      },
    )
