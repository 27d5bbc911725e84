-- ===== src/Mm/Slab/Free.antt =====
-- The free objects of a slab: the chain that starts at `free` and follows `bufctl`.
use prettyos.Common.{
  ℕ, zero, suc, ◌+◌, ◌-◌, ◌*◌, ◌^◌, ◌≤◌, ◌<◌, ◌≡◌, ◌≢◌, refl, sym, ap, subst, ◌∙◌, true, false,
  List, [], ◌∷◌, ltb, ◌==◌, All, length, arith, Bool-cases, inl, inr, ==_iff,
}
use native.Mathlib.Nat.{mul_comm, mul-div_cancel}
use prettyos.Common.Int.{ℤ, pos}
use prettyos.Libc.Linked.Chain.{Distinct}
use prettyos.Mm.Slab.{
  Slab, Cache, null, bufctl_end, write_at, index_to_obj, obj_to_index, with_slab, to_full, to_free,
  unlinked, popped, pushed, slab_get_obj, slab_free_obj, init_loop, slab_init,
}

-- From the index i, the entries of the array link the indices xs and then the end.
unfoldable pub Linked : (ℕ → ℕ) → ℕ → List ℕ → Type 0
Linked f i [] = i ≡ bufctl_end
Linked f i (x ∷ xs) = (i ≡ x) × Linked f (f x) xs

-- A slab of n objects whose free ones are xs, in the order in which they are handed out.
pub record IsSlab (n : ℕ) (xs : List ℕ) (s : Slab) : Type 0 where
  pub few : n < 2 ^ 31
  pub linked : Linked s.bufctl s.free xs
  pub distinct : Distinct xs
  pub inside : All (λ x. x < n) xs
  pub counted : s.inuse + length xs ≡ n

write_at_other : (f : ℕ → ℕ) (i v k : ℕ) → k ≢ i → write_at f i v k ≡ f k
unfolding write_at
write_at_other f i v k n = let c : (i == k) ≡ false = ground arith in rw c refl

write_at_same : (f : ℕ → ℕ) (i v : ℕ) → write_at f i v i ≡ v
unfolding write_at
write_at_same f i v = let c : (i == i) ≡ true = ground arith in rw c refl

-- A write apart from the chain.
Linked-write_at :
    (f : ℕ → ℕ) (k v i : ℕ) (xs : List ℕ)
    → All (λ x. x ≢ k) xs
    → Linked f i xs
    → Linked (write_at f k v) i xs
unfolding Linked
Linked-write_at f k v i [] n l = l
Linked-write_at f k v i (x ∷ xs) n (e, l) = (
  e,
  Linked-write_at f k v (write_at f k v x) xs n.1
      (subst (λ z. Linked f z xs) (sym (write_at_other f k v x n.0)) l),
)

-- The numbers from i on, `left` of them.
abbrev pub upto : ℕ → ℕ → List ℕ
upto zero i = []
upto (suc left) i = i ∷ upto left (i + 1)

All-upto :
    (P : ℕ → Type 0) (left i : ℕ) → ((k : ℕ) → i ≤ k → k < i + left → P k) → All P (upto left i)
All-upto P zero i h = tt
All-upto P (suc left) i h = (
  h i (omega arith) (omega arith),
  All-upto P left (i + 1) (λ k p q. h k (omega arith) (omega arith)),
)

Distinct-upto : (left i : ℕ) → Distinct (upto left i)
Distinct-upto zero i = tt
Distinct-upto (suc left) i =
    (All-upto (λ y. y ≢ i) left (i + 1) (λ k p q e. omega arith), Distinct-upto left (i + 1))

length-upto : (left i : ℕ) → length (upto left i) ≡ left
length-upto zero i = refl
length-upto (suc left) i = ap suc (length-upto left (i + 1))

init_loop_below : (left i : ℕ) (f : ℕ → ℕ) (k : ℕ) → k < i → init_loop left i f k ≡ f k
unfolding init_loop
init_loop_below zero i f k h = refl
init_loop_below (suc left) i f k h =
    init_loop_below left (i + 1) (write_at f i (i + 1)) k (omega arith)
    ∙ write_at_other f i (i + 1) k (λ e. omega arith)

init_loop_lem :
    (left i : ℕ) (f : ℕ → ℕ) (k : ℕ) → i ≤ k → k < i + left → init_loop left i f k ≡ k + 1
unfolding init_loop
init_loop_lem zero i f k p q = absurd (omega arith)
init_loop_lem (suc left) i f k p q = elim (Bool-cases (i == k)) [
  | inl c ↦
      let e : i ≡ k = (==_iff i k).0 c in
      init_loop_below left (i + 1) (write_at f i (i + 1)) k (omega arith)
      ∙ ap (write_at f i (i + 1)) (sym e)
      ∙ write_at_same f i (i + 1)
      ∙ ap (λ z. z + 1) e
  | inr c ↦ init_loop_lem left (i + 1) (write_at f i (i + 1)) k (ground arith) (omega arith)
]

-- An array that counts up to the last index, and ends there.
Linked-upto :
    (f : ℕ → ℕ) (left i : ℕ)
    → ((k : ℕ) → i ≤ k → k < i + left → f k ≡ k + 1)
    → f (i + left) ≡ bufctl_end
    → Linked f i (upto (suc left) i)
unfolding Linked
Linked-upto f zero i h e = (refl, ap f (let d : i ≡ i + 0 = omega arith in d) ∙ e)
Linked-upto f (suc left) i h e =
    let p : f i ≡ i + 1 = h i (omega arith) (omega arith) in
    (
      refl,
      subst (λ z. Linked f z (upto (suc left) (i + 1))) (sym p)
          (Linked-upto f left (i + 1) (λ k a b. h k (omega arith) (omega arith))
            (ap f (let d : i + 1 + left ≡ i + suc left = omega arith in d) ∙ e)),
    )

-- A new slab of at least one object: all objects are free, in the order of their indices.
pub slab_init-IsSlab :
    (n : ℕ) (s : Slab) (ptr : ℕ)
    → suc n < 2 ^ 31
    → IsSlab (suc n) (upto (suc n) 0) (slab_init (suc n) s ptr)
unfolding slab_init
slab_init-IsSlab n s ptr h =
    let f = init_loop (suc n) 0 s.bufctl in
    record {
      few = h;
      linked =
          Linked-upto (write_at f n bufctl_end) n 0
            (λ k a b.
              write_at_other f n bufctl_end k (λ e. omega arith)
              ∙ init_loop_lem (suc n) 0 s.bufctl k (omega arith) (omega arith))
            (ap (write_at f n bufctl_end) (let d : 0 + n ≡ n = omega arith in d)
              ∙ write_at_same f n bufctl_end);
      distinct = Distinct-upto (suc n) 0;
      inside = All-upto (λ x. x < suc n) (suc n) 0 (λ k a b. omega arith);
      counted = omega (arith, length-upto (suc n) 0);
    }

module _ (n : ℕ) (s : Slab) (x : ℕ) (xs : List ℕ) (v : IsSlab n (x ∷ xs) s) where
  free_first : s.free ≡ x
  unfolding Linked
  free_first = v.linked.0

  popped-IsSlab : IsSlab n xs (popped s)
  unfolding popped Linked
  popped-IsSlab =
      let c = v.counted in
      let w = v.few in
      record {
        few = v.few;
        linked = rw free_first v.linked.1;
        distinct = v.distinct.1;
        inside = v.inside.1;
        counted = omega arith;
      }

pushed-IsSlab :
    (n : ℕ) (s : Slab) (i : ℕ) (xs : List ℕ)
    → IsSlab n xs s
    → i < n
    → All (λ x. x ≢ i) xs
    → 0 < s.inuse
    → IsSlab n (i ∷ xs) (pushed s i)
unfolding pushed Linked
pushed-IsSlab n s i xs v h d p =
    let c = v.counted in
    let w = v.few in
    record {
      few = v.few;
      linked = (
        refl,
        subst (λ z. Linked (write_at s.bufctl i s.free) z xs)
            (sym (write_at_same s.bufctl i s.free))
            (Linked-write_at s.bufctl i s.free s.free xs d v.linked),
      );
      distinct = (d, v.distinct);
      inside = (h, v.inside);
      counted = omega arith;
    }

-- Which slab an operation changed, and to what.
pub record Changed (c c' : Cache) (a : ℕ) (s : Slab) : Type 0 where
  pub here : c'.slabs a ≡ s
  pub others : (k : ℕ) → k ≢ a → c'.slabs k ≡ c.slabs k
  pub size : c'.obj_size ≡ c.obj_size
  pub num : c'.obj_num ≡ c.obj_num

pub with_slab-Changed : (c : Cache) (a : ℕ) (s : Slab) → Changed c (with_slab c a s) a s
unfolding with_slab
with_slab-Changed c a s =
    let same : (a == a) ≡ true = ground arith in
    record {
      here = rw same refl;
      others = λ k n. let d : (a == k) ≡ false = ground arith in rw d refl;
      size = refl;
      num = refl;
    }

pub to_full-Changed : (c : Cache) (a : ℕ) (s : Slab) → Changed c (to_full (with_slab c a s) a) a s
unfolding to_full unlinked with_slab
to_full-Changed c a s =
    let w = with_slab-Changed c a s in
    record { here = w.here; others = w.others; size = refl; num = refl }

to_free-Changed : (c : Cache) (a : ℕ) (s : Slab) → Changed c (to_free (with_slab c a s) a) a s
unfolding to_free unlinked with_slab
to_free-Changed c a s =
    let w = with_slab-Changed c a s in
    record { here = w.here; others = w.others; size = refl; num = refl }

-- What `slab_get_obj` does on a slab with the free objects x and then xs.
pub record Taken (c : Cache) (a x : ℕ) (xs : List ℕ) (out : ℕ × Cache) : Type 0 where
  pub obj : out.0 ≡ index_to_obj c (c.slabs a) x
  pub slab : IsSlab c.obj_num xs (out.1.slabs a)
  pub changed : Changed c out.1 a (popped (c.slabs a))
  pub full : xs ≡ [] → out.1 ≡ to_full (with_slab c a (popped (c.slabs a))) a
  pub kept : 0 < length xs → out.1 ≡ with_slab c a (popped (c.slabs a))

-- `slab_get_obj` on a valid slab with a free object, not at NULL, hands out the first one and
-- leaves the others free, with the counter right; no other slab changes, and the slab moves to the
-- full list exactly with its last free object.
pub slab_get_obj-Taken :
    (c : Cache) (a x : ℕ) (xs : List ℕ)
    → a ≢ null
    → IsSlab c.obj_num (x ∷ xs) (c.slabs a)
    → Taken c a x xs (slab_get_obj c a)
unfolding slab_get_obj
slab_get_obj-Taken c a x xs z v =
    let s = c.slabs a in
    let e : s.free ≡ x = free_first c.obj_num s x xs v in
    let few = v.few in
    let i = v.inside.0 in
    let k = v.counted in
    let p : (a == null) ≡ false = ground arith in
    let q : (s.free == bufctl_end) ≡ false = ground arith in
    let w = popped-IsSlab c.obj_num s x xs v in
    let m = w.counted in
    rw (p, q)
      (elim (Bool-cases ((popped s).inuse == c.obj_num)) [
        | inl full ↦ rw full (record {
          obj = ap (index_to_obj c s) e;
          slab = rw (to_full-Changed c a (popped s)).here w;
          changed = to_full-Changed c a (popped s);
          full = λ h. refl;
          kept = λ h. absurd (let f = (==_iff _ _).0 full in omega arith);
        })
        | inr more ↦ rw more (record {
          obj = ap (index_to_obj c s) e;
          slab = rw (with_slab-Changed c a (popped s)).here w;
          changed = with_slab-Changed c a (popped s);
          full = λ h. absurd (let f : length xs ≡ 0 = ap length h in ground arith);
          kept = λ h. refl;
        })
      ])

-- What `slab_free_obj` does for the object x of a slab with the free objects xs.
pub record Freed (c : Cache) (a x : ℕ) (xs : List ℕ) (out : ℤ × Cache) : Type 0 where
  pub done : out.0 ≡ pos 0
  pub slab : IsSlab c.obj_num (x ∷ xs) (out.1.slabs a)
  pub changed : Changed c out.1 a (pushed (c.slabs a) x)
  pub empty : (c.slabs a).inuse ≡ 1 → out.1 ≡ to_free (with_slab c a (pushed (c.slabs a) x)) a
  pub kept : 1 < (c.slabs a).inuse → out.1 ≡ with_slab c a (pushed (c.slabs a) x)

pub obj_to_index_lem :
    (c : Cache) (s : Slab) (i : ℕ) → 0 < c.obj_size → obj_to_index c s (index_to_obj c s i) ≡ i
unfolding obj_to_index index_to_obj
obj_to_index_lem c s i h =
    let c1 : ltb (s.s_mem + c.obj_size * i) s.s_mem ≡ false = ground arith in
    let d : s.s_mem + c.obj_size * i - s.s_mem ≡ i * c.obj_size =
      omega (arith, mul_comm c.obj_size i) in
    rw c1 (rw d (mul-div_cancel i h))

-- On a valid slab of objects of a positive size, neither at NULL, `slab_free_obj` of an object in
-- use, by its address, puts it first of the free ones, with the counter right; no other slab
-- changes, and the slab moves to the free list exactly with its last object in use.
pub slab_free_obj-Freed :
    (c : Cache) (a x : ℕ) (xs : List ℕ)
    → a ≢ null
    → 0 < c.obj_size
    → 0 < (c.slabs a).s_mem
    → IsSlab c.obj_num xs (c.slabs a)
    → x < c.obj_num
    → All (λ y. y ≢ x) xs
    → 0 < (c.slabs a).inuse
    → Freed c a x xs (slab_free_obj c a (index_to_obj c (c.slabs a) x))
unfolding slab_free_obj
slab_free_obj-Freed c a x xs z size mem v h d u =
    let s = c.slabs a in
    let p : (a == null) ≡ false = ground arith in
    let q : (index_to_obj c s x == null) ≡ false = unfold index_to_obj in ground arith in
    let e = obj_to_index_lem c s x size in
    let r : ltb c.obj_num x ≡ false = ground arith in
    let w = pushed-IsSlab c.obj_num s x xs v h d u in
    let k = v.counted in
    let few = v.few in
    let m : (pushed s x).inuse ≡ s.inuse - 1 = unfold pushed in omega arith in
    rw (p, q)
      (rw e (
        rw r (elim (Bool-cases ((pushed s x).inuse == 0)) [
          | inl none_left ↦ rw none_left (record {
            done = refl;
            slab = rw (to_free-Changed c a (pushed s x)).here w;
            changed = to_free-Changed c a (pushed s x);
            empty = λ g. refl;
            kept = λ g. absurd (let f = (==_iff _ _).0 none_left in omega arith);
          })
          | inr more ↦ rw more (record {
            done = refl;
            slab = rw (with_slab-Changed c a (pushed s x)).here w;
            changed = with_slab-Changed c a (pushed s x);
            empty = λ g. absurd (ground arith);
            kept = λ g. refl;
          })
        ])))
