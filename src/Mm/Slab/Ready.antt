-- ===== src/Mm/Slab/Ready.antt =====
-- Caches whose slabs on the partial and free list have a free object, and what keeps them so.
use prettyos.Common.{
  ℕ, ◌<◌, ◌≡◌, ◌≢◌, refl, sym, ap, ap₂, subst, ◌∙◌, List, [], ◌∷◌, ◌++◌, All, length, ◌==◌, arith,
  Bool-cases, inl, inr, ==_iff,
}
use prettyos.Libc.Linked.Chain.{Distinct}
use prettyos.Mm.Slab.{
  Slab, Cache, null, with_slab, without, unlinked, to_full, popped, last_of, get_slab_of,
}
use prettyos.Mm.Slab.Members.{
  Has, Has-last_of, Distinct-apart, without-miss, without-append, All-without, Distinct-without,
}
use prettyos.Mm.Slab.Free.{IsSlab, Changed, with_slab-Changed, to_full-Changed}

-- A slab with a free object.
pub record IsReady (c : Cache) (a : ℕ) : Type 0 where
  pub first : ℕ
  pub others : List ℕ
  pub slab : IsSlab c.obj_num (first ∷ others) (c.slabs a)
  pub nonnull : a ≢ null
  pub objects : 0 < (c.slabs a).s_mem

-- Every slab on the partial and the free list has a free object, and no slab is on them twice.
pub record IsCache (c : Cache) : Type 0 where
  pub ready : All (IsReady c) (c.partial_slabs ++ c.free_slabs)
  pub distinct : Distinct (c.partial_slabs ++ c.free_slabs)

-- A change of one slab on the lists that leaves it ready, or that takes it off the lists.
IsReady-other :
    (c c' : Cache) (a k : ℕ) (s : Slab) → Changed c c' a s → k ≢ a → IsReady c k → IsReady c' k
IsReady-other c c' a k s ch n r = record {
  first = r.first;
  others = r.others;
  slab = rw (ch.others k n, ch.num) r.slab;
  nonnull = r.nonnull;
  objects = rw (ch.others k n) r.objects;
}

IsReady-all :
    (c c' : Cache) (a : ℕ) (s : Slab) (xs : List ℕ)
    → Changed c c' a s
    → IsReady c' a
    → All (IsReady c) xs
    → All (IsReady c') xs
IsReady-all c c' a s [] ch h r = tt
IsReady-all c c' a s (x ∷ xs) ch h r = (
  elim (Bool-cases (x == a)) [
    | inl e ↦ subst (IsReady c') (sym ((==_iff x a).0 e)) h
    | inr e ↦ IsReady-other c c' a x s ch (λ d. ground arith) r.0
  ],
  IsReady-all c c' a s xs ch h r.1,
)

IsReady-apart :
    (c c' : Cache) (a : ℕ) (s : Slab) (xs : List ℕ)
    → Changed c c' a s
    → All (λ y. y ≢ a) xs
    → All (IsReady c) xs
    → All (IsReady c') xs
IsReady-apart c c' a s [] ch n r = tt
IsReady-apart c c' a s (x ∷ xs) ch n r =
    (IsReady-other c c' a x s ch n.0 r.0, IsReady-apart c c' a s xs ch n.1 r.1)

full_lists :
    (c : Cache) (a : ℕ) (s : Slab)
    → (to_full (with_slab c a s) a).partial_slabs ++ (to_full (with_slab c a s) a).free_slabs
      ≡ without a c.partial_slabs ++ without a c.free_slabs
unfolding to_full unlinked with_slab
full_lists c a s = refl

with_slab_lists :
    (c : Cache) (a : ℕ) (s : Slab)
    → (with_slab c a s).partial_slabs ++ (with_slab c a s).free_slabs
      ≡ c.partial_slabs ++ c.free_slabs
unfolding with_slab
with_slab_lists c a s = refl

pub emptied-IsCache :
    (c : Cache) (a : ℕ)
    → IsCache c
    → Has a c.partial_slabs
    → IsCache (to_full (with_slab c a (popped (c.slabs a))) a)
emptied-IsCache c a v h =
    let L = c.partial_slabs ++ c.free_slabs in
    let miss =
      without-miss a c.free_slabs (Distinct-apart a c.partial_slabs c.free_slabs v.distinct h) in
    let e : without a c.partial_slabs ++ without a c.free_slabs ≡ without a L =
      ap (λ z. without a c.partial_slabs ++ z) miss
      ∙ without-append a c.partial_slabs c.free_slabs h in
    let (d, n) = Distinct-without a L v.distinct in
    let c' = to_full (with_slab c a (popped (c.slabs a))) a in
    let ch = to_full-Changed c a (popped (c.slabs a)) in
    record {
      ready = subst (All (IsReady c')) (sym (full_lists c a (popped (c.slabs a)) ∙ e)) (
          IsReady-apart c c' a (popped (c.slabs a)) (without a L) ch n
            (All-without (IsReady c) a L v.ready));
      distinct = subst Distinct (sym (full_lists c a (popped (c.slabs a)) ∙ e)) d;
    }

-- A slab that keeps a free object stays where it is.
pub kept-IsCache :
    (c : Cache) (a : ℕ)
    → IsCache c
    → IsReady (with_slab c a (popped (c.slabs a))) a
    → IsCache (with_slab c a (popped (c.slabs a)))
kept-IsCache c a v r =
    let c' = with_slab c a (popped (c.slabs a)) in
    let L = c.partial_slabs ++ c.free_slabs in
    record {
      ready = subst (All (IsReady c')) (sym (with_slab_lists c a (popped (c.slabs a)))) (
          IsReady-all c c' a (popped (c.slabs a)) L (with_slab-Changed c a (popped (c.slabs a))) r
            v.ready);
      distinct = subst Distinct (sym (with_slab_lists c a (popped (c.slabs a)))) v.distinct;
    }

-- The slab that `kmem_get_slab` gives, and the cache it leaves.
pub record Picked (c : Cache) (out : ℕ × Cache) : Type 0 where
  pub partial : Has out.0 out.1.partial_slabs
  pub cache : IsCache out.1
  pub slabs : out.1.slabs ≡ c.slabs
  pub num : out.1.obj_num ≡ c.obj_num
  pub size : out.1.obj_size ≡ c.obj_size

moved :
    (c : Cache) (ps fs : List ℕ) (a : ℕ)
    → IsReady c a
    → IsReady (record c { partial_slabs = ps; free_slabs = fs }) a
moved c ps fs a r = record {
  first = r.first;
  others = r.others;
  slab = r.slab;
  nonnull = r.nonnull;
  objects = r.objects;
}

moved_all :
    (c : Cache) (ps fs xs : List ℕ)
    → All (IsReady c) xs
    → All (IsReady (record c { partial_slabs = ps; free_slabs = fs })) xs
moved_all c ps fs [] r = tt
moved_all c ps fs (x ∷ xs) r = (moved c ps fs x r.0, moved_all c ps fs xs r.1)

pub get_slab_of-Picked :
    (ps fs : List ℕ) (c : Cache)
    → c.partial_slabs ≡ ps
    → c.free_slabs ≡ fs
    → 0 < length (ps ++ fs)
    → IsCache c
    → Picked c (get_slab_of ps fs c)
unfolding get_slab_of
get_slab_of-Picked [] [] c e f h v = absurd (omega arith)
get_slab_of-Picked [] (x ∷ xs) c e f h v =
    let k : c.partial_slabs ++ c.free_slabs ≡ x ∷ xs = ap₂ (λ a b. a ++ b) e f in
    record {
      partial = inl refl;
      cache = record {
        ready = moved_all c (x ∷ []) xs (x ∷ xs) (subst (All (IsReady c)) k v.ready);
        distinct = subst Distinct k v.distinct;
      };
      slabs = refl;
      num = refl;
      size = refl;
    }
get_slab_of-Picked (x ∷ xs) fs c e f h v = record {
  partial = subst (Has (last_of x xs)) (sym e) (Has-last_of x xs);
  cache = v;
  slabs = refl;
  num = refl;
  size = refl;
}
