-- ===== src/Mm/Slab/Grow.antt =====
-- A cache that is asked for an object.
use prettyos.Common.{
  ℕ, suc, ◌+◌, ◌*◌, ◌^◌, ◌<◌, ◌≡◌, ◌≢◌, refl, sym, ap, ap₂, subst, ◌∙◌, true, false, some, List, [],
  ◌∷◌, ◌++◌, All, length, leb, ◌==◌, arith,
}
use prettyos.Common.Int.{ℤ, pos}
use prettyos.Libc.Linked.Chain.{Distinct}
use prettyos.Libc.Math.{power}
use prettyos.Mm.Buddy.{Lists}
use prettyos.Mm.PageAlloc.{address, get_free_pages}
use prettyos.Mm.Slab.{
  Slab, Cache, null, index_to_obj, with_slab, popped, slab_get_obj, last_of, get_slab_of,
  kmem_get_slab, kmem_get_obj, get_from, after_get, grow_with, kmem_add_slab, grown, cache_grow,
  slab_estimate, slab_init, default_slab_pages, max_slab_pages, slab_header,
}
use prettyos.Mm.Slab.Members.{Has, All-Has, Has-append}
use prettyos.Mm.Slab.Free.{
  IsSlab, Taken, slab_get_obj-Taken, slab_init-IsSlab, with_slab-Changed, upto,
}
use prettyos.Mm.Slab.Ready.{IsReady, IsCache, emptied-IsCache, kept-IsCache, get_slab_of-Picked}

-- What a round of `kmem_get_obj` does on a slab of the partial list.
pub record Given (c : Cache) (out : ℕ × Cache) : Type 0 where
  pub slab : ℕ
  pub index : ℕ
  pub rest : List ℕ
  pub obj : out.0 ≡ index_to_obj c (c.slabs slab) index
  pub nonnull : out.0 ≢ null
  pub was_free : IsSlab c.obj_num (index ∷ rest) (c.slabs slab)
  pub now_taken : IsSlab c.obj_num rest (out.1.slabs slab)
  pub cache : IsCache out.1

index_nonnull : (c : Cache) (s : Slab) (i : ℕ) → 0 < s.s_mem → index_to_obj c s i ≢ null
unfolding index_to_obj
index_nonnull c s i h e = ground arith

given_cache :
    (c : Cache) (a x : ℕ) (xs : List ℕ)
    → IsCache c
    → Has a c.partial_slabs
    → IsReady c a
    → (out : ℕ × Cache) → Taken c a x xs out
    → IsCache out.1
given_cache c a x [] v h r out t = rw (t.full refl) (emptied-IsCache c a v h)
given_cache c a x (y ∷ ys) v h r out t =
    let e = t.kept (omega arith) in
    let s : IsSlab c.obj_num (y ∷ ys) ((with_slab c a (popped (c.slabs a))).slabs a) =
      subst (λ z. IsSlab c.obj_num (y ∷ ys) (z.slabs a)) e t.slab in
    let w = with_slab-Changed c a (popped (c.slabs a)) in
    rw e (
      kept-IsCache c a v (record {
        first = y;
        others = ys;
        slab = rw w.num s;
        nonnull = r.nonnull;
        objects = rw w.here (unfold popped in r.objects);
      }))

Given-of :
    (c : Cache) (a : ℕ)
    → IsCache c
    → Has a c.partial_slabs
    → (g : Given c (slab_get_obj c a)) × (g.slab ≡ a)
Given-of c a v h =
    let r =
      All-Has (IsReady c) a (c.partial_slabs ++ c.free_slabs) v.ready
        (Has-append a c.partial_slabs c.free_slabs h) in
    let t = slab_get_obj-Taken c a r.first r.others r.nonnull r.slab in
    let m = r.objects in
    (
      record {
        slab = a;
        index = r.first;
        rest = r.others;
        obj = t.obj;
        nonnull = λ e. index_nonnull c (c.slabs a) r.first m (sym t.obj ∙ e);
        was_free = r.slab;
        now_taken = t.slab;
        cache = given_cache c a r.first r.others v h r (slab_get_obj c a) t;
      },
      refl,
    )

Given-moved :
    (c c1 : Cache) (out : ℕ × Cache)
    → c1.slabs ≡ c.slabs
    → c1.obj_num ≡ c.obj_num
    → c1.obj_size ≡ c.obj_size
    → (g : Given c1 out) → (h : Given c out) × (h.slab ≡ g.slab)
unfolding index_to_obj
Given-moved c c1 out e f k g = (
  record {
    slab = g.slab;
    index = g.index;
    rest = g.rest;
    obj = g.obj ∙ ap₂ (λ (u : ℕ → Slab) (z : ℕ). (u g.slab).s_mem + z * g.index) e k;
    nonnull = g.nonnull;
    was_free =
        subst (λ u. IsSlab c.obj_num (g.index ∷ g.rest) (u g.slab)) e
          (subst (λ n. IsSlab n (g.index ∷ g.rest) (c1.slabs g.slab)) f g.was_free);
    now_taken = subst (λ n. IsSlab n g.rest (out.1.slabs g.slab)) f g.now_taken;
    cache = g.cache;
  },
  refl,
)

-- The object is one of the slab that `kmem_get_slab` picks.
Given-from :
    (fuel : ℕ) (c : Cache) (st : Lists)
    → IsCache c
    → 0 < length (c.partial_slabs ++ c.free_slabs)
    → (obj : ℕ) × (c' : Cache) × (kmem_get_obj (suc fuel) c st ≡ some (obj, c', st))
      × (g : Given c (obj, c')) × (g.slab ≡ (kmem_get_slab c).0)
unfolding kmem_get_obj kmem_get_slab get_from after_get
Given-from fuel c st v h =
    let k = get_slab_of-Picked c.partial_slabs c.free_slabs c refl refl h v in
    let a = (kmem_get_slab c).0 in
    let c1 = (kmem_get_slab c).1 in
    let (g, at) = Given-of c1 a k.cache k.partial in
    let n = g.nonnull in
    let e : ((slab_get_obj c1 a).0 == null) ≡ false = ground arith in
    let (g', same) = Given-moved c c1 (slab_get_obj c1 a) k.slabs k.num k.size g in
    ((slab_get_obj c1 a).0, (slab_get_obj c1 a).1, rw (e, kmem_get_obj) refl, g', same ∙ at)

-- On a valid cache with a slab on its partial or free list, `kmem_get_obj` ends in its first round,
-- takes no pages, and hands out an object that was free and is not any more, of a slab of the
-- cache; the cache stays valid.
pub kmem_get_obj-Given :
    (fuel : ℕ) (c : Cache) (st : Lists)
    → IsCache c
    → 0 < length (c.partial_slabs ++ c.free_slabs)
    → (obj : ℕ) × (c' : Cache) × (kmem_get_obj (suc fuel) c st ≡ some (obj, c', st))
      × Given c (obj, c')
kmem_get_obj-Given fuel c st v h =
    let (obj, c', run, g, at) = Given-from fuel c st v h in (obj, c', run, g)

grown-IsCache :
    (c : Cache) (a n : ℕ)
    → c.partial_slabs ≡ []
    → c.free_slabs ≡ []
    → a ≢ null
    → slab_estimate c.obj_size ≡ suc n
    → suc n < 2 ^ 31
    → IsCache (grown c a) × ((grown c a).partial_slabs ++ (grown c a).free_slabs ≡ a ∷ [])
unfolding grown kmem_add_slab with_slab slab_init
grown-IsCache c a n e f z k h =
    let same : (a == a) ≡ true = ground arith in
    let s = c.slabs a in
    let ptr = a + slab_header in
    let l : c.partial_slabs ++ (a ∷ c.free_slabs) ≡ a ∷ [] = ap₂ (λ p q. p ++ (a ∷ q)) e f in
    let r : IsReady (grown c a) a = record {
      first = 0;
      others = upto n 1;
      slab = rw same (
          subst (λ m. IsSlab m (0 ∷ upto n 1) (slab_init m s ptr)) (sym k)
            (slab_init-IsSlab n s ptr h));
      nonnull = z;
      objects = rw same (subst (λ m. 0 < (slab_init m s ptr).s_mem) (sym k) (omega arith));
    } in
    (
      record {
        ready = subst (All (IsReady (grown c a))) (sym l) (r, tt);
        distinct = subst Distinct (sym l) (tt, tt);
      },
      l,
    )

get_slab_none : (c : Cache) → c.partial_slabs ≡ [] → c.free_slabs ≡ [] → kmem_get_slab c ≡ (null, c)
unfolding kmem_get_slab get_slab_of
get_slab_none c e f = ap₂ (λ p q. get_slab_of p q c) e f

get_from_none : (c : Cache) → kmem_get_slab c ≡ (null, c) → get_from c ≡ (null, c)
unfolding get_from slab_get_obj
get_from_none c e = ap (λ (z : ℕ × Cache). slab_get_obj z.1 z.0) e

after_get_grows :
    (m : ℕ) (c c3 : Cache) (st st3 : Lists) (r : ℤ)
    → leb (power max_slab_pages) c.nr_pages ≡ false
    → cache_grow c st ≡ some (r, c3, st3)
    → after_get (kmem_get_obj m) (null, c) st ≡ kmem_get_obj m c3 st3
unfolding after_get
after_get_grows m c c3 st st3 r b g = rw (b, g) refl

get_obj_grows :
    (m : ℕ) (c c3 : Cache) (st st3 : Lists) (r : ℤ)
    → kmem_get_slab c ≡ (null, c)
    → leb (power max_slab_pages) c.nr_pages ≡ false
    → cache_grow c st ≡ some (r, c3, st3)
    → kmem_get_obj (suc m) c st ≡ kmem_get_obj m c3 st3
unfolding kmem_get_obj
get_obj_grows m c c3 st st3 r e b g =
    ap (λ z. after_get (kmem_get_obj m) z st) (get_from_none c e)
    ∙ after_get_grows m c c3 st st3 r b g

cache_grow-some :
    (c : Cache) (st st' : Lists) (a : ℕ)
    → 0 < c.obj_size
    → get_free_pages default_slab_pages st ≡ (address a, st')
    → cache_grow c st ≡ some (pos 0, grown c a, st')
unfolding cache_grow grow_with
cache_grow-some c st st' a q p =
    let d : (c.obj_size == 0) ≡ false = ground arith in rw d (ap (grow_with c) p)

picks_grown :
    (c : Cache) (a : ℕ)
    → c.partial_slabs ≡ []
    → c.free_slabs ≡ []
    → (kmem_get_slab (grown c a)).0 ≡ a
unfolding kmem_get_slab get_slab_of grown kmem_add_slab with_slab last_of
picks_grown c a e f = ap₂ (λ p q. (get_slab_of p (a ∷ q) (grown c a)).0) e f

-- On a cache with no slab to take from and below its limit of pages, where the page allocator gives
-- a block, not at NULL, for a slab of at least one object and fewer than 2 ^ 31, of a positive
-- size, `kmem_get_obj` makes the slab, ends in its second round and hands out an object of this new slab that
-- was free; the cache is valid then.
pub kmem_get_obj-Grown :
    (fuel : ℕ) (c : Cache) (st st' : Lists) (a n : ℕ)
    → c.partial_slabs ≡ []
    → c.free_slabs ≡ []
    → c.nr_pages < power max_slab_pages
    → get_free_pages default_slab_pages st ≡ (address a, st')
    → a ≢ null
    → 0 < c.obj_size
    → slab_estimate c.obj_size ≡ suc n
    → suc n < 2 ^ 31
    → (obj : ℕ) × (c' : Cache) × (kmem_get_obj (suc (suc fuel)) c st ≡ some (obj, c', st'))
      × (g : Given (grown c a) (obj, c')) × (g.slab ≡ a)
kmem_get_obj-Grown fuel c st st' a n e f g p z q k h =
    let (v, l) = grown-IsCache c a n e f z k h in
    let (obj, c', r, w, at) = Given-from fuel (grown c a) st' v (rw l (omega arith)) in
    let b : leb (power max_slab_pages) c.nr_pages ≡ false = ground arith in
    (
      obj,
      c',
      get_obj_grows (suc fuel) c (grown c a) st st' (pos 0) (get_slab_none c e f) b
            (cache_grow-some c st st' a q p)
          ∙ r,
      w,
      at ∙ picks_grown c a e f,
    )
