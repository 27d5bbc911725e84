-- ===== src/Mm/Slab/Tests.antt =====
-- The object allocator at concrete caches, and the theorems at concrete inputs.
use prettyos.Common.{◌+◌, ◌≡◌, refl, ap, some, [], ◌∷◌, arith, ℕ}
use prettyos.Common.Int.{pos}
use prettyos.Libc.Math.{power}
use prettyos.Mm.Buddy.{
  Queue, Lists, update, buddy_list_init, buddy_list_del, buddy_list_add, take_first, page_address,
}
use prettyos.Mm.PageAlloc.{address, get_free_pages, get_loop, first_nonempty, split, halve}
use prettyos.Mm.Slab.{
  Slab, Cache, slab_init, init_loop, last_of, write_at, slab_get_obj, slab_free_obj, index_to_obj,
  with_slab, popped, kmem_get_obj, slab_estimate, slab_header, grown, get_from, kmem_get_slab,
  get_slab_of, after_get, default_slab_pages,
}
use prettyos.Mm.Slab.Free.{IsSlab, Linked, upto, slab_init-IsSlab, Freed, slab_free_obj-Freed}
use prettyos.Mm.Slab.Ready.{IsCache}
use prettyos.Mm.Slab.Grow.{Given, kmem_get_obj-Given, kmem_get_obj-Grown}

abbrev blank : Slab
blank = record { s_mem = 0; free = 0; inuse = 0; bufctl = λ i. 0 }

-- A slab of three objects of 100 bytes at 0x10000.
abbrev cache : Cache
cache = record {
  nr_frees = 3;
  nr_pages = 16;
  obj_size = 100;
  obj_num = 3;
  partial_slabs = 0x10000 ∷ [];
  full_slabs = [];
  free_slabs = [];
  slabs = λ a. slab_init 3 blank (a + slab_header);
}

cache-IsSlab : IsSlab 3 (upto 3 0) (cache.slabs 0x10000)
cache-IsSlab = slab_init-IsSlab 2 blank 0x10014 (omega arith)

cache-IsCache : IsCache cache
unfolding slab_init
cache-IsCache = record {
  ready = (
    record {
      first = 0;
      others = upto 2 1;
      slab = cache-IsSlab;
      nonnull = omega arith;
      objects = omega arith;
    },
    tt,
  );
  distinct = (tt, tt);
}

-- The objects in the order in which they are handed out, and NULL from a full cache at its limit.
first_object :
    (kmem_get_obj 1 cache buddy_list_init)
    ≡ some (0x10024, with_slab cache 0x10000 (popped (cache.slabs 0x10000)), buddy_list_init)
unfolding kmem_get_obj after_get get_from kmem_get_slab get_slab_of slab_get_obj index_to_obj popped
    slab_init init_loop write_at last_of
first_object = refl

-- The cache after its first object is taken.
abbrev used : Cache
used = with_slab cache 0x10000 (popped (cache.slabs 0x10000))

used-IsSlab : IsSlab 3 (1 ∷ 2 ∷ []) (used.slabs 0x10000)
unfolding with_slab popped slab_init init_loop write_at Linked
used-IsSlab = record {
  few = omega arith;
  linked = (refl, (refl, refl));
  distinct = ((omega arith, tt), (tt, tt));
  inside = (omega arith, (omega arith, tt));
  counted = refl;
}

slab_free_obj-Freed_example :
    Freed used 0x10000 0
      (1 ∷ 2 ∷ [])
      (slab_free_obj used 0x10000 (index_to_obj used (used.slabs 0x10000) 0))
unfolding with_slab popped slab_init
slab_free_obj-Freed_example =
    slab_free_obj-Freed used 0x10000 0 (1 ∷ 2 ∷ []) (omega arith) (omega arith) (omega arith)
      used-IsSlab (omega arith) (omega arith, (omega arith, tt)) (omega arith)

kmem_get_obj-Given_example :
    (obj : ℕ) × (c' : Cache) × (kmem_get_obj 1 cache buddy_list_init
      ≡ some (obj, c', buddy_list_init))
    × Given cache (obj, c')
kmem_get_obj-Given_example = kmem_get_obj-Given 0 cache buddy_list_init cache-IsCache (omega arith)

abbrev empty : Cache
empty = record {
  nr_frees = 0;
  nr_pages = 0;
  obj_size = 30000;
  obj_num = 0;
  partial_slabs = [];
  full_slabs = [];
  free_slabs = [];
  slabs = λ a. blank;
}

abbrev block : Queue
block = record { pages = 32 ∷ []; nr_free_pages = pos 1 }

-- One block of order 4, at page 32.
abbrev lists : Lists
lists = update buddy_list_init 4 block

got : (get_free_pages default_slab_pages lists).0 ≡ address 0x20000
unfolding get_free_pages get_loop first_nonempty split halve buddy_list_del buddy_list_add
    take_first page_address power update buddy_list_init
got = refl

kmem_get_obj-Grown_example :
    (obj : ℕ) × (c' : Cache) × (kmem_get_obj 2 empty lists
      ≡ some (obj, c', (get_free_pages default_slab_pages lists).1))
    × (g : Given (grown empty 0x20000) (obj, c')) × (g.slab ≡ 0x20000)
unfolding slab_estimate power
kmem_get_obj-Grown_example =
    kmem_get_obj-Grown 0 empty lists (get_free_pages default_slab_pages lists).1 0x20000 1 refl refl
      (omega arith) (ap (λ g. (g, (get_free_pages default_slab_pages lists).1)) got) (omega arith)
      (omega arith) refl (omega arith)
