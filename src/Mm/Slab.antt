-- ===== src/Mm/Slab.antt =====
-- The object allocator, mm/slab.c and include/linux/slab.h. A slab is a block of 2 ^ 4 pages that begins
-- with its `struct slab`; its `bufctl` array links the free objects. A cache is its fields, the three
-- lists of its slabs by address, in order, and the slab that stands at each address. NULL is 0.
mod Tests
pub mod Free
pub mod Place
pub mod Members
pub mod Ready
pub mod Grow
pub mod Chain
use prettyos.Common.{
  ℕ, zero, suc, ◌+◌, ◌-◌, ◌*◌, ◌/◌, ◌%◌, ◌^◌, Bool, true, false, Option, none, some, List, [], ◌∷◌,
  ◌++◌, ltb, leb, ◌==◌, if◌then◌else◌,
}
use prettyos.Common.Int.{ℤ, pos, neg}
use prettyos.Libc.Math.{power}
use prettyos.Mm.Buddy.{Lists, page_size}
use prettyos.Mm.PageAlloc.{Got, address, get_free_pages}

pub record Slab : Type 0 where
  pub s_mem : ℕ
  pub free : ℕ
  pub inuse : ℕ
  pub bufctl : ℕ → ℕ

pub record Cache : Type 0 where
  pub nr_frees : ℕ
  pub nr_pages : ℕ
  pub obj_size : ℕ
  pub obj_num : ℕ
  pub partial_slabs : List ℕ
  pub full_slabs : List ℕ
  pub free_slabs : List ℕ
  pub slabs : ℕ → Slab

abbrev pub null : ℕ
null = 0

abbrev pub bufctl_end : ℕ
bufctl_end = 0xffffffff

abbrev pub default_slab_pages : ℕ
default_slab_pages = 4

abbrev pub max_slab_pages : ℕ
max_slab_pages = 8

-- `sizeof(struct slab)`: two links, a pointer and two counters
abbrev pub slab_header : ℕ
slab_header = 20

unfoldable pub write_at : (ℕ → ℕ) → ℕ → ℕ → ℕ → ℕ
write_at f i v k = if i == k then v else f k

-- A difference of pointers is signed, and the quotient goes into an `unsigned int`.
unfoldable pub obj_to_index : Cache → Slab → ℕ → ℕ
obj_to_index c s objp =
    if ltb objp s.s_mem
    then (2 ^ 32 - (s.s_mem - objp) / c.obj_size) % 2 ^ 32
    else (objp - s.s_mem) / c.obj_size

unfoldable pub index_to_obj : Cache → Slab → ℕ → ℕ
index_to_obj c s i = s.s_mem + c.obj_size * i

unfoldable pub with_slab : Cache → ℕ → Slab → Cache
with_slab c a s = record c { slabs = λ k. if a == k then s else c.slabs k }

-- `list_del` of the node of a slab: out of the list that it is on
unfoldable pub without : ℕ → List ℕ → List ℕ
without a [] = []
without a (x ∷ xs) = if a == x then xs else x ∷ without a xs

unfoldable pub unlinked : Cache → ℕ → Cache
unlinked c a = record c {
  partial_slabs = without a c.partial_slabs;
  full_slabs = without a c.full_slabs;
  free_slabs = without a c.free_slabs;
}

-- `list_add` is `list_add_head`, which inserts at the end.
unfoldable pub to_full : Cache → ℕ → Cache
to_full c a = let c' = unlinked c a in record c' { full_slabs = c'.full_slabs ++ (a ∷ []) }

unfoldable pub to_free : Cache → ℕ → Cache
to_free c a = let c' = unlinked c a in record c' { free_slabs = c'.free_slabs ++ (a ∷ []) }

-- The slab without the first free object
unfoldable pub popped : Slab → Slab
popped s = record s { inuse = (s.inuse + 1) % 2 ^ 32; free = s.bufctl s.free }

unfoldable pub slab_get_obj : Cache → ℕ → ℕ × Cache
slab_get_obj c a =
    if a == null
    then (null, c)
    else if (c.slabs a).free == bufctl_end
    then (null, c)
    else let s = c.slabs a in
      let c' = with_slab c a (popped s) in
      (index_to_obj c s s.free, if (popped s).inuse == c.obj_num then to_full c' a else c')

-- The slab with the object i free
unfoldable pub pushed : Slab → ℕ → Slab
pushed s i = record s {
  bufctl = write_at s.bufctl i s.free;
  free = i;
  inuse = (s.inuse + 2 ^ 32 - 1) % 2 ^ 32;
}

unfoldable pub slab_free_obj : Cache → ℕ → ℕ → ℤ × Cache
slab_free_obj c a objp =
    if a == null
    then (neg 1, c)
    else if objp == null
    then (neg 1, c)
    else let i = obj_to_index c (c.slabs a) objp in
      if ltb c.obj_num i
      then (neg 2, c)
      else let s' = pushed (c.slabs a) i in
        let c' = with_slab c a s' in (pos 0, if s'.inuse == 0 then to_free c' a else c')

-- `*obj_num` of `slab_estimate`
unfoldable pub slab_estimate : ℕ → ℕ
slab_estimate obj_size = (power default_slab_pages * page_size - slab_header) / obj_size

-- The loop of `slab_init`: `left` entries from i on.
unfoldable pub init_loop : ℕ → ℕ → (ℕ → ℕ) → ℕ → ℕ
init_loop zero i f = f
init_loop (suc left) i f = init_loop left (i + 1) (write_at f i (i + 1))

-- `ptr` is where the `bufctl` array begins. Without objects the last write goes before the array, to
-- `inuse` of the slab.
unfoldable pub slab_init : ℕ → Slab → ℕ → Slab
slab_init zero s ptr = record s { s_mem = ptr + 4; free = 0; inuse = bufctl_end }
slab_init (suc n) s ptr = record {
  s_mem = ptr + (suc n + 1) * 4;
  free = 0;
  inuse = 0;
  bufctl = write_at (init_loop (suc n) 0 s.bufctl) n bufctl_end;
}

-- The last entry of a list, which is what `list_get` gives.
unfoldable pub last_of : ℕ → List ℕ → ℕ
last_of x [] = x
last_of x (y ∷ ys) = last_of y ys

-- The slab to take an object from, or NULL; `list_get_del` takes the first.
unfoldable pub get_slab_of : List ℕ → List ℕ → Cache → ℕ × Cache
get_slab_of [] [] c = (null, c)
get_slab_of [] (f ∷ fs) c = (f, record c { free_slabs = fs; partial_slabs = f ∷ [] })
get_slab_of (p ∷ ps) fs c = (last_of p ps, c)

unfoldable pub kmem_get_slab : Cache → ℕ × Cache
kmem_get_slab c = get_slab_of c.partial_slabs c.free_slabs c

-- `list_add_tail` inserts right after the head.
unfoldable pub kmem_add_slab : Cache → ℕ → Cache
kmem_add_slab c a = record c {
  nr_frees = (c.nr_frees + c.obj_num) % 2 ^ 32;
  free_slabs = a ∷ c.free_slabs;
}

unfoldable pub kmem_free_slab : Cache → ℕ → ℤ × Cache
kmem_free_slab c a = if a == null then (neg 1, c) else (pos 0, unlinked c a)

-- The slab at the address a, added to the cache
unfoldable pub grown : Cache → ℕ → Cache
grown c a =
    let c1 = record c {
      obj_num = slab_estimate c.obj_size;
      nr_pages = (c.nr_pages + power default_slab_pages) % 2 ^ 32;
    } in
    let s = slab_init (slab_estimate c.obj_size) (c.slabs a) (a + slab_header) in
    kmem_add_slab (with_slab c1 a s) a

-- `none` where the page allocator does not give a block: the code goes on with what it returned.
unfoldable pub grow_with : Cache → Got × Lists → Option (ℤ × Cache × Lists)
grow_with c (address a, st) = some (pos 0, grown c a, st)
grow_with c (Got.null, st) = none
grow_with c (busy, st) = none

unfoldable pub cache_grow : Cache → Lists → Option (ℤ × Cache × Lists)
cache_grow c st =
    if c.obj_size == 0
    then some (neg 1, c, st)
    else grow_with c (get_free_pages default_slab_pages st)

-- `slab_get_obj` on the slab that `kmem_get_slab` gives
unfoldable pub get_from : Cache → ℕ × Cache
get_from c = let (slabp, c1) = kmem_get_slab c in slab_get_obj c1 slabp

-- The rest of a round, after the object: `again` is the jump to `repeat`.
unfoldable pub after_get :
    (Cache → Lists → Option (ℕ × Cache × Lists)) → ℕ × Cache → Lists → Option (ℕ × Cache × Lists)
after_get again (obj, c) st =
    if obj == null
    then (if leb (power max_slab_pages) c.nr_pages
        then some (null, c, st)
        else elim (cache_grow c st) [ none ↦ none | some (r, c', st') ↦ again c' st' ])
    else some (obj, c, st)

-- `repeat:`, on fuel; a successful round returns the object.
unfoldable pub kmem_get_obj : ℕ → Cache → Lists → Option (ℕ × Cache × Lists)
kmem_get_obj zero c st = none
kmem_get_obj (suc fuel) c st = after_get (kmem_get_obj fuel) (get_from c) st

-- `objp & VALUE_MASK(DEFAULT_SLAB_PAGES * PAGE_SIZE)`: the address rounded down to four pages.
unfoldable pub slab_of : ℕ → ℕ
slab_of objp = objp / (default_slab_pages * page_size) * (default_slab_pages * page_size)

unfoldable pub kmem_free_obj : Cache → ℕ → ℤ × Cache
kmem_free_obj c objp = if objp == null then (neg 1, c) else slab_free_obj c (slab_of objp) objp

-- `cache_chain`, as the object sizes of its caches: the loop of `kmem_chain_add`, which returns 0
-- wherever it inserts.
unfoldable pub chain_loop : ℕ → List ℕ → List ℕ
chain_loop size [] = []
chain_loop size (x ∷ xs) =
    if ltb size x
    then size ∷ x ∷ xs
    else x ∷ (elim xs [ [] ↦ size ∷ [] | y ∷ ys ↦ chain_loop size xs ])

unfoldable pub kmem_chain_add : ℕ → List ℕ → ℤ × List ℕ
kmem_chain_add size [] = (neg 1, size ∷ [])
kmem_chain_add size (x ∷ xs) = (pos 0, chain_loop size (x ∷ xs))

unfoldable pub kmem_list_init : Cache → Cache
kmem_list_init c = record c { partial_slabs = []; full_slabs = []; free_slabs = [] }

-- The new cache before its first slab; the name and the flags are left out.
unfoldable pub created : ℕ → (ℕ → Slab) → Cache
created obj_size slabs = kmem_list_init (record {
  nr_frees = 0;
  nr_pages = 0;
  obj_size = obj_size;
  obj_num = 0;
  partial_slabs = [];
  full_slabs = [];
  free_slabs = [];
  slabs = slabs;
})

-- The page for the `struct kmem_cache`, the first slab, and the place on the chain. The results of
-- `cache_grow` and `kmem_chain_add` are not looked at.
unfoldable pub kmem_cache_create :
    ℕ → (ℕ → Slab) → List ℕ → Lists → Option (Option Cache × List ℕ × Lists)
kmem_cache_create obj_size slabs chain st =
    if obj_size == 0
    then some (none, chain, st)
    else let (g, st1) = get_free_pages 0 st in
      elim g [
        | address a ↦ elim (cache_grow (created obj_size slabs) st1) [
          | none ↦ none
          | some (r, c, st2) ↦ some (some c, (kmem_chain_add obj_size chain).1, st2)
        ]
        | Got.null ↦ some (none, chain, st1)
        | _ ↦ none
      ]
