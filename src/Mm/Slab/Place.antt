-- ===== src/Mm/Slab/Place.antt =====
-- Where the objects of a slab stand, and which slab an object is taken to belong to.
use native.Mathlib.Nat.{mod-add-div}
use prettyos.Common.{ℕ, suc, ◌+◌, ◌*◌, ◌/◌, ◌%◌, ◌≤◌, ◌<◌, ◌≡◌, ◌↔◌, refl, sym, ap, ◌∙◌, arith}
use prettyos.Libc.Math.{power}
use prettyos.Mm.Slab.{Slab, Cache, slab_header, index_to_obj, slab_estimate, slab_init, slab_of}

-- The bytes of the block of a slab: 2 ^ 4 pages.
abbrev pub slab_bytes : ℕ
slab_bytes = 65536

-- Two objects of a slab do not overlap.
pub objects_apart :
    (c : Cache) (s : Slab) (i j : ℕ) → i < j → index_to_obj c s i + c.obj_size ≤ index_to_obj c s j
unfolding index_to_obj
objects_apart c s i j h = grind arith

estimate_lem : (size : ℕ) → slab_estimate size ≡ 65516 / size
unfolding slab_estimate power
estimate_lem size = refl

-- The objects of a new slab end inside its block exactly where the remainder of the estimate leaves room
-- for the `bufctl` array and the word after it: the estimate does not count them.
slab_init_fits_iff :
    (size a n : ℕ) (s : Slab) (c : Cache)
    → 0 < size
    → c.obj_size ≡ size
    → slab_estimate size ≡ suc n
    → (index_to_obj c (slab_init (suc n) s (a + slab_header)) (suc n) ≤ a + slab_bytes)
      ↔ ((suc n + 1) * 4 ≤ 65516 % size)
unfolding slab_init index_to_obj
slab_init_fits_iff size a n s c h e k =
    let q : 65516 / size ≡ suc n = sym (estimate_lem size) ∙ k in
    let d : 65516 % size + size * suc n ≡ 65516 =
      ap (λ z. 65516 % size + size * z) (sym q) ∙ mod-add-div 65516 size in
    let m : c.obj_size * suc n ≡ size * suc n = ap (λ z. z * suc n) e in
    ((λ f. omega arith), (λ f. omega arith))

-- Where a slab stands at the start of a block of 64 KiB, `kmem_free_obj` finds the slab for an
-- address in its block exactly where the address is in the first 16 KiB of it.
slab_of_iff :
    (a off : ℕ) → a % slab_bytes ≡ 0 → off < slab_bytes → (slab_of (a + off) ≡ a) ↔ (off < 16384)
unfolding slab_of
slab_of_iff a off h k = ((λ e. omega arith), (λ e. omega arith))
