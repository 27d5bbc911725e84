-- ===== src/Mm/Unmap.antt =====
-- The rest of an area that is partly unmapped: `unmap_fixup` of mm/mmap.c, on the tree of the areas. Offsets, inodes,
-- the calls of `vm_ops` and the list links of the areas are left out.
mod Tests
use prettyos.Common.{ℕ, ◌+◌, Bool, ◌%◌, ◌^◌, ◌&&◌, ◌||◌, ltb, leb, ◌==◌, if◌then◌else◌}
use prettyos.Mm.Avl.{Vma, Tree, avl_insert_neighbours}

abbrev null : ℕ
null = 0

-- There is never memory.
unfoldable pub kmalloc : ℕ → ℕ → ℕ
kmalloc size priority = null

-- `sizeof(struct vm_area_struct)`
abbrev vma_size : ℕ
vma_size = 60

abbrev gfp_kernel : ℕ
gfp_kernel = 3

-- The tree that `insert_vm_struct` leaves
unfoldable pub insert_vm_struct : Vma → Tree → Tree
insert_vm_struct new t = (avl_insert_neighbours new t).0

-- The last part: the copy of the area that ends at `addr`
unfoldable pub insert_copy : Vma → ℕ → Tree → Tree
insert_copy area addr t =
    if kmalloc vma_size gfp_kernel == null
    then t
    else insert_vm_struct (record area { vm_end = addr }) t

-- The parts of the area before and after the range; the area and the tree after it
unfoldable pub unmap_part : Vma → ℕ → ℕ → Tree → Vma × Tree
unmap_part area addr end t =
    let low : Vma = record area { vm_end = addr } in
    let high : Vma = record area { vm_start = end } in
    if end == area.vm_end
    then (low, insert_copy low addr t)
    else if addr == area.vm_start
    then (high, insert_copy high addr t)
    else if kmalloc vma_size gfp_kernel == null
    then (area, t)
    else (area, insert_copy area addr (insert_vm_struct high t))

-- The range is not in the area.
unfoldable pub is_outside : Vma → ℕ → ℕ → Bool
is_outside area addr end =
    ltb addr area.vm_start
    || leb area.vm_end addr
    || leb end area.vm_start
    || ltb area.vm_end end
    || ltb end addr

unfoldable pub unmap_fixup : Vma → ℕ → ℕ → Tree → Vma × Tree
unmap_fixup area addr len t =
    let end = (addr + len) % 2 ^ 32 in
    if is_outside area addr end
    then (area, t)
    else if (addr == area.vm_start) && (end == area.vm_end)
    then (area, t)
    else unmap_part area addr end t
