-- ===== src/Mm/Unmap/Tests.antt =====
-- Unmapping at a concrete area.
use prettyos.Common.{◌≡◌, refl}
use prettyos.Mm.Avl.{Vma, Tree, empty, node}
use prettyos.Mm.Unmap.{kmalloc, insert_copy, unmap_part, is_outside, unmap_fixup}

abbrev area : Vma
area = record { vm_start = 0x1000; vm_end = 0x5000 }

abbrev other : Tree
other = node empty (record { vm_start = 0x6000; vm_end = 0x7000 }) 1 empty

-- The end of the area, its front and its middle: the area is not put into the tree again.
rest_lost :
    ((unmap_fixup area 0x4000 0x1000 other).1 ≡ other)
    × ((unmap_fixup area 0x1000 0x1000 other).1 ≡ other)
    × ((unmap_fixup area 0x2000 0x1000 other).1 ≡ other)
unfolding kmalloc insert_copy unmap_part is_outside unmap_fixup
rest_lost = (refl, refl, refl)
