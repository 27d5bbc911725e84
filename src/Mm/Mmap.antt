-- ===== src/Mm/Mmap.antt =====
-- `do_mmap` of mm/mmap.c and what it calls, up to the first write to the new area: `kmalloc` of mm/kmalloc.c
-- always gives NULL, so the code never comes further. Of a file only the fields that are read are kept.
mod Tests
pub mod Outcome
use prettyos.Common.{
  ℕ, ◌+◌, ◌-◌, ◌*◌, ◌/◌, ◌%◌, ◌^◌, bit_and, Bool, true, false, not, ◌||◌, Option, none, some, List,
  [], ◌∷◌, ltb, ◌==◌, if◌then◌else◌,
}
use prettyos.Mm.Avl.{Vma}
use prettyos.Mm.Buddy.{page_size}

-- `has_mmap` says whether `f_op` and its `mmap` are there.
pub record File : Type 0 where
  pub f_mode : ℕ
  pub has_mmap : Bool

-- An address, an error number, or a read or write at NULL
pub data Mapped : Type 0 where
  mapped : ℕ → Mapped
  failed : ℕ → Mapped
  at_null : Mapped

abbrev pub page_offset : ℕ
page_offset = 0xC0000000

abbrev pub einval : ℕ
einval = 22

abbrev pub enodev : ℕ
enodev = 19

abbrev pub map_type : ℕ
map_type = 15

abbrev pub map_shared : ℕ
map_shared = 1

abbrev pub map_private : ℕ
map_private = 2

abbrev pub map_fixed : ℕ
map_fixed = 4

unfoldable pub page_align : ℕ → ℕ
page_align len = (len + page_size + 2 ^ 32 - 1) % 2 ^ 32 / page_size * page_size

-- The walk over the list of areas, which has no other end than NULL
unfoldable pub get_unmmapped_area : List Vma → Mapped
get_unmmapped_area [] = at_null
get_unmmapped_area (v ∷ vs) = get_unmmapped_area vs

-- The `switch` where there is no file: each way out of `MAP_SHARED` and `MAP_PRIVATE` reads the file first.
unfoldable pub without_file : ℕ → Mapped
without_file kind = if (kind == map_shared) || (kind == map_private) then at_null else failed einval

unfoldable pub new_area : File → Mapped
new_area f = if f.has_mmap then at_null else failed enodev

unfoldable pub at_address : File → ℕ → ℕ → Mapped
at_address f addr len =
    if not (addr % page_size == 0)
    then failed einval
    else if ltb page_offset len || ltb page_offset ((addr + len) % 2 ^ 32)
    then failed einval
    else new_area f

unfoldable pub with_file : File → List Vma → ℕ → ℕ → ℕ → Mapped
with_file f mmap addr len flags =
    if not (bit_and flags map_type == map_private)
    then failed einval
    else if bit_and flags map_fixed == 0
    then get_unmmapped_area mmap
    else at_address f addr len

-- The part that depends on the file
unfoldable pub find_address : Option File → List Vma → ℕ → ℕ → ℕ → Mapped
find_address none mmap addr len flags = without_file (bit_and flags map_type)
find_address (some f) mmap addr len flags = with_file f mmap addr len flags

unfoldable pub do_mmap : Option File → List Vma → ℕ → ℕ → ℕ → Mapped
do_mmap file mmap addr len flags =
    if len == 0
    then failed einval
    else if page_align len == 0
    then mapped addr
    else if ltb page_offset addr
        || ltb page_offset (page_align len)
        || ltb page_offset ((addr + page_align len) % 2 ^ 32)
    then failed einval
    else find_address file mmap addr (page_align len) flags
