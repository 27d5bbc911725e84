-- ===== src/Mm/PageAlloc.antt =====
-- The page allocator on the buddy lists: mm/page_alloc.c.
pub mod Free
pub mod Alloc
pub mod Size
mod Tests
use prettyos.Common.{
  ℕ, zero, suc, ◌+◌, ◌-◌, ◌/◌, ◌^◌, Bool, true, false, Option, none, some, ltb, leb, ◌==◌,
  if◌then◌else◌,
}
use prettyos.Common.Int.{ℤ, pos, negsuc, neg, is_neg}
use prettyos.Libc.Math.{power}
use prettyos.Mm.Buddy.{
  Lists, nr_mem_lists, page_size, page_address, is_zero, is_pos, buddy_list_add, buddy_list_del,
  buddy_list_add_line,
}

-- `free_pages_ok`
pub free_pages_ok : Option ℕ → ℕ → Lists → ℤ × Lists
free_pages_ok none order st = (neg 1, st)
free_pages_ok (some page) order st =
    if leb nr_mem_lists order
    then (neg 1, st)
    else (let (r, st') = buddy_list_add_line (some page) order st in
        if is_neg r then (neg 2, st') else (pos 0, st'))

-- `free_pages`; `sys_ram` tells the pages whose `flags` have SYS_RAM.
pub free_pages : (ℕ → Bool) → Option ℕ → ℕ → Lists → ℤ × Lists
free_pages sys_ram none order st = (neg 1, st)
free_pages sys_ram (some page) order st =
    if leb nr_mem_lists order
    then (neg 1, st)
    else if sys_ram page
    then (let (r, st') = free_pages_ok (some page) order st in
        if is_neg r then (neg 2, st') else (pos 0, st'))
    else (pos 0, st)

-- What `get_free_pages` comes to: NULL, a block, an error code, a walk past the end of
-- `buddy_list`, or (in the model alone) no rounds left.
pub data Got : Type 0 where
  null : Got
  address : ℕ → Got
  failed : ℤ → Got
  out_of_bounds : Got
  out_of_fuel : Got

-- `while(queue->nr_free_pages == 0) { ++new_order; ++queue; }` with `left` queues left.
unfoldable pub first_nonempty : ℕ → ℕ → Lists → Option ℕ
first_nonempty zero k st = none
first_nonempty (suc left) k st =
    let rest = first_nonempty left (k + 1) st in
    if is_zero (st k).nr_free_pages then rest else some k

-- The block `page` of order `new_order` in two halves, on the list below. At order 0 that list would
-- stand before the array.
unfoldable pub halve : ℕ → ℕ → Lists → Option Got × Lists
halve zero page st = (some out_of_bounds, st)
halve (suc k) page st =
    let st' = (buddy_list_add (some page) k st).1 in
    (none, (buddy_list_add (some (page + power k)) k st').1)

-- The `else` branch below the inner loop; `some` is a return.
unfoldable pub split : ℕ → Lists → Option Got × Lists
split new_order st = elim (buddy_list_del new_order st).1 [
  | none ↦ (some (failed (neg 2)), st)
  | some page ↦ halve new_order page (buddy_list_del new_order st).2
]

-- From the label `repeat` on.
unfoldable pub get_loop : ℕ → ℕ → Lists → Got × Lists
get_loop zero order st = (out_of_fuel, st)
get_loop (suc fuel) order st = elim (is_pos (st order).nr_free_pages) [
  | true ↦ elim (buddy_list_del order st).1 [
    | none ↦ (failed (neg 3), st)
    | some page ↦ (address (page_address page), (buddy_list_del order st).2)
  ]
  | false ↦ elim (first_nonempty (nr_mem_lists - order) order st) [
    | none ↦ (out_of_bounds, st)
    | some k ↦ elim (split k st).0 [
      | some r ↦ (r, (split k st).1)
      | none ↦ get_loop fuel order (split k st).1
    ]
  ]
]

unfoldable pub get_free_pages : ℕ → Lists → Got × Lists
get_free_pages order st =
    if leb nr_mem_lists order then (null, st) else get_loop (nr_mem_lists + 1) order st

abbrev pub gfp_atomic : ℕ
gfp_atomic = 2

-- `__get_free_pages`
pub get_free_pages_gfp : ℕ → ℕ → Lists → Got × Lists
get_free_pages_gfp priority order st =
    if priority == gfp_atomic then get_free_pages order st else (null, st)

-- `alloc_mem`. An order of 2 ^ 31 is a negative `int`, which passes the guard of `get_free_pages` and
-- stands before the array.
pub alloc_mem : ℕ → Lists → Got × Lists
alloc_mem size st =
    let order = power (size / page_size) in
    if ltb order (2 ^ 31) then get_free_pages order st else (out_of_bounds, st)
