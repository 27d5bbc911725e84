-- ===== src/Mm/Buddy.antt =====
-- The buddy lists of free pages: mm/buddy.c.
-- `init_mem` lays the `struct page`s out in one array, in the order of their addresses: a page is its
-- index there, `page + n` is the index plus n, and its address is the index times PAGE_SIZE. A list
-- of `list_head`s is the list of its pages from `head->next` on, so that `list_add` (which is
-- `list_add_head`) puts a page at the end and `list_get_del` (`list_get_head_del`) takes the first.
pub mod Cover
pub mod Lists
pub mod Tidy
mod Tests
use prettyos.Common.{
  ℕ, zero, suc, ◌+◌, ◌-◌, ◌*◌, ◌/◌, ◌%◌, ◌^◌, Bool, true, false, Option, none, some, List, [], ◌∷◌,
  ◌++◌, ltb, leb, ◌==◌, ◌&&◌, ◌||◌, if◌then◌else◌, length,
}
use prettyos.Common.Int.{ℤ, pos, negsuc, neg}
use prettyos.Libc.Math.{power}

abbrev pub nr_mem_lists : ℕ
nr_mem_lists = 10

abbrev pub page_size : ℕ
page_size = 4096

-- `page->address`, an `unsigned long`
unfoldable pub page_address : ℕ → ℕ
page_address page = page * page_size % 2 ^ 32

-- `struct buddy_list`
pub record Queue : Type 0 where
  pub pages : List ℕ
  pub nr_free_pages : ℤ

-- The array `buddy_list`; the indices from NR_MEM_LISTS on are outside it.
abbrev pub Lists : Type 0
Lists = ℕ → Queue

unfoldable pub update : Lists → ℕ → Queue → Lists
update st k q i = if k == i then q else st i

abbrev pub incr : ℤ → ℤ
incr (pos n) = pos (suc n)
incr (negsuc zero) = pos zero
incr (negsuc (suc n)) = negsuc n

abbrev pub decr : ℤ → ℤ
decr (pos zero) = negsuc zero
decr (pos (suc n)) = pos n
decr (negsuc n) = negsuc (suc n)

abbrev pub is_zero : ℤ → Bool
is_zero (pos zero) = true
is_zero (pos (suc n)) = false
is_zero (negsuc n) = false

abbrev pub is_pos : ℤ → Bool
is_pos (pos zero) = false
is_pos (pos (suc n)) = true
is_pos (negsuc n) = false

-- `buddy_list_init`
unfoldable pub buddy_list_init : Lists
buddy_list_init i = record { pages = []; nr_free_pages = pos 0 }

-- The queue with `page` at its end, counted.
abbrev pub added : Queue → ℕ → Queue
added q page = record { pages = q.pages ++ (page ∷ []); nr_free_pages = incr q.nr_free_pages }

-- `buddy_list_add`; a page of `none` is NULL.
unfoldable pub buddy_list_add : Option ℕ → ℕ → Lists → ℤ × Lists
buddy_list_add none order st = (neg 1, st)
buddy_list_add (some page) order st =
    if leb nr_mem_lists order then (neg 1, st) else (pos 0, update st order (added (st order) page))

-- `buddy_list_del`, with the page that goes through `item`.
unfoldable pub take_first : List ℕ → Queue → ℕ → Lists → ℤ × Option ℕ × Lists
take_first [] q order st = (neg 2, none, st)
take_first (page ∷ rest) q order st = (
  pos 0,
  some page,
  update st order (record { pages = rest; nr_free_pages = decr q.nr_free_pages }),
)

unfoldable pub buddy_list_del : ℕ → Lists → ℤ × Option ℕ × Lists
buddy_list_del order st =
    if leb nr_mem_lists order
    then (neg 1, none, st)
    else take_first (st order).pages (st order) order st

-- The loop of `buddy_list_add_line` over a list; `none` is its end with no page inserted.
unfoldable pub add_line : ℕ → List ℕ → Option (List ℕ)
add_line page [] = none
add_line page (x ∷ []) =
    if ltb (page_address page) (page_address x) then some (page ∷ x ∷ []) else some (x ∷ page ∷ [])
add_line page (x ∷ y ∷ ys) =
    if ltb (page_address page) (page_address x)
    then some (page ∷ x ∷ y ∷ ys)
    else elim (add_line page (y ∷ ys)) [ none ↦ none | some zs ↦ some (x ∷ zs) ]

-- `buddy_list_add_line` below its guard, by whether the list is empty.
unfoldable pub add_sorted : ℕ → ℕ → Lists → List ℕ → ℤ × Lists
add_sorted page order st [] = (pos 0, update st order (added (st order) page))
add_sorted page order st (x ∷ xs) = elim (add_line page (x ∷ xs)) [
  | none ↦ (neg 1, st)
  | some ys ↦ (
    pos 0,
    update st order (record { pages = ys; nr_free_pages = incr (st order).nr_free_pages }),
  )
]

unfoldable pub buddy_list_add_line : Option ℕ → ℕ → Lists → ℤ × Lists
buddy_list_add_line none order st = (neg 1, st)
buddy_list_add_line (some page) order st =
    if leb nr_mem_lists order then (neg 1, st) else add_sorted page order st (st order).pages

-- `is_pageclosed` on two pages
unfoldable pub is_pageclosed : ℕ → ℕ → ℕ → Bool
is_pageclosed prev next order =
    ((page_address prev + power order * page_size) % 2 ^ 32 == page_address next)
    || ((page_address prev + 2 ^ 32 - power order * page_size % 2 ^ 32) % 2 ^ 32
        == page_address next)

-- One pass of `buddy_list_tidy` over a list: the pages that stay and those that move up.
unfoldable pub tidy_list : ℕ → List ℕ → List ℕ × List ℕ
tidy_list order [] = ([], [])
tidy_list order (x ∷ []) = (x ∷ [], [])
tidy_list order (x ∷ y ∷ ys) = elim (is_pageclosed x y order) [
  | true ↦ let (kept, moved) = tidy_list order ys in (kept, x ∷ moved)
  | false ↦ let (kept, moved) = tidy_list order (y ∷ ys) in (x ∷ kept, moved)
]

-- `nr_free_pages -= 2` for each merge.
unfoldable pub less_two : ℤ → List ℕ → ℤ
less_two n [] = n
less_two n (x ∷ xs) = less_two (decr (decr n)) xs

unfoldable pub plus_one : ℤ → List ℕ → ℤ
plus_one n [] = n
plus_one n (x ∷ xs) = plus_one (incr n) xs

unfoldable pub tidy_queue : ℕ → Lists → Lists
tidy_queue i st =
    let (kept, moved) = tidy_list i (st i).pages in
    let q = st i in
    let up = st (i + 1) in
    update (update st i (record { pages = kept; nr_free_pages = less_two q.nr_free_pages moved }))
      (i + 1)
      (record { pages = up.pages ++ moved; nr_free_pages = plus_one up.nr_free_pages moved })

-- The outer loop with `left` rounds left; it stops at the first empty list.
unfoldable pub tidy_from : ℕ → ℕ → Lists → Lists
tidy_from zero i st = st
tidy_from (suc left) i st = elim (is_pos (st i).nr_free_pages) [
  | true ↦ tidy_from left (i + 1) (tidy_queue i st)
  | false ↦ st
]

unfoldable pub buddy_list_tidy : Lists → Lists
buddy_list_tidy st = tidy_from (nr_mem_lists - 1) 0 st
