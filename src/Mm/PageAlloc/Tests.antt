-- ===== src/Mm/PageAlloc/Tests.antt =====
-- The page allocator at concrete lists, and the theorems at concrete inputs.
use prettyos.Common.{◌≡◌, refl, some, true, [], ◌∷◌, arith}
use prettyos.Common.Int.{pos}
use prettyos.Mm.Buddy.{
  Queue, Lists, update, buddy_list_init, buddy_list_del, buddy_list_add, take_first, page_address,
}
use prettyos.Libc.Math.{power}
use prettyos.Mm.Buddy.Cover.{IsCounted, update-IsCounted}
use prettyos.Mm.Buddy.Lists.{Lined}
use prettyos.Mm.PageAlloc.{
  address, free_pages, get_free_pages, get_loop, first_nonempty, split, halve,
}
use prettyos.Mm.PageAlloc.Free.{free_pages-Lined}
use prettyos.Mm.PageAlloc.Alloc.{GotBlock, get_free_pages-GotBlock}

abbrev block : Queue
block = record { pages = 8 ∷ []; nr_free_pages = pos 1 }

-- One block of order 2, at page 8.
abbrev lists : Lists
lists = update buddy_list_init 2 block

lists-IsCounted : IsCounted lists
lists-IsCounted =
    update-IsCounted buddy_list_init 2 block (λ i. unfold buddy_list_init in refl) refl

-- The first page comes from two splits.
get_one : (get_free_pages 0 lists).0 ≡ address 0x8000
unfolding get_free_pages get_loop first_nonempty split halve buddy_list_del buddy_list_add
    take_first page_address power update buddy_list_init
get_one = refl

free_pages-Lined_example : Lined 3 2 lists (free_pages (λ p. true) (some 3) 2 lists)
unfolding update
free_pages-Lined_example =
    free_pages-Lined 3 2 lists lists-IsCounted (omega arith) (omega arith) (omega arith) (λ p. true)
      refl

get_free_pages-GotBlock_example : GotBlock 0 lists (get_free_pages 0 lists)
unfolding update
get_free_pages-GotBlock_example =
    get_free_pages-GotBlock 0 2 lists lists-IsCounted (omega arith) (omega arith) (0, refl)
