-- ===== src/Mm/Buddy/Tests.antt =====
-- The buddy lists at concrete pages, and the theorems at concrete inputs.
use prettyos.Common.{ℕ, ◌<◌, ◌≡◌, refl, [], ◌∷◌, arith}
use prettyos.Common.Int.{pos}
use prettyos.Mm.Buddy.{
  Queue, Lists, update, nr_mem_lists, buddy_list_init, buddy_list_tidy, tidy_from, tidy_queue,
  tidy_list, is_pageclosed, page_address, less_two, plus_one,
}
use prettyos.Libc.Math.{power}
use prettyos.Mm.Buddy.Cover.{IsCounted, cover, update-IsCounted}
use prettyos.Mm.Buddy.Tidy.{buddy_list_tidy-cover}

abbrev four : Queue
four = record { pages = 4 ∷ 5 ∷ 6 ∷ 7 ∷ []; nr_free_pages = pos 4 }

abbrev lists : Lists
lists = update buddy_list_init 0 four

lists-IsCounted : IsCounted lists
lists-IsCounted = update-IsCounted buddy_list_init 0 four (λ i. unfold buddy_list_init in refl) refl

-- Four adjacent pages become one block of order 2.
tidy_four : (buddy_list_tidy lists 2).pages ≡ 4 ∷ []
unfolding buddy_list_tidy tidy_from tidy_queue tidy_list is_pageclosed page_address power update
    buddy_list_init less_two plus_one
tidy_four = refl

buddy_list_tidy-cover_example :
    IsCounted (buddy_list_tidy lists)
    × ((f : ℕ) → cover f nr_mem_lists (buddy_list_tidy lists) ≡ cover f nr_mem_lists lists)
unfolding update
buddy_list_tidy-cover_example =
    buddy_list_tidy-cover lists lists-IsCounted (omega arith) (omega arith) above
  where
    above : (j : ℕ) → 0 < j → (lists j).pages ≡ []
    above j h = unfold buddy_list_init in ground arith
