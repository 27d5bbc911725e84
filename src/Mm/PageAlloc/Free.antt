-- ===== src/Mm/PageAlloc/Free.antt =====
-- `free_pages` gives a block back.
use prettyos.Common.{ℕ, ◌≤◌, ◌<◌, ◌≡◌, refl, Bool, true, false, none, some, All}
use prettyos.Common.Int.{pos, neg}
use prettyos.Mm.Buddy.{Lists, nr_mem_lists}
use prettyos.Mm.Buddy.Cover.{IsCounted}
use prettyos.Mm.Buddy.Lists.{frames, Lined, buddy_list_add_line-Lined, lt-leb-false, le-leb}
use prettyos.Mm.PageAlloc.{free_pages_ok, free_pages}

module _ (page order : ℕ) (st : Lists) (c : IsCounted st) (h : order < nr_mem_lists)
    (p : page < frames) (a : All (λ y. y < frames) (st order).pages) where
  free_pages_ok-Lined : Lined page order st (free_pages_ok (some page) order st)
  unfolding free_pages_ok
  free_pages_ok-Lined =
      let k = buddy_list_add_line-Lined page order st c h p a in
      rw (lt-leb-false order nr_mem_lists h, k.done)
        (record {
          done = refl;
          counted = k.counted;
          covers = k.covers;
          in_line = k.in_line;
          others = k.others;
        })

  -- A page of RAM that is freed at an order below NR_MEM_LISTS goes on that order's list before the
  -- first page of a higher address, the counters stay right, the frames of the block, and no others,
  -- are covered once more, and the other lists stay as they are. All page indices are below 2 ^ 20.
  pub free_pages-Lined :
      (sys_ram : ℕ → Bool)
      → sys_ram page ≡ true
      → Lined page order st (free_pages sys_ram (some page) order st)
  unfolding free_pages
  free_pages-Lined sys_ram ram =
      let k = free_pages_ok-Lined in
      rw (lt-leb-false order nr_mem_lists h, ram, k.done)
        (record {
          done = refl;
          counted = k.counted;
          covers = k.covers;
          in_line = k.in_line;
          others = k.others;
        })

-- A page that is not RAM is not put on a list, and NULL or an order from NR_MEM_LISTS on is an error;
-- in each case the lists stay as they are.
free_pages_refused :
    (sys_ram : ℕ → Bool) (page : ℕ) (order : ℕ) (st : Lists)
    → (free_pages sys_ram none order st ≡ (neg 1, st))
      × (nr_mem_lists ≤ order → free_pages sys_ram (some page) order st ≡ (neg 1, st))
      × (order < nr_mem_lists
          → sys_ram page ≡ false
          → free_pages sys_ram (some page) order st ≡ (pos 0, st))
unfolding free_pages
free_pages_refused sys_ram page order st =
    (refl, λ h. rw (le-leb nr_mem_lists order h), λ h r. rw (lt-leb-false order nr_mem_lists h, r))
