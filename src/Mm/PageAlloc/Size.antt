-- ===== src/Mm/PageAlloc/Size.antt =====
-- `alloc_mem` takes the power of two of a number of pages for the order.
use prettyos.Common.{
  ℕ, ◌*◌, ◌/◌, ◌^◌, ◌≤◌, ◌<◌, ◌≡◌, refl, arith, leb, ltb, true, false, Bool, ◌||◌, ◌&&◌,
}
use prettyos.Common.Bits.{all_below, all_below_sound}
use prettyos.Libc.Math.{power, power_overflow}
use prettyos.Mm.Buddy.{Lists, page_size, nr_mem_lists}
use prettyos.Mm.PageAlloc.{null, get_free_pages, alloc_mem}

order_table :
    all_below 31 (λ n. ltb n 4 || (leb nr_mem_lists (power n) && ltb (power n) (2 ^ 31))) ≡ true
unfolding all_below power
order_table = refl

big : (a b c : Bool) → (a || (b && c)) ≡ true → a ≡ false → (b ≡ true) × (c ≡ true)
big a b c h k = ground arith

le-ltb-false : (a b : ℕ) → a ≤ b → ltb b a ≡ false
le-ltb-false a b h = ground arith

-- A request of 4 to 30 pages always fails, whatever is free: the order is 16 or more.
alloc_mem_refused :
    (size : ℕ) (st : Lists)
    → 4 * page_size ≤ size
    → size < 31 * page_size
    → alloc_mem size st ≡ (null, st)
unfolding alloc_mem get_free_pages
alloc_mem_refused size st h k =
    let n : ℕ = size / page_size in
    let t =
      all_below_sound 31 (λ n. ltb n 4 || (leb nr_mem_lists (power n) && ltb (power n) (2 ^ 31))) n
        order_table (omega arith) in
    let u =
      big (ltb n 4) (leb nr_mem_lists (power n)) (ltb (power n) (2 ^ 31)) t
        (le-ltb-false 4 n (omega arith)) in
    rw (u.1, u.0)

-- A request of 32 pages or more is answered as one for a single page: the power has overflowed to 0.
alloc_mem_overflow :
    (size : ℕ) (st : Lists) → 32 * page_size ≤ size → alloc_mem size st ≡ get_free_pages 0 st
unfolding alloc_mem
alloc_mem_overflow size st h = rw (power_overflow (size / page_size) (omega arith))
