-- ===== src/Mm/Buddy/Tidy.antt =====
-- `buddy_list_tidy` merges adjacent blocks.
use prettyos.Common.{
  ℕ, zero, suc, ◌+◌, ◌-◌, leb, leb→le, ◌*◌, ◌%◌, ◌^◌, ◌≤◌, ◌<◌, ◌≡◌, refl, ap, sym, ◌∙◌, true, List,
  [], ◌∷◌, ◌++◌, arith, ◌==◌, ◌||◌, length, length-append, Bool-cases, inl, inr, All,
}
use prettyos.Common.Bits.{all_below, all_below_sound}
use prettyos.Common.Int.{pos}
use prettyos.Libc.Math.{power, power_lem}
use prettyos.Mm.Buddy.{
  Queue, Lists, nr_mem_lists, update, page_address, is_pageclosed, tidy_list, less_two, plus_one,
  tidy_queue, tidy_from, buddy_list_tidy, is_pos,
}
use prettyos.Mm.Buddy.Cover.{
  cover_block, cover_list, cover, IsCounted, cover_list-append, update-IsCounted, cover-update,
  cover_half, update_same, update_other,
}
use prettyos.Mm.Buddy.Lists.{IsAscending, page_address_lem}

-- The memory size is an `int`, so all frames lie below 2 GiB.
abbrev pub ram_frames : ℕ
ram_frames = 2 ^ 19

power_table : all_below nr_mem_lists (λ i. leb (power i) 512) ≡ true
unfolding all_below power
power_table = refl

power-le : (i : ℕ) → i < nr_mem_lists → power i ≤ 512
power-le i h =
    leb→le (power i) 512 (all_below_sound nr_mem_lists (λ i. leb (power i) 512) i power_table h)

closed_next :
    (x y i : ℕ)
    → x < y
    → y < ram_frames
    → i < nr_mem_lists
    → is_pageclosed x y i ≡ true
    → y ≡ x + 2 ^ i
unfolding is_pageclosed
closed_next x y i l b h e = rw (← power_lem i (omega arith)) (
    near x y (power i) (page_address x) (page_address y) l b (power-le i h)
      (page_address_lem x (omega arith)) (page_address_lem y (omega arith)) e)
  where
    near :
        (x y w ax ay : ℕ)
        → x < y
        → y < ram_frames
        → w ≤ 512
        → ax ≡ x * 4096
        → ay ≡ y * 4096
        → (((ax + w * 4096) % 2 ^ 32 == ay) || ((ax + 2 ^ 32 - w * 4096 % 2 ^ 32) % 2 ^ 32 == ay))
          ≡ true
        → y ≡ x + w
    near x y w ax ay l b s p q e = ground arith

record Tidied (i : ℕ) (xs : List ℕ) (out : List ℕ × List ℕ) : Type 0 where
  covers : (f : ℕ) → cover_list f i out.0 + cover_list f (suc i) out.1 ≡ cover_list f i xs
  lengths : length out.0 + 2 * length out.1 ≡ length xs
  ascending : IsAscending out.1
  bounded : All (λ y. y < ram_frames) xs → All (λ y. y < ram_frames) out.1
  above : (z : ℕ) → All (λ y. z < y) xs → All (λ y. z < y) out.1

tidy_list-Tidied :
    (i : ℕ) (xs : List ℕ)
    → i < nr_mem_lists
    → All (λ y. y < ram_frames) xs
    → IsAscending xs
    → Tidied i xs (tidy_list i xs)
unfolding tidy_list cover_list
tidy_list-Tidied i [] h b a = record {
  covers = λ f. omega arith;
  lengths = omega arith;
  ascending = tt;
  bounded = λ p. tt;
  above = λ z p. tt;
}
tidy_list-Tidied i (x ∷ []) h b a = record {
  covers = λ f. omega arith;
  lengths = omega arith;
  ascending = tt;
  bounded = λ p. tt;
  above = λ z p. tt;
}
tidy_list-Tidied i (x ∷ y ∷ ys) h b a = elim (Bool-cases (is_pageclosed x y i)) [
  | inl c ↦
      rw (c, tidy_list)
        (let t = tidy_list-Tidied i ys h b.1.1 a.1.1 in
          let e = closed_next x y i a.0.0 b.1.0 h c in
          record {
            covers = λ f.
                let g = ap (cover_block f i) e in omega (arith, t.covers f, cover_half f i x, g);
            lengths = omega (arith, t.lengths);
            ascending = (t.above x a.0.1, t.ascending);
            bounded = λ p. (p.0, t.bounded p.1.1);
            above = λ z p. (p.0, t.above z p.1.1);
          })
  | inr c ↦
      rw (c, tidy_list)
        (let t = tidy_list-Tidied i (y ∷ ys) h b.1 a.1 in
          record {
            covers = λ f. omega (arith, t.covers f);
            lengths = omega (arith, t.lengths);
            ascending = t.ascending;
            bounded = λ p. t.bounded p.1;
            above = λ z p. t.above z p.1;
          })
]

less_two_lem : (n k : ℕ) (xs : List ℕ) → n + 2 * length xs ≡ k → less_two (pos k) xs ≡ pos n
unfolding less_two
less_two_lem n k [] e = ap pos (let w : k ≡ n = omega arith in w)
less_two_lem n k (x ∷ xs) e =
    let w : k ≡ suc (suc (n + 2 * length xs)) = omega arith in
    rw w (less_two_lem n (n + 2 * length xs) xs refl)

plus_one_lem : (n : ℕ) (xs : List ℕ) → plus_one (pos n) xs ≡ pos (n + length xs)
unfolding plus_one
plus_one_lem n [] = ap pos (let w : n ≡ n + 0 = omega arith in w)
plus_one_lem n (x ∷ xs) =
    plus_one_lem (suc n) xs
    ∙ ap pos (let w : suc n + length xs ≡ n + suc (length xs) = omega arith in w)

-- A pass over list i: the same frames are covered, as often, and the counters stay right.
record Passed (i : ℕ) (st st' : Lists) : Type 0 where
  counted : IsCounted st'
  covers : (f : ℕ) → cover f nr_mem_lists st' ≡ cover f nr_mem_lists st
  bounded : All (λ y. y < ram_frames) (st' (suc i)).pages
  ascending : IsAscending (st' (suc i)).pages
  others : (j : ℕ) → suc i < j → st' j ≡ st j

tidy_queue-Passed :
    (i : ℕ) (st : Lists)
    → suc i < nr_mem_lists
    → IsCounted st
    → All (λ y. y < ram_frames) (st i).pages
    → IsAscending (st i).pages
    → (st (suc i)).pages ≡ []
    → Passed i st (tidy_queue i st)
unfolding tidy_queue
tidy_queue-Passed i st h c b a e =
    let t = tidy_list-Tidied i (st i).pages (omega arith) b a in
    let (kept, moved) = tidy_list i (st i).pages in
    let s : i + 1 ≡ suc i = omega arith in
    let q : Queue = record { pages = kept; nr_free_pages = less_two (st i).nr_free_pages moved } in
    let st1 = update st i q in
    let r : Queue = record {
      pages = (st (suc i)).pages ++ moved;
      nr_free_pages = plus_one (st (suc i)).nr_free_pages moved;
    } in
    let cq : q.nr_free_pages ≡ pos (length q.pages) =
      rw (c i) (less_two_lem (length kept) _ moved t.lengths) in
    let cr : r.nr_free_pages ≡ pos (length r.pages) = rw (c (suc i)) (
      plus_one_lem (length (st (suc i)).pages) moved
      ∙ ap pos (sym (length-append (st (suc i)).pages moved))) in
    let here = update_same st1 (suc i) r in
    let m : (update st1 (suc i) r (suc i)).pages ≡ moved =
      ap (λ (x : Queue). x.pages) here ∙ ap (λ l. l ++ moved) e in
    rw s (record {
      counted = update-IsCounted st1 (suc i) r (update-IsCounted st i q c cq) cr;
      covers = λ f.
          let o =
            ap (λ (x : Queue). cover_list f (suc i) x.pages)
              (update_other st i (suc i) q (omega arith)) in
          omega (
            arith,
            cover-update f nr_mem_lists (suc i) st1 r h,
            cover-update f nr_mem_lists i st q (omega arith),
            cover_list-append f (suc i) (st (suc i)).pages moved,
            t.covers f,
            o,
          );
      bounded = rw m (t.bounded b);
      ascending = rw m t.ascending;
      others =
          λ j l. update_other st1 (suc i) j r (omega arith) ∙ update_other st i j q (omega arith);
    })

tidy_from_lem :
    (left i : ℕ) (st : Lists)
    → i + left < nr_mem_lists
    → IsCounted st
    → All (λ y. y < ram_frames) (st i).pages
    → IsAscending (st i).pages
    → ((j : ℕ) → i < j → (st j).pages ≡ [])
    → IsCounted (tidy_from left i st)
      × ((f : ℕ) → cover f nr_mem_lists (tidy_from left i st) ≡ cover f nr_mem_lists st)
unfolding tidy_from
tidy_from_lem zero i st h c b a e = (c, λ f. refl)
tidy_from_lem (suc left) i st h c b a e = elim (Bool-cases (is_pos (st i).nr_free_pages)) [
  | inr z ↦ rw (z, tidy_from) (c, λ f. refl)
  | inl z ↦
      rw (z, tidy_from)
        (let s : i + 1 ≡ suc i = omega arith in
          let p = tidy_queue-Passed i st (omega arith) c b a (e (suc i) (omega arith)) in
          let st' = tidy_queue i st in
          let (c', cv) =
            tidy_from_lem left (suc i) st' (omega arith) p.counted p.bounded p.ascending
              (λ j l. ap (λ (x : Queue). x.pages) (p.others j l) ∙ e j (omega arith)) in
          rw s (c', λ f. cv f ∙ p.covers f))
]

-- On lists with right counters where only order 0 holds pages, below the number of RAM frames and in
-- the order of their addresses, as `init_mem` makes them, `buddy_list_tidy` leaves every frame
-- covered as often as before, and the counters right.
pub buddy_list_tidy-cover :
    (st : Lists)
    → IsCounted st
    → All (λ y. y < ram_frames) (st 0).pages
    → IsAscending (st 0).pages
    → ((j : ℕ) → 0 < j → (st j).pages ≡ [])
    → IsCounted (buddy_list_tidy st)
      × ((f : ℕ) → cover f nr_mem_lists (buddy_list_tidy st) ≡ cover f nr_mem_lists st)
unfolding buddy_list_tidy
buddy_list_tidy-cover st c b a e = tidy_from_lem (nr_mem_lists - 1) 0 st (omega arith) c b a e
