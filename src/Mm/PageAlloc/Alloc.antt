-- ===== src/Mm/PageAlloc/Alloc.antt =====
-- `get_free_pages` takes a block of the order asked for, and splits larger blocks for it.
use prettyos.Common.{
  ℕ, zero, suc, ◌+◌, ◌-◌, ◌≤◌, ◌<◌, ◌≡◌, refl, ap, ◌∙◌, Option, none, some, List, [], ◌∷◌, arith,
  ltb, length, length-append, ◌⊎◌, inl, inr, Bool-cases, ltb→lt, ltb_false→le, subst,
}
use native.Mathlib.Nat.{le_refl}
use prettyos.Common.Int.{ℤ, pos, neg}
use prettyos.Libc.Math.{power, power_lem}
use prettyos.Mm.Buddy.{
  Queue, Lists, added, nr_mem_lists, page_address, buddy_list_add, buddy_list_del,
}
use prettyos.Mm.Buddy.Cover.{cover_block, cover, IsCounted, cover_half, update_other}
use prettyos.Mm.Buddy.Lists.{
  buddy_list_add-Added, Taken, none_left, taken, buddy_list_del-Taken, lt-leb-false,
}
use prettyos.Mm.PageAlloc.{
  Got, address, failed, out_of_bounds, first_nonempty, halve, split, get_loop, get_free_pages,
}

-- A list that is not empty, by its counter.
abbrev pub HasBlock : ℕ → Lists → Type 0
HasBlock k st = (m : ℕ) × ((st k).nr_free_pages ≡ pos (suc m))

-- The lists from `a` up to but not `b` are empty.
abbrev pub EmptyFrom : ℕ → ℕ → Lists → Type 0
EmptyFrom a b st = (j : ℕ) → a ≤ j → j < b → (st j).nr_free_pages ≡ pos 0

first_nonempty-some :
    (left cur k : ℕ) (st : Lists)
    → cur ≤ k
    → k < cur + left
    → EmptyFrom cur k st
    → HasBlock k st
    → first_nonempty left cur st ≡ some k
unfolding first_nonempty
first_nonempty-some zero cur k st a b e (m, h) = absurd (omega arith)
first_nonempty-some (suc left) cur k st a b e (m, h) = elim (Bool-cases (ltb cur k)) [
  | inl c ↦ rw (e cur (le_refl cur) (ltb→lt cur k c)) (
      first_nonempty-some left (cur + 1) k st (omega (arith, ltb→lt cur k c)) (omega arith)
        (λ j p q. e j (omega arith) q) (m, h))
  | inr c ↦ let s : cur ≡ k = omega (arith, ltb_false→le cur k c) in rw s (rw h)
]

first_nonempty-none :
    (left cur : ℕ) (st : Lists) → EmptyFrom cur (cur + left) st → first_nonempty left cur st ≡ none
unfolding first_nonempty
first_nonempty-none zero cur st e = refl
first_nonempty-none (suc left) cur st e =
    rw (e cur (le_refl cur) (omega arith))
      (first_nonempty-none left (cur + 1) st (λ j p q. e j (omega arith) (omega arith)))

EmptyFrom-extend :
    (a b : ℕ) (st : Lists)
    → (st a).nr_free_pages ≡ pos 0
    → EmptyFrom (a + 1) b st
    → EmptyFrom a b st
EmptyFrom-extend a b st z e j p q = elim (Bool-cases (ltb a j)) [
  | inl c ↦ e j (omega (arith, ltb→lt a j c)) q
  | inr c ↦ let s : j ≡ a = omega (arith, ltb_false→le a j c) in rw s z
]

-- The first list with a block, if there is one.
pub search_lists :
    (left cur : ℕ) (st : Lists)
    → IsCounted st
    → ((k : ℕ) × (cur ≤ k) × (k < cur + left) × EmptyFrom cur k st × HasBlock k st)
      ⊎ EmptyFrom cur (cur + left) st
search_lists zero cur st c = inr (λ j p q. absurd (omega arith))
search_lists (suc left) cur st c = go (st cur).pages refl (search_lists left (cur + 1) st c)
  where
    go :
        (ps : List ℕ)
        → (st cur).pages ≡ ps
        → ((k : ℕ) × (cur + 1 ≤ k)
            × (k < cur + 1 + left)
            × EmptyFrom (cur + 1) k st
            × HasBlock k st)
          ⊎ EmptyFrom (cur + 1) (cur + 1 + left) st
        → ((k : ℕ) × (cur ≤ k) × (k < cur + suc left) × EmptyFrom cur k st × HasBlock k st)
          ⊎ EmptyFrom cur (cur + suc left) st
    go (x ∷ xs) e r = inl (
      cur,
      le_refl cur,
      omega arith,
      λ j p q. absurd (omega arith),
      (length xs, c cur ∙ ap (λ l. pos (length l)) e),
    )
    go [] e (inl (k, p, q, f, b)) =
        let z = c cur ∙ ap (λ l. pos (length l)) e in
        inl (k, omega arith, omega arith, EmptyFrom-extend cur k st z f, b)
    go [] e (inr f) =
        let z = c cur ∙ ap (λ l. pos (length l)) e in
        inr (EmptyFrom-extend cur (cur + suc left) st z (λ j p q. f j p (omega arith)))

-- A block split in two on the list below: nothing else changes, and the cover is the same.
record Halved (k : ℕ) (st : Lists) (out : Option Got × Lists) : Type 0 where
  goes_on : out.0 ≡ none
  counted : IsCounted out.1
  covers : (f : ℕ) → cover f nr_mem_lists out.1 ≡ cover f nr_mem_lists st
  below : (j : ℕ) → j < k → out.1 j ≡ st j
  filled : HasBlock k out.1

HasBlock-added :
    (k page : ℕ) (st st' : Lists) → IsCounted st' → st' k ≡ added (st k) page → HasBlock k st'
HasBlock-added k page st st' c e = (
  length (st k).pages,
  c k
      ∙ ap (λ (q : Queue). pos (length q.pages)) e
      ∙ rw (length-append (st k).pages (page ∷ []))
          (let n : length (st k).pages + 1 ≡ suc (length (st k).pages) = omega arith in ap pos n),
)

halve-Halved :
    (k page : ℕ) (st st' : Lists)
    → suc k < nr_mem_lists
    → IsCounted st'
    → ((f : ℕ) → cover f nr_mem_lists st' + cover_block f (suc k) page ≡ cover f nr_mem_lists st)
    → ((j : ℕ) → j < k → st' j ≡ st j)
    → Halved k st (halve (suc k) page st')
unfolding halve
halve-Halved k page st st' h c cv same =
    let a = buddy_list_add-Added page k st' c (omega arith) in
    let st'' = (buddy_list_add (some page) k st').1 in
    let b = buddy_list_add-Added (page + power k) k st'' a.counted (omega arith) in
    record {
      goes_on = refl;
      counted = b.counted;
      covers = λ f.
          let w = ap (λ n. cover_block f k (page + n)) (power_lem k (omega arith)) in
          omega (arith, a.covers f, b.covers f, cv f, w, cover_half f k page);
      below = λ j l. b.others j (omega arith) ∙ a.others j (omega arith) ∙ same j l;
      filled = HasBlock-added k (page + power k) st'' _ b.counted b.here;
    }

not_empty : (k : ℕ) (st : Lists) → IsCounted st → (st k).pages ≡ [] → HasBlock k st → ⊥
not_empty k st c e (m, b) = let z = c k ∙ ap (λ l. pos (length l)) e in cc

split_case :
    (k : ℕ) (st : Lists) (out : ℤ × Option ℕ × Lists)
    → suc k < nr_mem_lists
    → Taken (suc k) st out
    → IsCounted st
    → HasBlock (suc k) st
    → Halved k st
        (elim out.1 [ none ↦ (some (failed (neg 2)), st) | some page ↦ halve (suc k) page out.2 ])
split_case k st _ h (none_left e) c b = absurd (not_empty (suc k) st c e b)
split_case k st _ h (taken page rest st' e u c' cv) c b =
    halve-Halved k page st st' h c' cv (λ j l. rw u (update_other st (suc k) j _ (omega arith)))

split-Halved :
    (k : ℕ) (st : Lists)
    → suc k < nr_mem_lists
    → IsCounted st
    → HasBlock (suc k) st
    → Halved k st (split (suc k) st)
unfolding split
split-Halved k st h c b =
    split_case k st (buddy_list_del (suc k) st) h (buddy_list_del-Taken (suc k) st c h) c b

-- A block of the order asked for, at a page: the frames of the block, and no others, are covered once
-- less, and the counters stay right.
pub record GotBlock (order : ℕ) (st : Lists) (out : Got × Lists) : Type 0 where
  pub page : ℕ
  pub at : out.0 ≡ address (page_address page)
  pub counted : IsCounted out.1
  pub covers :
      (f : ℕ) → cover f nr_mem_lists out.1 + cover_block f order page ≡ cover f nr_mem_lists st

GotBlock-weaken :
    (order : ℕ) (st st' : Lists) (out : Got × Lists)
    → ((f : ℕ) → cover f nr_mem_lists st' ≡ cover f nr_mem_lists st)
    → GotBlock order st' out
    → GotBlock order st out
GotBlock-weaken order st st' out e g = record {
  page = g.page;
  at = g.at;
  counted = g.counted;
  covers = λ f. g.covers f ∙ e f;
}

pop_case :
    (order : ℕ) (st : Lists) (out : ℤ × Option ℕ × Lists)
    → Taken order st out
    → IsCounted st
    → HasBlock order st
    → GotBlock order st (elim out.1 [
      | none ↦ (failed (neg 3), st)
      | some page ↦ (address (page_address page), out.2)
    ])
pop_case order st _ (none_left e) c b = absurd (not_empty order st c e b)
pop_case order st _ (taken p rest st' e u c' cv) c b = record {
  page = p;
  at = refl;
  counted = c';
  covers = cv;
}

-- The rounds from a state whose first block stands `g` lists above the order asked for.
get_loop-GotBlock :
    (g fuel order k : ℕ) (st : Lists)
    → IsCounted st
    → k ≡ order + g
    → k < nr_mem_lists
    → EmptyFrom order k st
    → HasBlock k st
    → g < fuel
    → GotBlock order st (get_loop fuel order st)
unfolding get_loop
get_loop-GotBlock g zero order k st c e h em b fu = absurd (omega arith)
get_loop-GotBlock zero (suc fuel) order k st c e h em (m, b) fu =
    let s : k ≡ order = omega arith in
    let b' : (st order).nr_free_pages ≡ pos (suc m) =
      subst (λ j. (st j).nr_free_pages ≡ pos (suc m)) s b in
    rw (b', get_loop)
      (pop_case order st (buddy_list_del order st) (buddy_list_del-Taken order st c (omega arith)) c
        (m, b'))
get_loop-GotBlock (suc g) (suc fuel) order k st c e h em b fu =
    let z = em order (le_refl order) (omega arith) in
    let fs =
      first_nonempty-some (nr_mem_lists - order) order k st (omega arith) (omega arith) em b in
    let s : k ≡ suc (order + g) = omega arith in
    let w = split-Halved (order + g) st (omega arith) c (subst (λ j. HasBlock j st) s b) in
    let st' = (split (suc (order + g)) st).1 in
    rw (z, get_loop)
      (rw (fs ∙ ap some s) (
        rw w.goes_on (
          GotBlock-weaken order st st' _ w.covers (
            get_loop-GotBlock g fuel order (order + g) st' w.counted refl (omega arith)
              (λ j p q. ap (λ (r : Queue). r.nr_free_pages) (w.below j q) ∙ em j p (omega arith))
              w.filled (omega arith)))))

-- Where the counters are right and the order asked for, or one above it, has a block,
-- `get_free_pages` ends and returns a block of that order: the counters stay right, and the frames
-- of that block, and no others, are covered once less by the lists.
pub get_free_pages-GotBlock :
    (order k : ℕ) (st : Lists)
    → IsCounted st
    → order ≤ k
    → k < nr_mem_lists
    → HasBlock k st
    → GotBlock order st (get_free_pages order st)
unfolding get_free_pages
get_free_pages-GotBlock order k st c p h b =
    rw (lt-leb-false order nr_mem_lists (omega arith))
      (elim (search_lists (nr_mem_lists - order) order st c) [
        | inl (k', q, h', em, b') ↦
            get_loop-GotBlock (k' - order) (nr_mem_lists + 1) order k' st c (omega arith)
              (omega arith) em b' (omega arith)
        | inr em ↦ absurd (let z = em k p (omega arith) in let r = b.1 in cc)
      ])

-- For an order below NR_MEM_LISTS with no block counted at it or above, `get_free_pages` reads past
-- the end of `buddy_list` and has changed nothing.
pub get_free_pages_exhausted :
    (order : ℕ) (st : Lists)
    → order < nr_mem_lists
    → EmptyFrom order nr_mem_lists st
    → get_free_pages order st ≡ (out_of_bounds, st)
unfolding get_free_pages get_loop
get_free_pages_exhausted order st h em =
    let e : order + (nr_mem_lists - order) ≡ nr_mem_lists = omega arith in
    let z = em order (le_refl order) h in
    let fs = first_nonempty-none (nr_mem_lists - order) order st (λ j p q. em j p (omega arith)) in
    rw (lt-leb-false order nr_mem_lists h) (rw (z, get_loop) (rw fs refl))
