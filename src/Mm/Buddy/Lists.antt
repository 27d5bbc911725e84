-- ===== src/Mm/Buddy/Lists.antt =====
-- The operations on one buddy list: counters, cover and order.
use prettyos.Common.{
  true, false, ℕ, suc, ◌+◌, ◌*◌, ◌^◌, ◌≤◌, ◌<◌, ◌≡◌, refl, ap, sym, ◌∙◌, List, [], ◌∷◌, ◌++◌, arith,
  ltb, leb, if◌then◌else◌, length, length-append, Bool-cases, inl, inr, All, Option, none, some,
  ltb→lt, ltb_false→le, ◌≢◌,
}
use prettyos.Common.Int.{ℤ, pos, neg}
use prettyos.Mm.Buddy.{
  incr, Queue, Lists, nr_mem_lists, page_address, update, added, buddy_list_add, buddy_list_del,
  take_first, add_line, add_sorted, buddy_list_add_line,
}
use prettyos.Mm.Buddy.Cover.{
  cover_block, cover_list, cover, IsCounted, cover_list-append, update-IsCounted, cover-update,
  update_same, update_other,
}

pub lt-leb-false : (a b : ℕ) → a < b → leb b a ≡ false
lt-leb-false a b h = ground arith

pub le-leb : (a b : ℕ) → a ≤ b → leb a b ≡ true
le-leb a b h = ground arith

added-IsCounted :
    (st : Lists) (k page : ℕ) → IsCounted st → IsCounted (update st k (added (st k) page))
added-IsCounted st k page c = update-IsCounted st k _ c (
    rw (c k, length-append (st k).pages (page ∷ []))
      (ap pos (let e : suc (length (st k).pages) ≡ length (st k).pages + 1 = omega arith in e)))

-- A block put on a list: success, and one more block covers its frames.
pub record Added (page order : ℕ) (st : Lists) (out : ℤ × Lists) : Type 0 where
  pub done : out.0 ≡ pos 0
  pub counted : IsCounted out.1
  pub covers :
      (f : ℕ) → cover f nr_mem_lists out.1 ≡ cover f nr_mem_lists st + cover_block f order page
  pub here : out.1 order ≡ added (st order) page
  pub others : (i : ℕ) → order ≢ i → out.1 i ≡ st i

added-Added :
    (page order : ℕ) (st : Lists)
    → IsCounted st
    → order < nr_mem_lists
    → Added page order st (pos 0, update st order (added (st order) page))
added-Added page order st c h = record {
  done = refl;
  counted = added-IsCounted st order page c;
  covers = λ f.
      unfold cover_list in
      omega (
        arith,
        cover-update f nr_mem_lists order st (added (st order) page) h,
        cover_list-append f order (st order).pages (page ∷ []),
      );
  here = update_same st order (added (st order) page);
  others = λ i ne. update_other st order i (added (st order) page) ne;
}

-- Below NR_MEM_LISTS, on lists with right counters, `buddy_list_add` adds the block to its order's list
-- only, counts it, and its frames, and no others, are covered once more.
pub buddy_list_add-Added :
    (page order : ℕ) (st : Lists)
    → IsCounted st
    → order < nr_mem_lists
    → Added page order st (buddy_list_add (some page) order st)
unfolding buddy_list_add
buddy_list_add-Added page order st c h =
    rw (lt-leb-false order nr_mem_lists h) (added-Added page order st c h)

-- The outcome of `buddy_list_del`: an empty list is an error and nothing changes; otherwise the first
-- block leaves the list, and one block less covers its frames.
pub data Taken (order : ℕ) (st : Lists) : ℤ × Option ℕ × Lists → Type 0 where
  none_left : (st order).pages ≡ [] → Taken order st (neg 2, none, st)
  taken :
      (page : ℕ) (rest : List ℕ) (st' : Lists)
      → (st order).pages ≡ page ∷ rest
      → st' ≡ update st order (record { pages = rest; nr_free_pages = pos (length rest) })
      → IsCounted st'
      → ((f : ℕ) → cover f nr_mem_lists st' + cover_block f order page ≡ cover f nr_mem_lists st)
      → Taken order st (pos 0, some page, st')

take_first-Taken :
    (ps : List ℕ) (order : ℕ) (st : Lists)
    → IsCounted st
    → order < nr_mem_lists
    → (st order).pages ≡ ps
    → Taken order st (take_first ps (st order) order st)
unfolding take_first
take_first-Taken [] order st c h e = none_left e
take_first-Taken (page ∷ rest) order st c h e =
    let n : (st order).nr_free_pages ≡ pos (suc (length rest)) =
      c order ∙ ap (λ l. pos (length l)) e in
    let q : Queue = record { pages = rest; nr_free_pages = pos (length rest) } in
    rw n (
      taken page rest (update st order q) e refl (update-IsCounted st order q c refl) λ f.
        let d = ap (cover_list f order) e in
        unfold cover_list in omega (arith, cover-update f nr_mem_lists order st q h, d))

-- Below NR_MEM_LISTS, on lists with right counters, `buddy_list_del` takes the first block of the list
-- and counts it out, or reports an error on an empty list and changes nothing.
pub buddy_list_del-Taken :
    (order : ℕ) (st : Lists)
    → IsCounted st
    → order < nr_mem_lists
    → Taken order st (buddy_list_del order st)
unfolding buddy_list_del
buddy_list_del-Taken order st c h =
    rw (lt-leb-false order nr_mem_lists h) (take_first-Taken (st order).pages order st c h refl)

-- From NR_MEM_LISTS on `buddy_list_add`, `buddy_list_add_line` and `buddy_list_del` report an error
-- and change nothing.
pub buddy_list_guards :
    (page : Option ℕ) (order : ℕ) (st : Lists)
    → nr_mem_lists ≤ order
    → (buddy_list_add page order st ≡ (neg 1, st))
      × (buddy_list_add_line page order st ≡ (neg 1, st))
      × (buddy_list_del order st ≡ (neg 1, none, st))
unfolding buddy_list_add buddy_list_add_line buddy_list_del
buddy_list_guards none order st h = let e = le-leb nr_mem_lists order h in (refl, refl, rw e)
buddy_list_guards (some page) order st h = let e = le-leb nr_mem_lists order h in (rw e, rw e, rw e)

-- Frames of a 32-bit address space.
abbrev pub frames : ℕ
frames = 2 ^ 20

pub page_address_lem : (p : ℕ) → p < frames → page_address p ≡ p * 4096
unfolding page_address
page_address_lem p h = omega arith

ltb_scale : (p x : ℕ) → p < frames → x < frames → ltb (page_address p) (page_address x) ≡ ltb p x
ltb_scale p x h k = rw (page_address_lem p h, page_address_lem x k) (ground arith)

-- The list with the page before the first of a higher address.
unfoldable pub insert_page : ℕ → List ℕ → List ℕ
insert_page p [] = p ∷ []
insert_page p (x ∷ xs) = if ltb p x then p ∷ x ∷ xs else x ∷ insert_page p xs

add_line_lem :
    (p x : ℕ) (xs : List ℕ)
    → p < frames
    → All (λ y. y < frames) (x ∷ xs)
    → add_line p (x ∷ xs) ≡ some (insert_page p (x ∷ xs))
unfolding add_line insert_page
add_line_lem p x [] h k =
    rw (ltb_scale p x h k.0) (elim (Bool-cases (ltb p x)) [ inl c ↦ rw c | inr c ↦ rw c ])
add_line_lem p x (y ∷ ys) h k =
    rw (ltb_scale p x h k.0)
      (elim (Bool-cases (ltb p x)) [ inl c ↦ rw c | inr c ↦ rw c (rw (add_line_lem p y ys h k.1)) ])

pub insert_page-cover :
    (f i p : ℕ) (xs : List ℕ)
    → cover_list f i (insert_page p xs) ≡ cover_list f i xs + cover_block f i p
unfolding insert_page cover_list
insert_page-cover f i p [] = omega arith
insert_page-cover f i p (x ∷ xs) = elim (Bool-cases (ltb p x)) [
  | inl c ↦ rw c (omega arith)
  | inr c ↦ rw c (omega (arith, insert_page-cover f i p xs))
]

length-insert_page : (p : ℕ) (xs : List ℕ) → length (insert_page p xs) ≡ suc (length xs)
unfolding insert_page
length-insert_page p [] = refl
length-insert_page p (x ∷ xs) = elim (Bool-cases (ltb p x)) [
  | inl c ↦ rw c
  | inr c ↦ rw c (ap suc (length-insert_page p xs))
]

-- Addresses increase.
abbrev pub IsAscending : List ℕ → Type 0
IsAscending [] = Unit
IsAscending (x ∷ xs) = All (λ y. x < y) xs × IsAscending xs

All-insert_page : (P : ℕ → Type 0) (p : ℕ) (xs : List ℕ) → P p → All P xs → All P (insert_page p xs)
unfolding insert_page
All-insert_page P p [] h k = (h, tt)
All-insert_page P p (x ∷ xs) h k = elim (Bool-cases (ltb p x)) [
  | inl c ↦ rw c (h, k)
  | inr c ↦ rw c (k.0, All-insert_page P p xs h k.1)
]

All-lt_weaken : (a b : ℕ) (xs : List ℕ) → a < b → All (λ y. b < y) xs → All (λ y. a < y) xs
All-lt_weaken a b [] e h = tt
All-lt_weaken a b (x ∷ xs) e h = (omega arith, All-lt_weaken a b xs e h.1)

pub insert_page-IsAscending :
    (p : ℕ) (xs : List ℕ) → All (λ y. y ≢ p) xs → IsAscending xs → IsAscending (insert_page p xs)
unfolding insert_page
insert_page-IsAscending p [] n a = (tt, tt)
insert_page-IsAscending p (x ∷ xs) n a = elim (Bool-cases (ltb p x)) [
  | inl c ↦ let k = ltb→lt p x c in rw c ((k, All-lt_weaken p x xs k a.0), a)
  | inr c ↦
      let k = ltb_false→le p x c in
      rw c (
        All-insert_page (λ y. x < y) p xs (let d = n.0 in omega arith) a.0,
        insert_page-IsAscending p xs n.1 a.1,
      )
]

-- A page put on a list in the order of the addresses.
pub record Lined (page order : ℕ) (st : Lists) (out : ℤ × Lists) : Type 0 where
  pub done : out.0 ≡ pos 0
  pub counted : IsCounted out.1
  pub covers :
      (f : ℕ) → cover f nr_mem_lists out.1 ≡ cover f nr_mem_lists st + cover_block f order page
  pub in_line : (out.1 order).pages ≡ insert_page page (st order).pages
  pub others : (i : ℕ) → order ≢ i → out.1 i ≡ st i

line_up :
    (page order : ℕ) (st : Lists)
    → IsCounted st
    → order < nr_mem_lists
    → Lined page order st (
      pos 0,
      update st order (record {
        pages = insert_page page (st order).pages;
        nr_free_pages = incr (st order).nr_free_pages;
      }),
    )
line_up page order st c h =
    let q : Queue = record {
      pages = insert_page page (st order).pages;
      nr_free_pages = incr (st order).nr_free_pages;
    } in
    let e : q.nr_free_pages ≡ pos (length q.pages) =
      rw (c order) (ap pos (sym (length-insert_page page (st order).pages))) in
    record {
      done = refl;
      counted = update-IsCounted st order q c e;
      covers = λ f. omega (
        arith,
        cover-update f nr_mem_lists order st q h,
        insert_page-cover f order page (st order).pages,
      );
      in_line = ap (λ r. r.pages) (update_same st order q);
      others = λ i ne. update_other st order i q ne;
    }

line_up_as :
    (page order : ℕ) (st : Lists)
    → IsCounted st
    → order < nr_mem_lists
    → (ys : List ℕ) → ys ≡ insert_page page (st order).pages
    → Lined page order st (
      pos 0,
      update st order (record { pages = ys; nr_free_pages = incr (st order).nr_free_pages }),
    )
line_up_as page order st c h ys e = rw e (line_up page order st c h)

-- Below NR_MEM_LISTS, on lists with right counters and pages below 2 ^ 20, `buddy_list_add_line` puts
-- the block before the first one of a higher address, counts it, and leaves the other lists alone.
pub buddy_list_add_line-Lined :
    (page order : ℕ) (st : Lists)
    → IsCounted st
    → order < nr_mem_lists
    → page < frames
    → All (λ y. y < frames) (st order).pages
    → Lined page order st (buddy_list_add_line (some page) order st)
unfolding buddy_list_add_line add_sorted
buddy_list_add_line-Lined page order st c h p a =
    rw (lt-leb-false order nr_mem_lists h) (go (st order).pages refl a)
  where
    go :
        (ps : List ℕ)
        → (st order).pages ≡ ps
        → All (λ y. y < frames) ps
        → Lined page order st (add_sorted page order st ps)
    go [] e a =
        line_up_as page order st c h ((st order).pages ++ (page ∷ []))
          (rw e (unfold insert_page in refl))
    go (x ∷ xs) e a =
        rw (add_line_lem page x xs p a, add_sorted)
          (line_up_as page order st c h (insert_page page (x ∷ xs)) (ap (insert_page page) (sym e)))
