-- ===== src/Mm/Buddy/Cover.antt =====
-- Which page frames the free blocks cover: a block of order i at page p covers p to p + 2 ^ i - 1.
use prettyos.Common.{
  ℕ, zero, suc, ◌+◌, ◌*◌, ◌^◌, ◌≤◌, ◌<◌, ◌≡◌, refl, List, [], ◌∷◌, ◌++◌, arith, ltb, leb, ◌==◌,
  ◌&&◌, if◌then◌else◌, length, Bool-cases, inl, inr, ==_iff, ◌≢◌,
}
use prettyos.Common.Int.{pos}
use prettyos.Mm.Buddy.{Queue, Lists, update}
use native.Mathlib.Nat.{pow-suc}

-- 1 if the block covers the frame, 0 otherwise.
unfoldable pub cover_block : ℕ → ℕ → ℕ → ℕ
cover_block f i p = if leb p f && ltb f (p + 2 ^ i) then 1 else 0

unfoldable pub cover_list : ℕ → ℕ → List ℕ → ℕ
cover_list f i [] = 0
cover_list f i (p ∷ ps) = cover_block f i p + cover_list f i ps

-- The number of blocks on the first n lists that cover the frame.
unfoldable pub cover : ℕ → ℕ → Lists → ℕ
cover f zero st = 0
cover f (suc n) st = cover f n st + cover_list f n (st n).pages

-- The counter of each list is its length.
abbrev pub IsCounted : Lists → Type 0
IsCounted st = (i : ℕ) → (st i).nr_free_pages ≡ pos (length (st i).pages)

pub cover_list-append :
    (f i : ℕ) (xs ys : List ℕ) → cover_list f i (xs ++ ys) ≡ cover_list f i xs + cover_list f i ys
unfolding cover_list
cover_list-append f i [] ys = omega arith
cover_list-append f i (x ∷ xs) ys = omega (arith, cover_list-append f i xs ys)

pub update_same : (st : Lists) (k : ℕ) (q : Queue) → update st k q k ≡ q
unfolding update
update_same st k q = rw ((==_iff k k).1 refl)

pub update_other : (st : Lists) (k i : ℕ) (q : Queue) → k ≢ i → update st k q i ≡ st i
unfolding update
update_other st k i q ne = elim (Bool-cases (k == i)) [
  | inl c ↦ absurd (ne ((==_iff k i).0 c))
  | inr c ↦ rw c
]

pub update-IsCounted :
    (st : Lists) (k : ℕ) (q : Queue)
    → IsCounted st
    → q.nr_free_pages ≡ pos (length q.pages)
    → IsCounted (update st k q)
unfolding update
update-IsCounted st k q c e i = elim (Bool-cases (k == i)) [ inl h ↦ rw h e | inr h ↦ rw h (c i) ]

cover-update_above :
    (f n k : ℕ) (st : Lists) (q : Queue) → n ≤ k → cover f n (update st k q) ≡ cover f n st
unfolding cover
cover-update_above f zero k st q h = refl
cover-update_above f (suc n) k st q h =
    rw (cover-update_above f n k st q (omega arith), update_other st k n q (omega arith))

-- A list exchanged for another changes the cover by the difference of the two.
pub cover-update :
    (f n k : ℕ) (st : Lists) (q : Queue)
    → k < n
    → cover f n (update st k q) + cover_list f k (st k).pages
      ≡ cover f n st + cover_list f k q.pages
unfolding cover
cover-update f zero k st q h = absurd (omega arith)
cover-update f (suc n) k st q h = elim (Bool-cases (k == n)) [
  | inl c ↦
      let e : k ≡ n = (==_iff k n).0 c in
      rw e (rw (cover-update_above f n n st q (omega arith), update_same st n q) (omega arith))
  | inr c ↦
      let ne : k ≢ n = ground arith in
      rw (update_other st k n q ne) (omega (arith, cover-update f n k st q (omega arith)))
]

within : ℕ → ℕ → ℕ → ℕ
within f p w = if leb p f && ltb f (p + w) then 1 else 0

within_half : (f p w : ℕ) → within f p (w * 2) ≡ within f p w + within f (p + w) w
unfolding within
within_half f p w = ground arith

-- The two halves of a block cover what the block covers.
pub cover_half :
    (f k p : ℕ) → cover_block f (suc k) p ≡ cover_block f k p + cover_block f k (p + 2 ^ k)
unfolding cover_block within
cover_half f k p = rw (pow-suc 2 k) (within_half f p (2 ^ k))
