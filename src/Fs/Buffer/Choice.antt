-- ===== src/Fs/Buffer/Choice.antt =====
-- The buffer that the loop of `getblk` picks.
use prettyos.Common.{
  ℕ, zero, suc, ◌≤◌, ◌<◌, ◌≡◌, ◌≢◌, ◌⊎◌, refl, ap, ◌∙◌, true, false, some, List, [], ◌∷◌, length,
  All, ◌==◌, arith, Bool-cases, inl, inr, ==_iff,
}
use prettyos.Fs.Buffer.{
  Buffers, null, badness, is_better, is_taken, pick_one, stops, choose_loop, choose,
}
use prettyos.Mm.Slab.Members.{Has}

-- The ring of the free list from a on: each buffer links to the next, and the last one to the first of the list.
abbrev pub Free : Buffers → ℕ → List ℕ → Type 0
Free s a [] = (s.heads a).b_next_free ≡ s.buffer_free_list
Free s a (x ∷ xs) = ((s.heads a).b_next_free ≡ x) × (x ≢ s.buffer_free_list) × Free s x xs

-- A buffer of the list that is not in use, of the least badness
pub record Least (s : Buffers) (xs : List ℕ) (r : ℕ) : Type 0 where
  pub member : Has r xs
  pub unused : (s.heads r).b_count ≡ 0
  pub least : All (λ y. (s.heads y).b_count ≡ 0 → badness (s.heads r) ≤ badness (s.heads y)) xs

all_above_zero :
    (s : Buffers) (xs : List ℕ) (r : ℕ)
    → badness (s.heads r) ≡ 0
    → All (λ y. (s.heads y).b_count ≡ 0 → badness (s.heads r) ≤ badness (s.heads y)) xs
all_above_zero s [] r e = tt
all_above_zero s (x ∷ xs) r e = ((λ c. omega arith), all_above_zero s xs r e)

-- The best buffer of a list, or NULL where all are in use
pub Best : Buffers → List ℕ → ℕ → Type 0
Best s xs r = ((r ≡ null) × All (λ y. (s.heads y).b_count ≢ 0) xs) ⊎ ((r ≢ null) × Least s xs r)

all_weaken :
    (s : Buffers) (a b : ℕ) (xs : List ℕ)
    → a ≤ b
    → All (λ y. (s.heads y).b_count ≡ 0 → b ≤ badness (s.heads y)) xs
    → All (λ y. (s.heads y).b_count ≡ 0 → a ≤ badness (s.heads y)) xs
all_weaken s a b [] h k = tt
all_weaken s a b (x ∷ xs) h k = ((λ c. let q = k.0 c in omega arith), all_weaken s a b xs h k.1)

all_in_use :
    (s : Buffers) (a : ℕ) (xs : List ℕ)
    → All (λ y. (s.heads y).b_count ≢ 0) xs
    → All (λ y. (s.heads y).b_count ≡ 0 → a ≤ badness (s.heads y)) xs
all_in_use s a [] k = tt
all_in_use s a (x ∷ xs) k = ((λ c. absurd (k.0 c)), all_in_use s a xs k.1)

-- A round with a taken buffer
taken_Best :
    (s : Buffers) (seen : List ℕ) (bh item : ℕ)
    → item ≢ null
    → (s.heads item).b_count ≡ 0
    → is_better s bh item ≡ true
    → Best s seen bh
    → Best s (item ∷ seen) item
unfolding Best is_better
taken_Best s seen bh item n u t (inl (z, a)) = inr (
  n,
  record {
    member = inl refl;
    unused = u;
    least = ((λ c. omega arith), all_in_use s (badness (s.heads item)) seen a);
  },
)
taken_Best s seen bh item n u t (inr (z, l)) =
    let h : badness (s.heads item) ≤ badness (s.heads bh) = ground arith in
    inr (
      n,
      record {
        member = inl refl;
        unused = u;
        least = (
          (λ c. omega arith),
          all_weaken s (badness (s.heads item)) (badness (s.heads bh)) seen h l.least,
        );
      },
    )

-- A round with a buffer that is not taken
skipped_Best :
    (s : Buffers) (seen : List ℕ) (bh item : ℕ)
    → ((s.heads item).b_count ≢ 0) ⊎ (is_better s bh item ≡ false)
    → Best s seen bh
    → Best s (item ∷ seen) bh
unfolding Best is_better
skipped_Best s seen bh item (inl u) (inl (z, a)) = inl (z, (u, a))
skipped_Best s seen bh item (inr t) (inl (z, a)) = absurd (ground arith)
skipped_Best s seen bh item (inl u) (inr (z, l)) =
    inr (
      z,
      record { member = inr l.member; unused = l.unused; least = ((λ c. absurd (u c)), l.least) },
    )
skipped_Best s seen bh item (inr t) (inr (z, l)) =
    let h : badness (s.heads bh) ≤ badness (s.heads item) = ground arith in
    inr (z, record { member = inr l.member; unused = l.unused; least = ((λ c. h), l.least) })

pick_one-Best :
    (s : Buffers) (seen : List ℕ) (bh item : ℕ)
    → item ≢ null
    → Best s seen bh
    → Best s (item ∷ seen) (pick_one s bh item)
unfolding pick_one is_taken
pick_one-Best s seen bh item n b = elim (Bool-cases ((s.heads item).b_count == 0)) [
  | inr c ↦ rw c (skipped_Best s seen bh item (inl (λ d. ground arith)) b)
  | inl c ↦ elim (Bool-cases (is_better s bh item)) [
    | inl d ↦ rw c (rw d (taken_Best s seen bh item n ((==_iff (s.heads item).b_count 0).0 c) d b))
    | inr d ↦ rw c (rw d (skipped_Best s seen bh item (inr d) b))
  ]
]

-- The list in front of another, its order turned
abbrev walked : List ℕ → List ℕ → List ℕ
walked seen [] = seen
walked seen (x ∷ xs) = walked (x ∷ seen) xs

Has-walked : (r : ℕ) (seen xs : List ℕ) → Has r seen → Has r (walked seen xs)
Has-walked r seen [] h = h
Has-walked r seen (x ∷ xs) h = Has-walked r (x ∷ seen) xs (inr h)

walked-Has : (r : ℕ) (seen xs : List ℕ) → Has r (walked seen xs) → Has r seen ⊎ Has r xs
walked-Has r seen [] h = inl h
walked-Has r seen (x ∷ xs) h = elim (walked-Has r (x ∷ seen) xs h) [
  | inl (inl e) ↦ inr (inl e)
  | inl (inr k) ↦ inl k
  | inr k ↦ inr (inr k)
]

walked-All : (P : ℕ → Type 0) (seen xs : List ℕ) → All P (walked seen xs) → All P seen × All P xs
walked-All P seen [] a = (a, tt)
walked-All P seen (x ∷ xs) a = let (b, c) = walked-All P (x ∷ seen) xs a in (b.1, (b.0, c))

walked-Best : (s : Buffers) (xs : List ℕ) (r : ℕ) → Best s (walked [] xs) r → Best s xs r
unfolding Best
walked-Best s xs r (inl (z, a)) = inl (z, (walked-All (λ y. (s.heads y).b_count ≢ 0) [] xs a).1)
walked-Best s xs r (inr (z, l)) = inr (
  z,
  record {
    member = elim (walked-Has r [] xs l.member) [ inl h ↦ elim h [ ] | inr h ↦ h ];
    unused = l.unused;
    least =
        (walked-All (λ y. (s.heads y).b_count ≡ 0 → badness (s.heads r) ≤ badness (s.heads y)) [] xs
          l.least).1;
  },
)

stops_lem :
    (s : Buffers) (bh item : ℕ)
    → stops s bh item ≡ true
    → ((s.heads item).b_count ≡ 0) × (badness (s.heads item) ≡ 0)
unfolding stops is_taken
stops_lem s bh item e = (ground arith, ground arith)

choose_walk :
    (fuel : ℕ) (s : Buffers) (item bh : ℕ) (seen xs : List ℕ)
    → Free s item xs
    → All (λ y. y ≢ null) (item ∷ xs)
    → length xs < fuel
    → Best s seen bh
    → (r : ℕ) × (choose_loop fuel s item bh ≡ some r) × Best s (walked seen (item ∷ xs)) r
unfolding choose_loop Best
choose_walk zero s item bh seen xs f n l b = absurd (omega arith)
choose_walk (suc fuel) s item bh seen [] f n l b = elim (Bool-cases (stops s bh item)) [
  | inl c ↦
      let (u, z) = stops_lem s bh item c in
      (
        item,
        rw (c, choose_loop) refl,
        inr (
          n.0,
          record { member = inl refl; unused = u; least = all_above_zero s (item ∷ seen) item z },
        ),
      )
  | inr c ↦
      let d : ((s.heads item).b_next_free == s.buffer_free_list) ≡ true =
        (==_iff (s.heads item).b_next_free s.buffer_free_list).1 f in
      (
        pick_one s bh item,
        rw (c, choose_loop) (rw (d, choose_loop) refl),
        pick_one-Best s seen bh item n.0 b,
      )
]
choose_walk (suc fuel) s item bh seen (x ∷ xs) f n l b = elim (Bool-cases (stops s bh item)) [
  | inl c ↦
      let (u, z) = stops_lem s bh item c in
      (
        item,
        rw (c, choose_loop) refl,
        inr (
          n.0,
          record {
            member = Has-walked item (item ∷ seen) (x ∷ xs) (inl refl);
            unused = u;
            least = all_above_zero s (walked (item ∷ seen) (x ∷ xs)) item z;
          },
        ),
      )
  | inr c ↦
      let e = f.0 in
      let q = f.1 in
      let d : ((s.heads item).b_next_free == s.buffer_free_list) ≡ false = rw e (ground arith) in
      let (r, w, k) =
        choose_walk fuel s x (pick_one s bh item) (item ∷ seen) xs f.2 n.1 (omega arith)
          (pick_one-Best s seen bh item n.0 b) in
      (
        r,
        rw (c, choose_loop)
            (rw (d, choose_loop) (ap (λ y. choose_loop fuel s y (pick_one s bh item)) e ∙ w)),
        k,
      )
]

-- On the ring of the free list, whose buffers are not at NULL, with more rounds than it has buffers after the first, the loop of `getblk`
-- ends: with NULL where all buffers are in use, and otherwise with a buffer of the ring that is not, and of the
-- least badness of these.
pub choose-Best :
    (fuel : ℕ) (s : Buffers) (xs : List ℕ)
    → Free s s.buffer_free_list xs
    → All (λ y. y ≢ null) (s.buffer_free_list ∷ xs)
    → length xs < fuel
    → (r : ℕ) × (choose fuel s ≡ some r) × Best s (s.buffer_free_list ∷ xs) r
unfolding choose
choose-Best fuel s xs f n l =
    let (r, w, k) =
      choose_walk fuel s s.buffer_free_list null [] xs f n l (unfold Best in inl (refl, tt)) in
    (r, w, walked-Best s (s.buffer_free_list ∷ xs) r k)
