-- ===== src/Mm/Slab/Members.antt =====
-- The lists of slabs: membership, and a slab taken out.
use prettyos.Common.{
  All-right, ℕ, ◌≡◌, ◌≢◌, ◌⊎◌, refl, sym, ap, subst, false, List, [], ◌∷◌, ◌++◌, All, ◌==◌, arith,
  Bool-cases, inl, inr, ==_iff,
}
use prettyos.Libc.Linked.Chain.{Distinct}
use prettyos.Mm.Slab.{without, last_of}

abbrev pub Has : ℕ → List ℕ → Type 0
Has a [] = ⊥
Has a (x ∷ xs) = (a ≡ x) ⊎ Has a xs

pub Has-last_of : (x : ℕ) (xs : List ℕ) → Has (last_of x xs) (x ∷ xs)
unfolding last_of
Has-last_of x [] = inl refl
Has-last_of x (y ∷ ys) = inr (Has-last_of y ys)

pub All-Has : (P : ℕ → Type 0) (a : ℕ) (xs : List ℕ) → All P xs → Has a xs → P a
All-Has P a [] h k = elim k [ ]
All-Has P a (x ∷ xs) h (inl e) = subst P (sym e) h.0
All-Has P a (x ∷ xs) h (inr k) = All-Has P a xs h.1 k

pub Has-append : (a : ℕ) (xs ys : List ℕ) → Has a xs → Has a (xs ++ ys)
Has-append a [] ys h = elim h [ ]
Has-append a (x ∷ xs) ys (inl e) = inl e
Has-append a (x ∷ xs) ys (inr k) = inr (Has-append a xs ys k)

pub Distinct-apart : (a : ℕ) (xs ys : List ℕ) → Distinct (xs ++ ys) → Has a xs → All (λ y. y ≢ a) ys
Distinct-apart a [] ys d h = elim h [ ]
Distinct-apart a (x ∷ xs) ys d (inl e) =
    subst (λ z. All (λ y. y ≢ z) ys) (sym e) (All-right (λ y. y ≢ x) xs ys d.0)
Distinct-apart a (x ∷ xs) ys d (inr k) = Distinct-apart a xs ys d.1 k

pub without-miss : (a : ℕ) (xs : List ℕ) → All (λ y. y ≢ a) xs → without a xs ≡ xs
unfolding without
without-miss a [] n = refl
without-miss a (x ∷ xs) n =
    let c : (a == x) ≡ false = let m = n.0 in ground arith in
    rw c (ap (◌∷◌ x) (without-miss a xs n.1))

pub tail_Has : (a x : ℕ) (xs : List ℕ) → Has a (x ∷ xs) → (a == x) ≡ false → Has a xs
tail_Has a x xs (inl e) c = absurd (ground arith)
tail_Has a x xs (inr k) c = k

pub without-append : (a : ℕ) (xs ys : List ℕ) → Has a xs → without a xs ++ ys ≡ without a (xs ++ ys)
unfolding without
without-append a [] ys h = elim h [ ]
without-append a (x ∷ xs) ys h = elim (Bool-cases (a == x)) [
  | inl c ↦ rw c refl
  | inr c ↦ rw c (ap (◌∷◌ x) (without-append a xs ys (tail_Has a x xs h c)))
]

pub All-without : (P : ℕ → Type 0) (a : ℕ) (xs : List ℕ) → All P xs → All P (without a xs)
unfolding without
All-without P a [] h = tt
All-without P a (x ∷ xs) h = elim (Bool-cases (a == x)) [
  | inl c ↦ rw c h.1
  | inr c ↦ rw c (h.0, All-without P a xs h.1)
]

pub Distinct-without :
    (a : ℕ) (xs : List ℕ) → Distinct xs → Distinct (without a xs) × All (λ y. y ≢ a) (without a xs)
unfolding without
Distinct-without a [] d = (tt, tt)
Distinct-without a (x ∷ xs) d = elim (Bool-cases (a == x)) [
  | inl c ↦
      let e : a ≡ x = (==_iff a x).0 c in rw c (d.1, subst (λ z. All (λ y. y ≢ z) xs) (sym e) d.0)
  | inr c ↦
      let (p, q) = Distinct-without a xs d.1 in
      let n : x ≢ a = ground arith in rw c ((All-without (λ y. y ≢ x) a xs d.0, p), (n, q))
]
