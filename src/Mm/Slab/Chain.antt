-- ===== src/Mm/Slab/Chain.antt =====
-- The chain of all caches is kept in the order of their object sizes.
use prettyos.Common.{
  ℕ, ◌≤◌, ◌≡◌, refl, ap, List, [], ◌∷◌, All, ltb, if◌then◌else◌, arith, Bool-cases, inl, inr,
  ltb→lt, ltb_false→le,
}
use prettyos.Mm.Slab.{chain_loop, kmem_chain_add}

abbrev pub IsOrdered : List ℕ → Type 0
IsOrdered [] = Unit
IsOrdered (x ∷ xs) = All (λ y. x ≤ y) xs × IsOrdered xs

-- The size before the first greater one.
abbrev pub place_size : ℕ → List ℕ → List ℕ
place_size size [] = size ∷ []
place_size size (x ∷ xs) = if ltb size x then size ∷ x ∷ xs else x ∷ place_size size xs

chain_loop_lem : (size x : ℕ) (xs : List ℕ) → chain_loop size (x ∷ xs) ≡ place_size size (x ∷ xs)
unfolding chain_loop
chain_loop_lem size x [] = refl
chain_loop_lem size x (y ∷ ys) = elim (Bool-cases (ltb size x)) [
  | inl c ↦ rw c refl
  | inr c ↦ rw c (ap (◌∷◌ x) (chain_loop_lem size y ys))
]

All_le : (a b : ℕ) (xs : List ℕ) → a ≤ b → All (λ y. b ≤ y) xs → All (λ y. a ≤ y) xs
All_le a b [] e h = tt
All_le a b (x ∷ xs) e h = (omega arith, All_le a b xs e h.1)

All-place_size :
    (P : ℕ → Type 0) (size : ℕ) (xs : List ℕ) → P size → All P xs → All P (place_size size xs)
All-place_size P size [] p h = (p, tt)
All-place_size P size (x ∷ xs) p h = elim (Bool-cases (ltb size x)) [
  | inl c ↦ rw c (p, (h.0, h.1))
  | inr c ↦ rw c (h.0, All-place_size P size xs p h.1)
]

place_size-IsOrdered : (size : ℕ) (xs : List ℕ) → IsOrdered xs → IsOrdered (place_size size xs)
place_size-IsOrdered size [] o = (tt, tt)
place_size-IsOrdered size (x ∷ xs) o = elim (Bool-cases (ltb size x)) [
  | inl c ↦
      let k = ltb→lt size x c in
      rw c ((omega arith, All_le size x xs (omega arith) o.0), (o.0, o.1))
  | inr c ↦
      let k = ltb_false→le size x c in
      rw c (All-place_size (λ y. x ≤ y) size xs k o.0, place_size-IsOrdered size xs o.1)
]

-- `kmem_chain_add` puts the cache before the first one of a greater object size and keeps the chain in
-- the order of the sizes.
kmem_chain_add-IsOrdered :
    (size : ℕ) (xs : List ℕ)
    → IsOrdered xs
    → ((kmem_chain_add size xs).1 ≡ place_size size xs) × IsOrdered (kmem_chain_add size xs).1
unfolding kmem_chain_add
kmem_chain_add-IsOrdered size [] o = (refl, (tt, tt))
kmem_chain_add-IsOrdered size (x ∷ xs) o =
    let e = chain_loop_lem size x xs in (e, rw e (place_size-IsOrdered size (x ∷ xs) o))
