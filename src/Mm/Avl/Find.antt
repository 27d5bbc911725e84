-- ===== src/Mm/Avl/Find.antt =====
-- `find_vma` finds the first area that ends above an address.
use prettyos.Common.{
  ℕ, ◌≤◌, ◌<◌, ◌≡◌, refl, ◌∙◌, List, [], ◌∷◌, ◌++◌, arith, inl, inr, ltb, if◌then◌else◌, Bool-cases,
  ltb→lt, ltb_false→le, All, All_at, All-left, Option, none, some,
}
use prettyos.Mm.Avl.{Vma, Tree, empty, node, find_from, find_vma}
use prettyos.Mm.Avl.Order.{to_list}

-- Areas that are not empty, in the order of their addresses, without overlap.
abbrev pub IsDisjoint : List Vma → Type 0
IsDisjoint [] = Unit
IsDisjoint (x ∷ xs) =
    (x.vm_start < x.vm_end) × All (λ (y : Vma). x.vm_end ≤ y.vm_start) xs × IsDisjoint xs

-- The first area of the list with `addr < vm_end`.
unfoldable pub first_above : ℕ → List Vma → Option Vma
first_above addr [] = none
first_above addr (v ∷ vs) = if ltb addr v.vm_end then some v else first_above addr vs

abbrev pub or_else : Option Vma → Option Vma → Option Vma
or_else none d = d
or_else (some v) d = some v

first_above-append :
    (addr : ℕ) (xs ys : List Vma)
    → first_above addr (xs ++ ys) ≡ or_else (first_above addr xs) (first_above addr ys)
unfolding first_above
first_above-append addr [] ys = refl
first_above-append addr (x ∷ xs) ys = elim (Bool-cases (ltb addr x.vm_end)) [
  | inl c ↦ rw c
  | inr c ↦ rw c (first_above-append addr xs ys)
]

record Parts (xs : List Vma) (v : Vma) (ys : List Vma) : Type 0 where
  left : IsDisjoint xs
  right : IsDisjoint ys
  nonempty : v.vm_start < v.vm_end
  below : All (λ (x : Vma). x.vm_end ≤ v.vm_start) xs

IsDisjoint-split :
    (xs : List Vma) (v : Vma) (ys : List Vma) → IsDisjoint (xs ++ (v ∷ ys)) → Parts xs v ys
IsDisjoint-split [] v ys (n, a, d) = record { left = tt; right = d; nonempty = n; below = tt }
IsDisjoint-split (x ∷ xs) v ys (n, a, d) =
    let p = IsDisjoint-split xs v ys d in
    record {
      left = (n, All-left _ xs (v ∷ ys) a, p.left);
      right = p.right;
      nonempty = p.nonempty;
      below = (All_at _ xs ys a, p.below);
    }

first_above-none :
    (addr k : ℕ) (xs : List Vma)
    → k ≤ addr
    → All (λ (x : Vma). x.vm_end ≤ k) xs
    → first_above addr xs ≡ none
unfolding first_above
first_above-none addr k [] e h = refl
first_above-none addr k (x ∷ xs) e h = elim (Bool-cases (ltb addr x.vm_end)) [
  | inl c ↦ absurd (omega (arith, ltb→lt addr x.vm_end c))
  | inr c ↦ rw c (first_above-none addr k xs e h.1)
]

or_else-none : (o d : Option Vma) → o ≡ none → or_else o d ≡ d
or_else-none o d e = rw e

or_else_assoc :
    (o : Option Vma) (v : Vma) (d : Option Vma)
    → or_else o (some v) ≡ or_else (or_else o (some v)) d
or_else_assoc none v d = refl
or_else_assoc (some w) v d = refl

find_from_lem :
    (addr : ℕ) (t : Tree) (result : Option Vma)
    → IsDisjoint (to_list t)
    → find_from addr t result ≡ or_else (first_above addr (to_list t)) result
unfolding find_from to_list first_above
find_from_lem addr empty result d = refl
find_from_lem addr (node l v h r) result d =
    let p = IsDisjoint-split (to_list l) v (to_list r) d in
    let n = p.nonempty in
    elim (Bool-cases (ltb addr v.vm_end)) [
      | inl c ↦
          rw (c, find_from)
            (rw first_above-append (
              rw c (elim (Bool-cases (ltb v.vm_start addr)) [
                | inl s ↦ rw s (
                    let low = ltb→lt v.vm_start addr s in
                    rw (first_above-none addr v.vm_start (to_list l) (omega arith) p.below))
                | inr s ↦ rw s (find_from_lem addr l (some v) p.left ∙ or_else_assoc _ v result)
              ])))
      | inr c ↦
          let low = ltb_false→le addr v.vm_end c in
          rw (c, find_from)
            (rw first_above-append (
              rw c (
                rw (first_above-none addr v.vm_start (to_list l) (omega arith) p.below)
                  (find_from_lem addr r result p.right))))
    ]

or_else-none_right : (o : Option Vma) → or_else o none ≡ o
or_else-none_right none = refl
or_else-none_right (some v) = refl

-- On a tree of disjoint areas in the order of their addresses, `find_vma` returns the first area
-- with `addr < vm_end`, and NULL if there is none.
pub find_vma_first :
    (addr : ℕ) (t : Tree) → IsDisjoint (to_list t) → find_vma addr t ≡ first_above addr (to_list t)
unfolding find_vma
find_vma_first addr t d = find_from_lem addr t none d ∙ or_else-none_right _
