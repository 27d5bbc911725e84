-- ===== src/Mm/Avl/Neighbours.antt =====
-- `avl_neighbours` of mm/mmap.c: the areas before and after an area of the tree. An area is known by its key;
-- the messages on an inconsistent tree are left out.
use prettyos.Common.{
  ℕ, ◌≤◌, ◌<◌, ◌≡◌, refl, sym, ap, ap₂, ◌∙◌, true, false, Option, none, some, List, [], ◌∷◌, ◌++◌,
  All, ltb, ◌==◌, if◌then◌else◌, All_at, All-left, All-right, arith, Bool-cases, inl, inr, ==_iff,
  ltb→lt,
}
use prettyos.Mm.Avl.{Vma, Tree, empty, node}
use prettyos.Mm.Avl.Order.{to_list}
use prettyos.Mm.Avl.Insert.{IsSorted, IsSorted-Split}

-- The last area of a node with the area v and the right subtree
pub last_in : Vma → Tree → Vma
last_in v empty = v
last_in v (node l w h r) = last_in w r

-- The first area of a node with the area v and the left subtree
pub first_in : Tree → Vma → Vma
first_in empty v = v
first_in (node l w h r) v = first_in l w

pub left_of : Option Vma → Tree → Option Vma
left_of old empty = old
left_of old (node l v h r) = some (last_in v r)

pub right_of : Option Vma → Tree → Option Vma
right_of old empty = old
right_of old (node l v h r) = some (first_in l v)

-- The loop, with `*to_the_left` and `*to_the_right`
pub neighbours_from : ℕ → Tree → Option Vma → Option Vma → Option Vma × Option Vma
neighbours_from key empty left right = (left, right)
neighbours_from key (node l v h r) left right = elim (key == v.vm_end) [
  | true ↦ (left_of left l, right_of right r)
  | false ↦ elim (ltb key v.vm_end) [
    | true ↦ neighbours_from key l left (some v)
    | false ↦ neighbours_from key r (some v) right
  ]
]

pub avl_neighbours : ℕ → Tree → Option Vma × Option Vma
avl_neighbours key t = neighbours_from key t none none

-- The last area of the list that ends below the key
unfoldable pub last_below : Option Vma → ℕ → List Vma → Option Vma
last_below acc key [] = acc
last_below acc key (x ∷ xs) = last_below (if ltb x.vm_end key then some x else acc) key xs

-- The first area of the list that ends above the key
unfoldable pub first_beyond : Option Vma → ℕ → List Vma → Option Vma
first_beyond acc key [] = acc
first_beyond acc key (x ∷ xs) = if ltb key x.vm_end then some x else first_beyond acc key xs

last_below-append :
    (acc : Option Vma) (key : ℕ) (xs ys : List Vma)
    → last_below acc key (xs ++ ys) ≡ last_below (last_below acc key xs) key ys
unfolding last_below
last_below-append acc key [] ys = refl
last_below-append acc key (x ∷ xs) ys =
    last_below-append (if ltb x.vm_end key then some x else acc) key xs ys

first_beyond-append :
    (acc : Option Vma) (key : ℕ) (xs ys : List Vma)
    → first_beyond acc key (xs ++ ys) ≡ first_beyond (first_beyond acc key ys) key xs
unfolding first_beyond
first_beyond-append acc key [] ys = refl
first_beyond-append acc key (x ∷ xs) ys = elim (Bool-cases (ltb key x.vm_end)) [
  | inl c ↦ rw c refl
  | inr c ↦ rw c (first_beyond-append acc key xs ys)
]

none_below :
    (acc : Option Vma) (key : ℕ) (xs : List Vma)
    → All (λ (x : Vma). key ≤ x.vm_end) xs
    → last_below acc key xs ≡ acc
unfolding last_below
none_below acc key [] a = refl
none_below acc key (x ∷ xs) a =
    let h = a.0 in
    let c : ltb x.vm_end key ≡ false = ground arith in rw c (none_below acc key xs a.1)

none_beyond :
    (acc : Option Vma) (key : ℕ) (xs : List Vma)
    → All (λ (x : Vma). x.vm_end ≤ key) xs
    → first_beyond acc key xs ≡ acc
unfolding first_beyond
none_beyond acc key [] a = refl
none_beyond acc key (x ∷ xs) a =
    let h = a.0 in
    let c : ltb key x.vm_end ≡ false = ground arith in rw c (none_beyond acc key xs a.1)

-- Where all areas of a subtree are below or beyond the key
last_in_lem :
    (acc : Option Vma) (key : ℕ) (v : Vma) (t : Tree)
    → v.vm_end < key
    → All (λ (x : Vma). x.vm_end < key) (to_list t)
    → last_below acc key (v ∷ to_list t) ≡ some (last_in v t)
unfolding last_below to_list last_in
last_in_lem acc key v empty h a = let c : ltb v.vm_end key ≡ true = ground arith in rw c refl
last_in_lem acc key v (node l w k r) h a =
    let start = if ltb v.vm_end key then some v else acc in
    let b = All_at (λ (x : Vma). x.vm_end < key) (to_list l) (to_list r) a in
    let c = (All-right (λ (x : Vma). x.vm_end < key) (to_list l) (w ∷ to_list r) a).1 in
    last_below-append start key (to_list l) (w ∷ to_list r)
    ∙ last_in_lem (last_below start key (to_list l)) key w r b c

left_of_lem :
    (acc : Option Vma) (key : ℕ) (t : Tree)
    → All (λ (x : Vma). x.vm_end < key) (to_list t)
    → last_below acc key (to_list t) ≡ left_of acc t
unfolding to_list left_of
left_of_lem acc key empty a = unfold last_below in refl
left_of_lem acc key (node l w k r) a =
    let b = All_at (λ (x : Vma). x.vm_end < key) (to_list l) (to_list r) a in
    let c = (All-right (λ (x : Vma). x.vm_end < key) (to_list l) (w ∷ to_list r) a).1 in
    last_below-append acc key (to_list l) (w ∷ to_list r)
    ∙ last_in_lem (last_below acc key (to_list l)) key w r b c

first_in_lem :
    (acc : Option Vma) (key : ℕ) (t : Tree) (v : Vma) (ys : List Vma)
    → key < v.vm_end
    → All (λ (x : Vma). key < x.vm_end) (to_list t)
    → first_beyond acc key (to_list t ++ (v ∷ ys)) ≡ some (first_in t v)
unfolding to_list first_in
first_in_lem acc key empty v ys h a =
    let c : ltb key v.vm_end ≡ true = ground arith in unfold first_beyond in rw c refl
first_in_lem acc key (node l w k r) v ys h a =
    let b = All_at (λ (x : Vma). key < x.vm_end) (to_list l) (to_list r) a in
    let c = All-left (λ (x : Vma). key < x.vm_end) (to_list l) (w ∷ to_list r) a in
    first_beyond-append acc key (to_list l ++ (w ∷ to_list r)) (v ∷ ys)
    ∙ first_in_lem (first_beyond acc key (v ∷ ys)) key l w (to_list r) b c

right_of_lem :
    (acc : Option Vma) (key : ℕ) (t : Tree)
    → All (λ (x : Vma). key < x.vm_end) (to_list t)
    → first_beyond acc key (to_list t) ≡ right_of acc t
unfolding to_list right_of
right_of_lem acc key empty a = unfold first_beyond in refl
right_of_lem acc key (node l w k r) a =
    let b = All_at (λ (x : Vma). key < x.vm_end) (to_list l) (to_list r) a in
    let c = All-left (λ (x : Vma). key < x.vm_end) (to_list l) (w ∷ to_list r) a in
    first_in_lem acc key l w (to_list r) b c

All-weaken : (P Q : Vma → Type 0) (xs : List Vma) → ((x : Vma) → P x → Q x) → All P xs → All Q xs
All-weaken P Q [] f a = tt
All-weaken P Q (x ∷ xs) f a = (f x a.0, All-weaken P Q xs f a.1)

below_kept :
    (acc : Option Vma) (key : ℕ) (xs : List Vma) (v : Vma) (ys : List Vma)
    → key ≤ v.vm_end
    → All (λ (x : Vma). v.vm_end < x.vm_end) ys
    → last_below acc key (xs ++ (v ∷ ys)) ≡ last_below acc key xs
below_kept acc key xs v ys h a =
    last_below-append acc key xs (v ∷ ys)
    ∙ none_below (last_below acc key xs) key (v ∷ ys) (h, All-weaken _ _ ys (λ x k. omega arith) a)

below_here :
    (acc : Option Vma) (key : ℕ) (xs : List Vma) (v : Vma) (ys : List Vma)
    → v.vm_end < key
    → last_below acc key (xs ++ (v ∷ ys)) ≡ last_below (some v) key ys
below_here acc key xs v ys h =
    let c : ltb v.vm_end key ≡ true = ground arith in
    last_below-append acc key xs (v ∷ ys) ∙ unfold last_below in rw c refl

beyond_kept :
    (acc : Option Vma) (key : ℕ) (xs : List Vma) (v : Vma) (ys : List Vma)
    → v.vm_end ≤ key
    → All (λ (x : Vma). x.vm_end < v.vm_end) xs
    → first_beyond acc key (xs ++ (v ∷ ys)) ≡ first_beyond acc key ys
beyond_kept acc key xs v ys h a =
    let c : ltb key v.vm_end ≡ false = ground arith in
    first_beyond-append acc key xs (v ∷ ys)
    ∙ none_beyond (first_beyond acc key (v ∷ ys)) key xs (All-weaken _ _ xs (λ x k. omega arith) a)
    ∙ unfold first_beyond in rw c refl

beyond_here :
    (acc : Option Vma) (key : ℕ) (xs : List Vma) (v : Vma) (ys : List Vma)
    → key < v.vm_end
    → first_beyond acc key (xs ++ (v ∷ ys)) ≡ first_beyond (some v) key xs
beyond_here acc key xs v ys h =
    let c : ltb key v.vm_end ≡ true = ground arith in
    first_beyond-append acc key xs (v ∷ ys)
    ∙ ap (λ z. first_beyond z key xs) (unfold first_beyond in rw c refl)

neighbours_from_lem :
    (key : ℕ) (t : Tree) (left right : Option Vma)
    → IsSorted (to_list t)
    → neighbours_from key t left right
      ≡ (last_below left key (to_list t), first_beyond right key (to_list t))
unfolding neighbours_from to_list
neighbours_from_lem key empty left right o = unfold last_below first_beyond in refl
neighbours_from_lem key (node l v h r) left right o =
    let L = to_list l in
    let R = to_list r in
    let p = IsSorted-Split L v R o in
    let k = v.vm_end in
    elim (Bool-cases (key == k)) [
      | inl c ↦
          let e = (==_iff key k).0 c in
          let a = All-weaken _ (λ (x : Vma). x.vm_end < key) L (λ x q. omega arith) p.below in
          let b = All-weaken _ (λ (x : Vma). key < x.vm_end) R (λ x q. omega arith) p.above in
          rw (c, neighbours_from)
            (ap₂ (λ x y. (x, y))
              (sym (below_kept left key L v R (omega arith) p.above ∙ left_of_lem left key l a))
              (sym
                (beyond_kept right key L v R (omega arith) p.below ∙ right_of_lem right key r b)))
      | inr c ↦ elim (Bool-cases (ltb key k)) [
        | inl d ↦
            let q = ltb→lt key k d in
            rw (c, neighbours_from)
              (rw (d, neighbours_from)
                (neighbours_from_lem key l left (some v) p.left
                  ∙ ap₂ (λ x y. (x, y)) (sym (below_kept left key L v R (omega arith) p.above))
                      (sym (beyond_here right key L v R q))))
        | inr d ↦
            let q : k < key = ground arith in
            rw (c, neighbours_from)
              (rw (d, neighbours_from)
                (neighbours_from_lem key r (some v) right p.right
                  ∙ ap₂ (λ x y. (x, y)) (sym (below_here left key L v R q))
                      (sym (beyond_kept right key L v R (omega arith) p.below))))
      ]
    ]

-- On a tree sorted by `vm_end`, `avl_neighbours` gives the last area of the list that ends below the key and the first
-- one that ends above it, each where there is one.
pub avl_neighbours_lem :
    (key : ℕ) (t : Tree)
    → IsSorted (to_list t)
    → avl_neighbours key t ≡ (last_below none key (to_list t), first_beyond none key (to_list t))
unfolding avl_neighbours
avl_neighbours_lem key t o = neighbours_from_lem key t none none o
