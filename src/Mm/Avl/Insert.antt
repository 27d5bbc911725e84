-- ===== src/Mm/Avl/Insert.antt =====
-- `avl_insert` puts an area in its place in the order, and reports its neighbours.
use prettyos.Common.{
  ℕ, ◌≤◌, ◌<◌, ◌≡◌, refl, sym, ap, subst, ◌∙◌, List, [], ◌∷◌, ◌++◌, arith, inl, inr, ltb,
  if◌then◌else◌, Bool-cases, ltb→lt, ltb_false→le, lt→ltb, All, All-append, All_at, All-left,
  append_assoc, append-nil, ◌≢◌, Option, none, some,
}
use prettyos.Mm.Avl.{
  Vma, Tree, empty, node, Stack, in_left, in_right, descend, leaf, avl_insert, neighbours_on_path,
  avl_insert_neighbours, build_from, build_mmap_avl,
}
use prettyos.Mm.Avl.Order.{to_list, before, after, rebalance-list}

-- The keys increase.
abbrev pub IsSorted : List Vma → Type 0
IsSorted [] = Unit
IsSorted (x ∷ xs) = All (λ (y : Vma). x.vm_end < y.vm_end) xs × IsSorted xs

-- A sorted list, taken apart at one of its areas.
pub record Split (xs : List Vma) (v : Vma) (ys : List Vma) : Type 0 where
  pub left : IsSorted xs
  pub right : IsSorted ys
  pub below : All (λ (x : Vma). x.vm_end < v.vm_end) xs
  pub above : All (λ (y : Vma). v.vm_end < y.vm_end) ys

pub IsSorted-Split :
    (xs : List Vma) (v : Vma) (ys : List Vma) → IsSorted (xs ++ (v ∷ ys)) → Split xs v ys
IsSorted-Split [] v ys (a, s) = record { left = tt; right = s; below = tt; above = a }
IsSorted-Split (x ∷ xs) v ys (a, s) =
    let p = IsSorted-Split xs v ys s in
    record {
      left = (All-left _ xs (v ∷ ys) a, p.left);
      right = p.right;
      below = (All_at _ xs ys a, p.below);
      above = p.above;
    }

-- The list with `new` before the first area of a greater key.
unfoldable pub place : Vma → List Vma → List Vma
place new [] = new ∷ []
place new (y ∷ ys) = if ltb new.vm_end y.vm_end then new ∷ y ∷ ys else y ∷ place new ys

abbrev pub AtMost : ℕ → List Vma → Type 0
AtMost key = All (λ (x : Vma). x.vm_end ≤ key)

abbrev pub Above : ℕ → List Vma → Type 0
Above key = All (λ (x : Vma). key < x.vm_end)

pub AtMost-weaken :
    (k n : ℕ) (xs : List Vma) → k ≤ n → All (λ (x : Vma). x.vm_end < k) xs → AtMost n xs
AtMost-weaken k n [] e h = tt
AtMost-weaken k n (x ∷ xs) e h = (omega arith, AtMost-weaken k n xs e h.1)

pub Above_weaken : (k n : ℕ) (xs : List Vma) → n < k → Above k xs → Above n xs
Above_weaken k n [] e h = tt
Above_weaken k n (x ∷ xs) e h = (omega arith, Above_weaken k n xs e h.1)

place-append :
    (new : Vma) (xs ys : List Vma)
    → AtMost new.vm_end xs
    → Above new.vm_end ys
    → place new (xs ++ ys) ≡ xs ++ (new ∷ ys)
unfolding place
place-append new [] [] h k = refl
place-append new [] (y ∷ ys) h k = rw (lt→ltb _ _ k.0)
place-append new (x ∷ xs) ys h k = elim (Bool-cases (ltb new.vm_end x.vm_end)) [
  | inl c ↦ absurd (omega (arith, ltb→lt new.vm_end x.vm_end c))
  | inr c ↦ rw (c, place-append new xs ys h.1 k)
]

-- What the walk finds: the list falls apart at the open link, in the keys up to `key` and those above.
pub record Found (key : ℕ) (all : List Vma) (p : Stack) : Type 0 where
  pub parts : before p ++ after p ≡ all
  pub lower : AtMost key (before p)
  pub upper : Above key (after p)

pub regroup :
    (v : Vma) (a b c d : List Vma) → (a ++ (b ++ (v ∷ []))) ++ (c ++ d) ≡ a ++ ((b ++ (v ∷ c)) ++ d)
regroup v a b c d = simp append_assoc

pub descend-Found :
    (key : ℕ) (t : Tree) (s : Stack)
    → IsSorted (to_list t)
    → AtMost key (before s)
    → Above key (after s)
    → Found key (before s ++ (to_list t ++ after s)) (descend key t s)
unfolding descend before after
descend-Found key empty s o lo up = record { parts = refl; lower = lo; upper = up }
descend-Found key (node l v h r) s o lo up =
    let p = IsSorted-Split (to_list l) v (to_list r) o in
    elim (Bool-cases (ltb key v.vm_end)) [
      | inl c ↦
          let k = ltb→lt key v.vm_end c in
          rw (c, descend)
            (rw append_assoc (
              descend-Found key l (in_left v h r ∷ s) p.left lo
                (k, All-append _ (to_list r) (after s) (Above_weaken _ key _ k p.above) up)))
      | inr c ↦
          let k = ltb_false→le key v.vm_end c in
          rw (c, descend)
            (subst (λ all. Found key all (descend key r (in_right l v h ∷ s)))
              (regroup v (before s) (to_list l) (to_list r) (after s))
              (descend-Found key r (in_right l v h ∷ s) p.right
                (All-append _ (before s) _ lo
                  (All-append _ (to_list l) _ (AtMost-weaken _ key _ k p.below) (k, tt)))
                up))
    ]

-- On a tree sorted by `vm_end`, `avl_insert` puts the new area before the first area of a greater
-- `vm_end`, and keeps all other areas in their order.
pub to_list-avl_insert :
    (new : Vma) (t : Tree)
    → IsSorted (to_list t)
    → to_list (avl_insert new t) ≡ place new (to_list t)
unfolding avl_insert to_list before after
to_list-avl_insert new t o =
    let p = descend new.vm_end t [] in
    let f = descend-Found new.vm_end t [] o tt tt in
    rebalance-list p (leaf new)
    ∙ sym (place-append new (before p) (after p) f.lower f.upper)
    ∙ ap (place new) (f.parts ∙ append-nil (to_list t))

Above_place :
    (k : ℕ) (new : Vma) (xs : List Vma) → k < new.vm_end → Above k xs → Above k (place new xs)
unfolding place
Above_place k new [] h a = (h, tt)
Above_place k new (x ∷ xs) h a = elim (Bool-cases (ltb new.vm_end x.vm_end)) [
  | inl c ↦ rw c (h, a)
  | inr c ↦ rw c (a.0, Above_place k new xs h a.1)
]

place-IsSorted :
    (new : Vma) (xs : List Vma)
    → All (λ (x : Vma). x.vm_end ≢ new.vm_end) xs
    → IsSorted xs
    → IsSorted (place new xs)
unfolding place
place-IsSorted new [] n s = (tt, tt)
place-IsSorted new (x ∷ xs) n s = elim (Bool-cases (ltb new.vm_end x.vm_end)) [
  | inl c ↦ let k = ltb→lt new.vm_end x.vm_end c in rw c ((k, Above_weaken _ _ xs k s.0), s)
  | inr c ↦
      let k = ltb_false→le new.vm_end x.vm_end c in
      rw c (Above_place _ new xs (let d = n.0 in omega arith) s.0, place-IsSorted new xs n.1 s.1)
]

-- A new `vm_end` keeps the tree sorted: it stays a search tree.
pub avl_insert-IsSorted :
    (new : Vma) (t : Tree)
    → All (λ (x : Vma). x.vm_end ≢ new.vm_end) (to_list t)
    → IsSorted (to_list t)
    → IsSorted (to_list (avl_insert new t))
avl_insert-IsSorted new t n s = rw (to_list-avl_insert new t s) (place-IsSorted new (to_list t) n s)

-- An area of the greatest key goes to the end.
place_last :
    (new : Vma) (xs : List Vma)
    → All (λ (x : Vma). x.vm_end < new.vm_end) xs
    → place new xs ≡ xs ++ (new ∷ [])
place_last new xs h =
    ap (place new) (sym (append-nil xs))
    ∙ place-append new xs [] (AtMost-weaken _ _ xs (omega arith) h) tt

build_from-list :
    (t : Tree) (vs : List Vma)
    → IsSorted (to_list t ++ vs)
    → to_list (build_from t vs) ≡ to_list t ++ vs
unfolding build_from
build_from-list t [] s = sym (append-nil (to_list t))
build_from-list t (v ∷ vs) s =
    let p = IsSorted-Split (to_list t) v vs s in
    let e : to_list (avl_insert v t) ≡ to_list t ++ (v ∷ []) =
      to_list-avl_insert v t p.left ∙ place_last v (to_list t) p.below in
    build_from-list (avl_insert v t) vs (rw (e, append_assoc) s) ∙ rw (e, append_assoc)

-- The tree that `build_mmap_avl` makes of a list of areas that is sorted by `vm_end` holds, in
-- order, exactly those areas.
build_mmap_avl-list : (vs : List Vma) → IsSorted vs → to_list (build_mmap_avl vs) ≡ vs
unfolding build_mmap_avl to_list
build_mmap_avl-list vs s = build_from-list empty vs s

abbrev pub last? : List Vma → Option Vma
last? [] = none
last? (x ∷ []) = some x
last? (x ∷ y ∷ ys) = last? (y ∷ ys)

abbrev pub first? : List Vma → Option Vma
first? [] = none
first? (x ∷ xs) = some x

last?-append : (xs : List Vma) (v : Vma) → last? (xs ++ (v ∷ [])) ≡ some v
last?-append [] v = refl
last?-append (x ∷ []) v = refl
last?-append (x ∷ y ∷ ys) v = last?-append (y ∷ ys) v

neighbours_on_path_lem :
    (key : ℕ) (t : Tree) (s : Stack)
    → neighbours_on_path key t (last? (before s)) (first? (after s))
      ≡ (last? (before (descend key t s)), first? (after (descend key t s)))
unfolding neighbours_on_path descend before after
neighbours_on_path_lem key empty s = refl
neighbours_on_path_lem key (node l v h r) s = elim (Bool-cases (ltb key v.vm_end)) [
  | inl c ↦ rw (c, neighbours_on_path, descend) (neighbours_on_path_lem key l (in_left v h r ∷ s))
  | inr c ↦
      let e =
        ap last? (sym (append_assoc (before s) (to_list l) (v ∷ [])))
        ∙ last?-append (before s ++ to_list l) v in
      rw (c, neighbours_on_path, descend)
        (ap (λ o. neighbours_on_path key r o (first? (after s))) (sym e)
          ∙ neighbours_on_path_lem key r (in_right l v h ∷ s))
]

-- The list before and after an insertion, and the neighbours reported.
pub record Inserted (new : Vma) (t : Tree) (out : Tree × Option Vma × Option Vma) : Type 0 where
  pub lower : List Vma
  pub upper : List Vma
  pub old_list : to_list t ≡ lower ++ upper
  pub new_list : to_list out.0 ≡ lower ++ (new ∷ upper)
  pub to_the_left : out.1 ≡ last? lower
  pub to_the_right : out.2 ≡ first? upper

-- On a tree sorted by `vm_end`, `avl_insert_neighbours` puts the new area between a lower and an
-- upper part of the list, and reports the last area of the lower and the first of the upper part.
pub avl_insert_neighbours-Inserted :
    (new : Vma) (t : Tree) → IsSorted (to_list t) → Inserted new t (avl_insert_neighbours new t)
unfolding avl_insert_neighbours before after to_list
avl_insert_neighbours-Inserted new t o =
    let p = descend new.vm_end t [] in
    let f = descend-Found new.vm_end t [] o tt tt in
    let n = neighbours_on_path_lem new.vm_end t [] in
    record {
      lower = before p;
      upper = after p;
      old_list = sym (f.parts ∙ append-nil (to_list t));
      new_list = rebalance-list p (leaf new);
      to_the_left = ap (λ q. q.0) n;
      to_the_right = ap (λ q. q.1) n;
    }

-- `avl_insert_neighbours` inserts as `avl_insert` does.
pub avl_insert_neighbours_tree :
    (new : Vma) (t : Tree) → (avl_insert_neighbours new t).0 ≡ avl_insert new t
unfolding avl_insert_neighbours
avl_insert_neighbours_tree new t = refl
