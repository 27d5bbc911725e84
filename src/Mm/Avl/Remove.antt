-- ===== src/Mm/Avl/Remove.antt =====
-- `avl_remove` takes one area out of the order and keeps the tree balanced.
use prettyos.Common.{
  ℕ, suc, ◌≤◌, ◌<◌, ◌≡◌, refl, sym, ap, subst, ◌∙◌, List, [], ◌∷◌, ◌++◌, arith, inl, inr, false,
  ltb, ◌==◌, if◌then◌else◌, Bool-cases, ltb→lt, ltb_false→le, ==_iff, All, append_assoc, append-nil,
  max,
}
use prettyos.Mm.Avl.{
  Vma, Tree, empty, node, heightof, Stack, in_left, in_right, last, remove_node, remove_from,
  avl_remove,
}
use prettyos.Mm.Avl.Rotate.{IsAvl, Near}
use prettyos.Mm.Avl.Balance.{Fits, rebalance-IsAvl, plug-IsAvl}
use prettyos.Mm.Avl.Order.{to_list, before, after, rebalance-list, plug-list}
use prettyos.Mm.Avl.Insert.{IsSorted, IsSorted-Split, Above, Above_weaken, regroup}

-- The list without the first area of the key.
unfoldable pub erase : ℕ → List Vma → List Vma
erase key [] = []
erase key (y ∷ ys) = if key == y.vm_end then ys else y ∷ erase key ys

before-append : (p q : Stack) → before (p ++ q) ≡ before q ++ before p
unfolding before
before-append [] q = sym (append-nil (before q))
before-append (in_left v h r ∷ p) q = before-append p q
before-append (in_right l v h ∷ p) q = rw (before-append p q) (append_assoc (before q) (before p) _)

after-append : (p q : Stack) → after (p ++ q) ≡ after p ++ after q
unfolding after
after-append [] q = refl
after-append (in_left v h r ∷ p) q = rw (after-append p q, append_assoc)
after-append (in_right l v h ∷ p) q = after-append p q

-- The walk to the last node of a subtree: where it ends, and what it has passed.
last-list :
    (l : Tree) (v : Vma) (h : ℕ) (r : Tree) (s : Stack)
    → let (m, ml, p) = last l v h r s in
      (before p ++ (to_list ml ++ (m ∷ [])) ≡ before s ++ (to_list l ++ (v ∷ to_list r)))
      × (after p ≡ after s)
unfolding last to_list before after
last-list l v h empty s = (refl, refl)
last-list l v h (node rl rv rh rr) s =
    let (a, b) = last-list rl rv rh rr (in_right l v h ∷ s) in (a ∙ simp append_assoc, b)

remove_regroup :
    (bs bp ml : List Vma) (m : Vma) (rs ends : List Vma) {left : List Vma}
    → bp ++ (ml ++ (m ∷ [])) ≡ left
    → (bs ++ bp) ++ (ml ++ ((m ∷ rs) ++ ends)) ≡ bs ++ ((left ++ rs) ++ ends)
remove_regroup bs bp ml m rs ends e = rw (← e) (simp append_assoc)

remove_node-list :
    (l : Tree) (v : Vma) (h : ℕ) (r : Tree) (s : Stack)
    → to_list (remove_node l v h r s) ≡ before s ++ ((to_list l ++ to_list r) ++ after s)
unfolding remove_node to_list
remove_node-list empty v h r s = rebalance-list s r
remove_node-list (node ll lv lh lr) v h r s =
    let (m, ml, p) = last ll lv lh lr [] in
    let (a, b) = last-list ll lv lh lr [] in
    rebalance-list (p ++ in_left m h r ∷ s) ml
    ∙ rw (before-append p, after-append p, b)
        (unfold before after in
          remove_regroup (before s) (before p) (to_list ml) m (to_list r) (after s) a)

-- A stack on top of another: a tree of height `a` in its link makes a tree of height `b`.
abbrev FitsTo : Stack → ℕ → ℕ → Type 0
FitsTo [] a b = a ≡ b
FitsTo (in_left v h r ∷ fs) a b =
    IsAvl r × (h ≡ suc (max a (heightof r))) × Near a (heightof r) × FitsTo fs h b
FitsTo (in_right l v h ∷ fs) a b =
    IsAvl l × (h ≡ suc (max (heightof l) a)) × Near (heightof l) a × FitsTo fs h b

Fits-append : (p q : Stack) (a b : ℕ) → FitsTo p a b → Fits q b → Fits (p ++ q) a
Fits-append [] q a b e f = subst (Fits q) (sym e) f
Fits-append (in_left v h r ∷ p) q a b (x, y, z, g) f = (x, y, z, Fits-append p q h b g f)
Fits-append (in_right l v h ∷ p) q a b (x, y, z, g) f = (x, y, z, Fits-append p q h b g f)

last-FitsTo :
    (l : Tree) (v : Vma) (h : ℕ) (r : Tree) (s : Stack) (b : ℕ)
    → IsAvl (node l v h r)
    → FitsTo s h b
    → let (m, ml, p) = last l v h r s in FitsTo p (suc (heightof ml)) b × IsAvl ml
unfolding last
last-FitsTo l v h empty s b (bl, br, e, p, q) f =
    let e' : h ≡ suc (heightof l) = omega arith in (subst (λ k. FitsTo s k b) e' f, bl)
last-FitsTo l v h (node rl rv rh rr) s b (bl, br, e, p, q) f =
    last-FitsTo rl rv rh rr (in_right l v h ∷ s) b br (bl, e, (p, q), f)

remove_node-IsAvl :
    (l : Tree) (v : Vma) (h : ℕ) (r : Tree) (s : Stack)
    → IsAvl (node l v h r)
    → Fits s h
    → IsAvl (remove_node l v h r s)
unfolding remove_node
remove_node-IsAvl empty v h r s (bl, br, e, p, q) f =
    rebalance-IsAvl s h r f br (omega arith, omega arith)
remove_node-IsAvl (node ll lv lh lr) v h r s (bl, br, e, p, q) f =
    let (m, ml, ps) = last ll lv lh lr [] in
    let (g, bm) = last-FitsTo ll lv lh lr [] lh bl refl in
    rebalance-IsAvl (ps ++ in_left m h r ∷ s) (suc (heightof ml)) ml
      (Fits-append ps (in_left m h r ∷ s) _ lh g (br, e, (p, q), f)) bm (omega arith, omega arith)

remove_from-IsAvl :
    (key : ℕ) (t : Tree) (s : Stack) → IsAvl t → Fits s (heightof t) → IsAvl (remove_from key t s)
unfolding remove_from
remove_from-IsAvl key empty s b f = plug-IsAvl s 0 empty f tt refl
remove_from-IsAvl key (node l v h r) s (bl, br, e, p, q) f = elim (Bool-cases (key == v.vm_end)) [
  | inl c ↦ rw (c, remove_from) (remove_node-IsAvl l v h r s (bl, br, e, p, q) f)
  | inr c ↦ elim (Bool-cases (ltb key v.vm_end)) [
    | inl d ↦
        rw (c, d, remove_from) (remove_from-IsAvl key l (in_left v h r ∷ s) bl (br, e, (p, q), f))
    | inr d ↦
        rw (c, d, remove_from) (remove_from-IsAvl key r (in_right l v h ∷ s) br (bl, e, (p, q), f))
  ]
]

-- On a balanced tree with right heights stored, `avl_remove` leaves one too, whether or not the key
-- is in it.
pub avl_remove-IsAvl : (key : ℕ) (t : Tree) → IsAvl t → IsAvl (avl_remove key t)
unfolding avl_remove
avl_remove-IsAvl key t b = remove_from-IsAvl key t [] b tt

erase_left : (key : ℕ) (xs ys : List Vma) → Above key ys → erase key (xs ++ ys) ≡ erase key xs ++ ys
unfolding erase
erase_left key [] [] h = refl
erase_left key [] (y ∷ ys) h = elim (Bool-cases (key == y.vm_end)) [
  | inl c ↦ absurd (let e = (==_iff key y.vm_end).0 c in omega arith)
  | inr c ↦ rw c (ap (◌∷◌ y) (erase_left key [] ys h.1))
]
erase_left key (x ∷ xs) ys h = elim (Bool-cases (key == x.vm_end)) [
  | inl c ↦ rw c
  | inr c ↦ rw c (ap (◌∷◌ x) (erase_left key xs ys h))
]

erase_right :
    (key k : ℕ) (xs ys : List Vma)
    → k ≤ key
    → All (λ (x : Vma). x.vm_end < k) xs
    → erase key (xs ++ ys) ≡ xs ++ erase key ys
unfolding erase
erase_right key k [] ys e h = refl
erase_right key k (x ∷ xs) ys e h = elim (Bool-cases (key == x.vm_end)) [
  | inl c ↦ absurd (let w = (==_iff key x.vm_end).0 c in omega arith)
  | inr c ↦ rw c (ap (◌∷◌ x) (erase_right key k xs ys e h.1))
]

erase_here :
    (key : ℕ) (xs : List Vma) (v : Vma) (ys : List Vma)
    → key ≡ v.vm_end
    → All (λ (x : Vma). x.vm_end < v.vm_end) xs
    → erase key (xs ++ (v ∷ ys)) ≡ xs ++ ys
unfolding erase
erase_here key xs v ys e h =
    erase_right key v.vm_end xs (v ∷ ys) (omega arith) h ∙ rw ((==_iff key v.vm_end).1 e)

erase_miss :
    (key : ℕ) (v : Vma) (ys : List Vma)
    → (key == v.vm_end) ≡ false
    → erase key (v ∷ ys) ≡ v ∷ erase key ys
unfolding erase
erase_miss key v ys c = rw c

remove_from-list :
    (key : ℕ) (t : Tree) (s : Stack)
    → IsSorted (to_list t)
    → to_list (remove_from key t s) ≡ before s ++ (erase key (to_list t) ++ after s)
unfolding remove_from to_list before after erase
remove_from-list key empty s o = plug-list s empty
remove_from-list key (node l v h r) s o =
    let p = IsSorted-Split (to_list l) v (to_list r) o in
    elim (Bool-cases (key == v.vm_end)) [
      | inl c ↦
          rw (c, remove_from)
            (remove_node-list l v h r s
              ∙ ap (λ q. before s ++ (q ++ after s))
                  (sym (erase_here key (to_list l) v (to_list r) ((==_iff _ _).0 c) p.below)))
      | inr c ↦ elim (Bool-cases (ltb key v.vm_end)) [
        | inl d ↦
            let k = ltb→lt key v.vm_end d in
            rw (c, d, remove_from)
              (remove_from-list key l (in_left v h r ∷ s) p.left
                ∙ ap (λ q. before s ++ q)
                    (sym (append_assoc (erase key (to_list l)) (v ∷ to_list r) (after s)))
                ∙ ap (λ q. before s ++ (q ++ after s))
                    (sym (
                      erase_left key (to_list l) (v ∷ to_list r)
                        (k, Above_weaken _ key _ k p.above))))
        | inr d ↦
            let k = ltb_false→le key v.vm_end d in
            let e = erase_right key v.vm_end (to_list l) (v ∷ to_list r) k p.below in
            rw (c, d, remove_from)
              (remove_from-list key r (in_right l v h ∷ s) p.right
                ∙ regroup v (before s) (to_list l) (erase key (to_list r)) (after s)
                ∙ ap (λ q. before s ++ (q ++ after s))
                    (sym (e ∙ ap (λ q. to_list l ++ q) (erase_miss key v (to_list r) c))))
      ]
    ]

-- On a tree sorted by `vm_end`, `avl_remove` takes out the area with that `vm_end`, if there is one,
-- and keeps all other areas in their order.
pub avl_remove-list :
    (key : ℕ) (t : Tree) → IsSorted (to_list t) → to_list (avl_remove key t) ≡ erase key (to_list t)
unfolding avl_remove before after
avl_remove-list key t o = remove_from-list key t [] o ∙ append-nil (erase key (to_list t))
