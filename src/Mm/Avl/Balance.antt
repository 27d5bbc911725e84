-- ===== src/Mm/Avl/Balance.antt =====
-- `avl_insert` and `build_mmap_avl` keep the tree balanced.
use prettyos.Common.{
  ℕ, suc, ◌≡◌, refl, List, [], ◌∷◌, arith, max, Bool, inl, inr, true, false, ltb, Bool-cases,
}
use prettyos.Mm.Avl.{
  Vma, Tree, empty, node, heightof, Stack, in_left, in_right, plug, rebalance_node, rebalance,
  descend, leaf, avl_insert, build_from, build_mmap_avl,
}
use prettyos.Mm.Avl.Rotate.{IsAvl, Near, Restores, rebalance_node-Restores}

-- A balanced tree of height `a` in the open link of the stack makes the whole tree balanced.
abbrev pub Fits : Stack → ℕ → Type 0
Fits [] a = Unit
Fits (in_left v h r ∷ fs) a =
    IsAvl r × (h ≡ suc (max a (heightof r))) × Near a (heightof r) × Fits fs h
Fits (in_right l v h ∷ fs) a =
    IsAvl l × (h ≡ suc (max (heightof l) a)) × Near (heightof l) a × Fits fs h

pub plug-IsAvl :
    (fs : Stack) (a : ℕ) (t : Tree) → Fits fs a → IsAvl t → heightof t ≡ a → IsAvl (plug fs t)
plug-IsAvl [] a t f b e = b
plug-IsAvl (in_left v h r ∷ fs) a t (ar, eh, n, f) b e =
    plug-IsAvl fs h (node t v h r) f (b, ar, omega arith, omega arith, omega arith) refl
plug-IsAvl (in_right l v h ∷ fs) a t (al, eh, n, f) b e =
    plug-IsAvl fs h (node l v h t) f (al, b, omega arith, omega arith, omega arith) refl

-- One round's outcome: the loop stops and the rest is unchanged, or it goes on.
resume-IsAvl :
    (fs : Stack) (h : ℕ) (o : Tree × Bool)
    → Fits fs h
    → Restores h o
    → IsAvl (rebalance fs o.0)
    → IsAvl (elim o.1 [ true ↦ rebalance fs o.0 | false ↦ plug fs o.0 ])
resume-IsAvl fs h (t, true) f w k = k
resume-IsAvl fs h (t, false) f w k = plug-IsAvl fs h t f w.0 (w.2 refl)

-- The loop from a link where a tree of height `a` stood, and one at most one apart stands now.
pub rebalance-IsAvl :
    (fs : Stack) (a : ℕ) (t : Tree)
    → Fits fs a
    → IsAvl t
    → Near (heightof t) a
    → IsAvl (rebalance fs t)
unfolding rebalance
rebalance-IsAvl [] a t f b n = b
rebalance-IsAvl (in_left v h r ∷ fs) a t (ar, eh, s, f) b n =
    let w =
      rebalance_node-Restores a (heightof r) t v h r b ar s eh
        (inr ((omega arith, omega arith), refl)) in
    resume-IsAvl fs h (rebalance_node (node t v h r)) f w
      (rebalance-IsAvl fs h (rebalance_node (node t v h r)).0 f w.0 w.1)
rebalance-IsAvl (in_right l v h ∷ fs) a t (al, eh, s, f) b n =
    let w =
      rebalance_node-Restores (heightof l) a l v h t al b s eh
        (inl (refl, (omega arith, omega arith))) in
    resume-IsAvl fs h (rebalance_node (node l v h t)) f w
      (rebalance-IsAvl fs h (rebalance_node (node l v h t)).0 f w.0 w.1)

descend-Fits :
    (key : ℕ) (t : Tree) (s : Stack) → IsAvl t → Fits s (heightof t) → Fits (descend key t s) 0
unfolding descend
descend-Fits key empty s b f = f
descend-Fits key (node l v h r) s (bl, br, eh, p, q) f = elim (Bool-cases (ltb key v.vm_end)) [
  | inl c ↦
      rw (c, descend)
        (descend-Fits key l (in_left v h r ∷ s) bl (br, eh, (omega arith, omega arith), f))
  | inr c ↦
      rw (c, descend)
        (descend-Fits key r (in_right l v h ∷ s) br (bl, eh, (omega arith, omega arith), f))
]

-- On a balanced tree with right heights stored, `avl_insert` leaves a balanced tree with right
-- heights stored.
pub avl_insert-IsAvl : (new : Vma) (t : Tree) → IsAvl t → IsAvl (avl_insert new t)
unfolding avl_insert
avl_insert-IsAvl new t b =
    rebalance-IsAvl (descend new.vm_end t []) 0 (leaf new) (descend-Fits new.vm_end t [] b tt)
      (tt, tt, omega arith, omega arith, omega arith) (omega arith, omega arith)

build_from-IsAvl : (t : Tree) (vs : List Vma) → IsAvl t → IsAvl (build_from t vs)
unfolding build_from
build_from-IsAvl t [] b = b
build_from-IsAvl t (v ∷ vs) b = build_from-IsAvl (avl_insert v t) vs (avl_insert-IsAvl v t b)

-- The tree that `build_mmap_avl` makes of any list of areas is balanced, and stores right heights.
pub build_mmap_avl-IsAvl : (vs : List Vma) → IsAvl (build_mmap_avl vs)
unfolding build_mmap_avl
build_mmap_avl-IsAvl vs = build_from-IsAvl empty vs tt
