-- ===== src/Mm/Avl/Order.antt =====
-- The order of the areas in the tree: rotations keep it, and `avl_insert` puts an area in its place.
use prettyos.Common.{
  ◌+◌, ◌≡◌, refl, sym, ◌∙◌, List, [], ◌∷◌, ◌++◌, inl, inr, true, false, Bool, ltb, leb, ◌==◌,
  Bool-cases, append_assoc, append-nil,
}
use prettyos.Mm.Avl.{
  Vma, Tree, empty, node, heightof, Stack, in_left, in_right, plug, rotate_right, rotate_left,
  rebalance_node, height_over, rebalance,
}

-- The areas in the order of the tree.
unfoldable pub to_list : Tree → List Vma
to_list empty = []
to_list (node l v h r) = to_list l ++ (v ∷ to_list r)

rotate_right-list :
    (l : Tree) (v : Vma) (r : Tree) → to_list (rotate_right l v r) ≡ to_list l ++ (v ∷ to_list r)
unfolding rotate_right to_list
rotate_right-list empty v r = refl
rotate_right-list (node ll lv lh empty) v r = simp append_assoc
rotate_right-list (node ll lv lh (node lrl lrv lrh lrr)) v r =
    elim (Bool-cases (leb lrh (heightof ll))) [
      | inl c ↦ rw c (simp append_assoc)
      | inr c ↦ rw c (simp append_assoc)
    ]

rotate_left-list :
    (l : Tree) (v : Vma) (r : Tree) → to_list (rotate_left l v r) ≡ to_list l ++ (v ∷ to_list r)
unfolding rotate_left to_list
rotate_left-list l v empty = refl
rotate_left-list l v (node empty rv rh rr) = simp append_assoc
rotate_left-list l v (node (node rll rlv rlh rlr) rv rh rr) =
    elim (Bool-cases (leb rlh (heightof rr))) [
      | inl c ↦ rw c (simp append_assoc)
      | inr c ↦ rw c (simp append_assoc)
    ]

rebalance_node-list : (t : Tree) → to_list (rebalance_node t).0 ≡ to_list t
unfolding rebalance_node to_list
rebalance_node-list empty = refl
rebalance_node-list (node l v h r) = elim (Bool-cases (ltb (heightof r + 1) (heightof l))) [
  | inl c ↦ rw c (rotate_right-list l v r)
  | inr c ↦ rw c (elim (Bool-cases (ltb (heightof l + 1) (heightof r))) [
    | inl d ↦ rw d (rotate_left-list l v r)
    | inr d ↦ rw d (elim (Bool-cases (height_over l r == h)) [ inl e ↦ rw e | inr e ↦ rw e ])
  ])
]

-- The areas before and after the open link of a stack.
unfoldable pub before : Stack → List Vma
unfolding to_list
before [] = []
before (in_left v h r ∷ fs) = before fs
before (in_right l v h ∷ fs) = before fs ++ (to_list l ++ (v ∷ []))

unfoldable pub after : Stack → List Vma
unfolding to_list
after [] = []
after (in_left v h r ∷ fs) = (v ∷ to_list r) ++ after fs
after (in_right l v h ∷ fs) = after fs

pub plug-list : (fs : Stack) (t : Tree) → to_list (plug fs t) ≡ before fs ++ (to_list t ++ after fs)
unfolding before after
plug-list [] t = sym (append-nil (to_list t))
plug-list (in_left v h r ∷ fs) t = plug-list fs (node t v h r) ∙ simp append_assoc
plug-list (in_right l v h ∷ fs) t = plug-list fs (node l v h t) ∙ simp append_assoc

resume-list :
    (fs : Stack) (o : Tree × Bool)
    → to_list (rebalance fs o.0) ≡ before fs ++ (to_list o.0 ++ after fs)
    → to_list (elim o.1 [ true ↦ rebalance fs o.0 | false ↦ plug fs o.0 ])
      ≡ before fs ++ (to_list o.0 ++ after fs)
resume-list fs (t, true) k = k
resume-list fs (t, false) k = plug-list fs t

pub rebalance-list :
    (fs : Stack) (t : Tree) → to_list (rebalance fs t) ≡ before fs ++ (to_list t ++ after fs)
unfolding rebalance before after
rebalance-list [] t = sym (append-nil (to_list t))
rebalance-list (in_left v h r ∷ fs) t =
    resume-list fs (rebalance_node (node t v h r))
      (rebalance-list fs (rebalance_node (node t v h r)).0)
    ∙ rw rebalance_node-list (simp append_assoc)
rebalance-list (in_right l v h ∷ fs) t =
    resume-list fs (rebalance_node (node l v h t))
      (rebalance-list fs (rebalance_node (node l v h t)).0)
    ∙ rw rebalance_node-list (simp append_assoc)
