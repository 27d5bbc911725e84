-- ===== src/Mm/Avl.antt =====
-- The AVL tree of a process' memory areas, keyed by `vm_end`: mm/mmap.c.
-- The C code walks down with a stack of pointers to links; here the stack is the list of the nodes
-- passed, each without the subtree that the walk went into.
pub mod Rotate
pub mod Balance
pub mod Order
pub mod Insert
pub mod Remove
pub mod Find
pub mod Bound
pub mod Neighbours
mod Tests
use prettyos.Common.{
  ℕ, suc, ◌+◌, Bool, true, false, Option, none, some, List, [], ◌∷◌, ◌++◌, ltb, leb, ◌==◌,
  if◌then◌else◌,
}

-- `struct vm_area_struct`, without the links of the tree and of the list.
pub record Vma : Type 0 where
  pub vm_start : ℕ
  pub vm_end : ℕ

-- A node: the left subtree, the area, the stored `vm_avl_height`, the right subtree.
pub data Tree : Type 0 where
  empty : Tree
  node : Tree → Vma → ℕ → Tree → Tree

abbrev pub heightof : Tree → ℕ
heightof empty = 0
heightof (node l v h r) = h

-- An entry of `stack`: a node passed on the way into its left (right) subtree.
pub data Frame : Type 0 where
  in_left : Vma → ℕ → Tree → Frame
  in_right : Tree → Vma → ℕ → Frame

-- The entry on top comes first.
abbrev pub Stack : Type 0
Stack = List Frame

-- The node of an entry, with `t` in its open link.
abbrev pub fill : Frame → Tree → Tree
fill (in_left v h r) t = node t v h r
fill (in_right l v h) t = node l v h t

-- The whole tree, with `t` in the open link.
abbrev pub plug : Stack → Tree → Tree
plug [] t = t
plug (f ∷ fs) t = plug fs (fill f t)

-- `nodeleft` is two higher than `noderight`. The first and third clauses are not reached, since
-- `heightof` of NULL is 0.
pub rotate_right : Tree → Vma → Tree → Tree
rotate_right empty v r = node empty v 1 r
rotate_right (node ll lv lh empty) v r = node ll lv 2 (node empty v 1 r)
rotate_right (node ll lv lh (node lrl lrv lrh lrr)) v r =
    if leb lrh (heightof ll)
    then node ll lv (1 + (1 + lrh)) (node (node lrl lrv lrh lrr) v (1 + lrh) r)
    else node (node ll lv lrh lrl) lrv lh (node lrr v lrh r)

-- The mirror image.
pub rotate_left : Tree → Vma → Tree → Tree
rotate_left l v empty = node l v 1 empty
rotate_left l v (node empty rv rh rr) = node (node l v 1 empty) rv 2 rr
rotate_left l v (node (node rll rlv rlh rlr) rv rh rr) =
    if leb rlh (heightof rr)
    then node (node l v (1 + rlh) (node rll rlv rlh rlr)) rv (1 + (1 + rlh)) rr
    else node (node l v rlh rll) rlv rh (node rlr rv rlh rr)

-- `max (heightof l) (heightof r) + 1`
abbrev pub height_over : Tree → Tree → ℕ
height_over l r = (if ltb (heightof l) (heightof r) then heightof r else heightof l) + 1

-- One round of the loop of `avl_rebalance`: the new node, and whether the loop goes on.
pub rebalance_node : Tree → Tree × Bool
rebalance_node empty = (empty, false)
rebalance_node (node l v h r) =
    if ltb (heightof r + 1) (heightof l)
    then (rotate_right l v r, true)
    else if ltb (heightof l + 1) (heightof r)
    then (rotate_left l v r, true)
    else if height_over l r == h
    then (node l v h r, false)
    else (node l v (height_over l r) r, true)

-- `avl_rebalance`: from the top of the stack towards the root, until a height stays.
pub rebalance : Stack → Tree → Tree
rebalance [] t = t
rebalance (f ∷ fs) t =
    let (t', go) = rebalance_node (fill f t) in
    elim go [ true ↦ rebalance fs t' | false ↦ plug fs t' ]

-- The loop of `avl_insert`: down to the empty link where the key belongs.
pub descend : ℕ → Tree → Stack → Stack
descend key empty s = s
descend key (node l v h r) s = elim (ltb key v.vm_end) [
  | true ↦ descend key l (in_left v h r ∷ s)
  | false ↦ descend key r (in_right l v h ∷ s)
]

abbrev pub leaf : Vma → Tree
leaf v = node empty v 1 empty

pub avl_insert : Vma → Tree → Tree
avl_insert new t = rebalance (descend new.vm_end t []) (leaf new)

-- `*to_the_left` and `*to_the_right` as the loop of `avl_insert_neighbours` leaves them.
pub neighbours_on_path : ℕ → Tree → Option Vma → Option Vma → Option Vma × Option Vma
neighbours_on_path key empty left right = (left, right)
neighbours_on_path key (node l v h r) left right = elim (ltb key v.vm_end) [
  | true ↦ neighbours_on_path key l left (some v)
  | false ↦ neighbours_on_path key r (some v) right
]

pub avl_insert_neighbours : Vma → Tree → Tree × Option Vma × Option Vma
unfolding avl_insert
avl_insert_neighbours new t =
    let (left, right) = neighbours_on_path new.vm_end t none none in (avl_insert new t, left, right)

-- The inner loop of `avl_remove`, from a node `node l v h r`: down the right links. It returns the
-- last node's area and left subtree, and the entries pushed.
pub last : Tree → Vma → ℕ → Tree → Stack → Vma × Tree × Stack
last l v h empty s = (v, l, s)
last l v h (node rl rv rh rr) s = last rl rv rh rr (in_right l v h ∷ s)

-- The rest of `avl_remove`, once the node is found below the stack `s`.
pub remove_node : Tree → Vma → ℕ → Tree → Stack → Tree
remove_node empty v h r s = rebalance s r
remove_node (node ll lv lh lr) v h r s =
    let (m, ml, pushed) = last ll lv lh lr [] in rebalance (pushed ++ in_left m h r ∷ s) ml

-- The outer loop of `avl_remove`; a key that is not in the tree changes nothing.
pub remove_from : ℕ → Tree → Stack → Tree
remove_from key empty s = plug s empty
remove_from key (node l v h r) s = elim (key == v.vm_end) [
  | true ↦ remove_node l v h r s
  | false ↦ elim (ltb key v.vm_end) [
    | true ↦ remove_from key l (in_left v h r ∷ s)
    | false ↦ remove_from key r (in_right l v h ∷ s)
  ]
]

pub avl_remove : ℕ → Tree → Tree
avl_remove key t = remove_from key t []

-- `build_mmap_avl`: the tree of the list of areas.
pub build_from : Tree → List Vma → Tree
build_from t [] = t
build_from t (v ∷ vs) = build_from (avl_insert v t) vs

pub build_mmap_avl : List Vma → Tree
build_mmap_avl vs = build_from empty vs

-- The loop of `find_vma`.
pub find_from : ℕ → Tree → Option Vma → Option Vma
find_from addr empty result = result
find_from addr (node l v h r) result = elim (ltb addr v.vm_end) [
  | true ↦ if ltb v.vm_start addr then some v else find_from addr l (some v)
  | false ↦ find_from addr r result
]

pub find_vma : ℕ → Tree → Option Vma
find_vma addr t = find_from addr t none
