-- ===== src/Mm/Avl/Tests.antt =====
-- The tree operations run on small trees, and the theorems at concrete inputs.
use prettyos.Common.{none, ℕ, ◌≡◌, refl, List, [], ◌∷◌, arith, ◌≤◌, length}
use prettyos.Mm.Avl.{
  Vma, Tree, empty, node, leaf, avl_insert, avl_remove, build_mmap_avl, find_vma, rebalance,
  descend,
}
use prettyos.Mm.Avl.{build_from, rebalance_node, rotate_left, remove_from, remove_node, last}
use prettyos.Mm.Avl.Rotate.{IsAvl}
use prettyos.Mm.Avl.Balance.{avl_insert-IsAvl}
use prettyos.Mm.Avl.Order.{to_list}
use prettyos.Mm.Avl.Insert.{place, to_list-avl_insert}
use prettyos.Mm.Avl.Remove.{erase, avl_remove-IsAvl, avl_remove-list}
use prettyos.Mm.Avl.Find.{first_above, find_vma_first}
use prettyos.Mm.Avl.Neighbours.{avl_neighbours, last_below, first_beyond, avl_neighbours_lem}
use prettyos.Mm.Avl.Bound.{avl_maxheight, size, descend_in_stack}

abbrev area : ℕ → ℕ → Vma
area a b = record { vm_start = a; vm_end = b }

abbrev areas : List Vma
areas = area 1 2 ∷ area 3 4 ∷ area 5 6 ∷ []

abbrev three : Tree
three = node (leaf (area 1 2)) (area 3 4) 2 (leaf (area 5 6))

-- Ascending insertions rotate the tree.
build_three : build_mmap_avl areas ≡ three
unfolding build_mmap_avl build_from avl_insert rebalance descend rebalance_node rotate_left
build_three = refl

remove_root : avl_remove 4 three ≡ node empty (area 1 2) 2 (leaf (area 5 6))
unfolding avl_remove remove_from remove_node rebalance last rebalance_node
remove_root = refl

avl_insert-IsAvl_example : IsAvl (avl_insert (area 7 9) three)
avl_insert-IsAvl_example = avl_insert-IsAvl (area 7 9) three (omega arith)

to_list-avl_insert_example :
    to_list (avl_insert (area 7 9) three) ≡ place (area 7 9) (to_list three)
unfolding to_list
to_list-avl_insert_example = to_list-avl_insert (area 7 9) three (omega arith)

avl_remove-IsAvl_example : IsAvl (avl_remove 4 three)
avl_remove-IsAvl_example = avl_remove-IsAvl 4 three (omega arith)

avl_remove-list_example : to_list (avl_remove 4 three) ≡ erase 4 (to_list three)
unfolding to_list
avl_remove-list_example = avl_remove-list 4 three (omega arith)

find_vma_first_example : find_vma 3 three ≡ first_above 3 (to_list three)
unfolding to_list
find_vma_first_example = find_vma_first 3 three (omega arith)

descend_in_stack_example : length (descend 9 three []) ≤ avl_maxheight
unfolding size
descend_in_stack_example = descend_in_stack 9 three (omega arith) (omega arith)

avl_neighbours_lem_example :
    avl_neighbours 4 three
    ≡ (last_below none 4 (to_list three), first_beyond none 4 (to_list three))
unfolding to_list
avl_neighbours_lem_example = avl_neighbours_lem 4 three (omega arith)
