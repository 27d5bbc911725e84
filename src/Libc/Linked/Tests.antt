-- ===== src/Libc/Linked/Tests.antt =====
-- A list of two nodes, and the theorems at concrete inputs.
use prettyos.Common.{refl, [], ◌∷◌, arith}
use prettyos.Libc.Linked.{Heap, write, init_list_head, list_add_tail}
use prettyos.Libc.Linked.Chain.{PathTo, IsLinked, list_add_tail-IsLinked}

-- The empty list of the head at 16.
abbrev empty : Heap
empty = init_list_head (record { next = λ a. 0; prev = λ a. 0 }) 16

empty-IsLinked : IsLinked empty 16 []
unfolding PathTo init_list_head write
empty-IsLinked = record {
  links = (refl, refl);
  apart = (tt, tt);
  nonnull = ((λ e. omega arith), tt);
}

abbrev single : Heap
single = list_add_tail empty 32 16

single-IsLinked : IsLinked single 16 (32 ∷ [])
single-IsLinked =
    list_add_tail-IsLinked empty 16 32 [] empty-IsLinked (λ e. omega arith) ((λ e. omega arith), tt)
