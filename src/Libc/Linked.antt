-- ===== src/Libc/Linked.antt =====
-- Circular doubly linked lists: lib/list.c. A heap gives the two links of the node at each address; NULL
-- is 0.
mod Tests
pub mod Chain
pub mod Splice
use prettyos.Common.{
  ℕ, zero, suc, ◌+◌, Bool, true, false, not, Option, none, some, ◌==◌, ◌&&◌, ◌||◌, if◌then◌else◌,
}
use prettyos.Common.Int.{ℤ, pos, negsuc, neg}

pub record Heap : Type 0 where
  pub next : ℕ → ℕ
  pub prev : ℕ → ℕ

abbrev pub null : ℕ
null = 0

unfoldable pub write : (ℕ → ℕ) → ℕ → ℕ → ℕ → ℕ
write f a v b = if a == b then v else f b

abbrev pub set_next : Heap → ℕ → ℕ → Heap
set_next h a v = record h { next = write h.next a v }

abbrev pub set_prev : Heap → ℕ → ℕ → Heap
set_prev h a v = record h { prev = write h.prev a v }

-- `INIT_LIST_HEAD`
unfoldable pub init_list_head : Heap → ℕ → Heap
init_list_head h list = set_prev (set_next h list list) list list

-- `__list_add`
unfoldable pub list_add : Heap → ℕ → ℕ → ℕ → Heap
list_add h item before after =
    set_next (set_prev (set_next (set_prev h after item) item after) item before) before item

unfoldable pub list_add_tail : Heap → ℕ → ℕ → Heap
list_add_tail h item head = if item == null then h else list_add h item head (h.next head)

unfoldable pub list_add_head : Heap → ℕ → ℕ → Heap
list_add_head h item head = if item == null then h else list_add h item (h.prev head) head

-- `__list_del`
unfoldable pub list_join : Heap → ℕ → ℕ → Heap
list_join h before after =
    let h' = if after == null then h else set_prev h after before in
    if before == null then h' else set_next h' before after

-- The poison addresses are what include/list.h makes of them.
abbrev pub poison1 : ℕ
poison1 = 0x00100100

abbrev pub poison2 : ℕ
poison2 = 0x00200200

unfoldable pub list_del : Heap → ℕ → Heap
list_del h entry =
    set_prev (set_next (list_join h (h.prev entry) (h.next entry)) entry poison1) entry poison2

unfoldable pub list_del_init : Heap → ℕ → Heap
list_del_init h entry = init_list_head (list_join h (h.prev entry) (h.next entry)) entry

unfoldable pub list_empty : Heap → ℕ → Bool
list_empty h head = h.next head == head || h.prev head == head

unfoldable pub list_empty_careful : Heap → ℕ → Bool
list_empty_careful h head = h.next head == head && h.prev head == head

-- The result, and what `*entry` is set to; the pointer `entry` itself is not NULL in any call.
unfoldable pub list_get_head : Heap → ℕ → ℤ × Option ℕ
list_get_head h head =
    if head == null
    then (neg 1, none)
    else if h.next head == head
    then (neg 2, none)
    else (pos 0, some (h.next head))

unfoldable pub list_get_tail : Heap → ℕ → ℤ × Option ℕ
list_get_tail h head =
    if head == null
    then (neg 1, none)
    else if h.prev head == head
    then (neg 2, none)
    else (pos 0, some (h.prev head))

-- `*entry` before the call is `old`.
unfoldable pub entry_after : ℕ → Option ℕ → ℕ
entry_after old none = old
entry_after old (some e) = e

abbrev pub is_zero : ℤ → Bool
is_zero (pos n) = n == 0
is_zero (negsuc n) = false

unfoldable pub list_get_head_del : Heap → ℕ → ℕ → ℤ × ℕ × Heap
list_get_head_del h head old =
    let (r, e) = list_get_head h head in
    let entry = entry_after old e in
    if is_zero r && not (entry == null) then (pos 0, entry, list_del h entry) else (neg 2, entry, h)

-- The code deletes where `list_get_tail` fails, not where it succeeds.
unfoldable pub list_get_tail_del : Heap → ℕ → ℕ → ℤ × ℕ × Heap
list_get_tail_del h head old =
    let (r, e) = list_get_tail h head in
    let entry = entry_after old e in
    if not (is_zero r) && not (entry == null)
    then (pos 0, entry, list_del h entry)
    else (neg 2, entry, h)

-- The rounds of `list_for_each_safe` from p on.
unfoldable pub num_loop : ℕ → Heap → ℕ → ℕ → ℕ → Option ℕ
num_loop zero h head p num = none
num_loop (suc fuel) h head p num = elim (p == head) [
  | true ↦ some num
  | false ↦ num_loop fuel h head (h.next p) (num + 1)
]

unfoldable pub list_num : ℕ → Heap → ℕ → Option ℕ
list_num fuel h head = num_loop fuel h head (h.next head) 0
