-- ===== src/Net/Skbuff.antt =====
-- Queues of socket buffers: net/inet/skbuff.c and `skb_peek` of include/linux/skbuff.h. The head of a
-- queue is cast to a buffer, so both have their two links at the same place; the heap is that of
-- Libc/Linked. Saving and restoring the interrupt flag is left out.
mod Tests
pub mod Queue
use prettyos.Common.{ℕ, Bool, true, false, not, ◌==◌, ◌&&◌, ◌||◌, if◌then◌else◌}
use prettyos.Libc.Linked.{Heap, null, set_next, set_prev}

-- There is never memory.
unfoldable pub alloc_skb : ℕ → ℕ → ℕ
alloc_skb size priority = null

unfoldable pub skb_queue_head_init : Heap → ℕ → Heap
skb_queue_head_init h list = set_next (set_prev h list list) list list

-- The buffer, or NULL on an empty queue.
unfoldable pub skb_peek : Heap → ℕ → ℕ
skb_peek h list = if h.next list == list then null else h.next list

unfoldable pub skb_dequeue : Heap → ℕ → ℕ × Heap
skb_dequeue h list =
    let rst = h.next list in
    if rst == list
    then (null, h)
    else (let h1 = set_next h list (h.next rst) in
        let h2 = set_prev h1 (h1.next rst) list in (rst, set_next (set_prev h2 rst null) rst null))

unfoldable pub skb_queue_head : Heap → ℕ → ℕ → Heap
skb_queue_head h list skb =
    let h1 = set_next h skb (h.next list) in
    let h2 = set_prev h1 skb list in
    let h3 = set_prev h2 (h2.next skb) skb in set_next h3 (h3.prev skb) skb

unfoldable pub skb_queue_tail : Heap → ℕ → ℕ → Heap
skb_queue_tail h list skb =
    let h1 = set_next h skb list in
    let h2 = set_prev h1 skb (h1.prev list) in
    let h3 = set_next h2 (h2.prev skb) skb in set_prev h3 (h3.next skb) skb

-- Otherwise a message is printed.
unfoldable pub skb_unlink : Heap → ℕ → Heap
skb_unlink h skb =
    if not (h.prev skb == null) && not (h.next skb == null)
    then (let h1 = set_next h (h.prev skb) (h.next skb) in
        let h2 = set_prev h1 (h1.next skb) (h1.prev skb) in
        set_prev (set_next h2 skb null) skb null)
    else h
