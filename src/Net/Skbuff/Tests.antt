-- ===== src/Net/Skbuff/Tests.antt =====
-- A queue of one and two buffers, and the theorems at concrete inputs.
use prettyos.Common.{refl, [], ◌∷◌, arith}
use prettyos.Libc.Linked.{Heap, write}
use prettyos.Libc.Linked.Chain.{PathTo, IsLinked}
use prettyos.Net.Skbuff.{skb_queue_head_init, skb_queue_tail}
use prettyos.Net.Skbuff.Queue.{skb_queue_tail-IsLinked}

abbrev no_buffers : Heap
no_buffers = skb_queue_head_init (record { next = λ a. 0; prev = λ a. 0 }) 16

no_buffers-IsLinked : IsLinked no_buffers 16 []
unfolding PathTo skb_queue_head_init write
no_buffers-IsLinked = record {
  links = (refl, refl);
  apart = (tt, tt);
  nonnull = ((λ e. omega arith), tt);
}

abbrev one_buffer : Heap
one_buffer = skb_queue_tail no_buffers 16 32

one_buffer-IsLinked : IsLinked one_buffer 16 (32 ∷ [])
one_buffer-IsLinked =
    skb_queue_tail-IsLinked no_buffers 16 32 [] no_buffers-IsLinked (λ e. omega arith)
      ((λ e. omega arith), tt)
