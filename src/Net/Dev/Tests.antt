-- ===== src/Net/Dev/Tests.antt =====
-- Runs of the functions of net/inet/dev.c on small inputs.
use prettyos.Common.{true, false, ◌≡◌, refl, none, some, List, [], ◌∷◌, ◌==◌, if◌then◌else◌, arith}
use prettyos.Common.Int.{pos, negsuc}
use prettyos.Net.Dev.{
  PacketType, dev_add_pack, dev_remove_pack, Packet, Backlog, net_bh, Buffs, dev_queue_xmit,
  NotifierBlock, notifier_chain_register, register_after, notifier_call_chain, call_loop,
  calls_with, takes, is_device, place_of, start_xmit, dev_tint, tint_loop, with_taken, set_queue,
  dev_close, close_loop,
}
use prettyos.Net.Dev.Deliver.{
  all_calls, received, net_bh-netif_rx, IsQueuedIn, dev_queue_xmit-IsQueuedIn,
}

abbrev types : List PacketType
types =
    record { id = 1; type = 0x0800; dev = none; func = 11 }
    ∷ record { id = 2; type = 0x0806; dev = none; func = 12 }
    ∷ record { id = 3; type = 0x0800; dev = some 7; func = 13 }
    ∷ []

abbrev packets : List Packet
packets =
    record { skb = 100; type = 0x0800; dev = 7 } ∷ record { skb = 200; type = 0x0806; dev = 5 } ∷ []

abbrev idle : Backlog
idle = record { queue = []; size = 0; dropping = false }

called : all_calls types packets ≡ (11, 100) ∷ (13, 100) ∷ (12, 200) ∷ []
unfolding calls_with takes is_device
called = refl

net_bh-netif_rx_example : net_bh types (received packets idle) ≡ (all_calls types packets, idle)
net_bh-netif_rx_example = net_bh-netif_rx types packets (omega arith)

abbrev queues : Buffs
queues i = i ∷ 40 ∷ []

dev_queue_xmit-IsQueuedIn_example :
    IsQueuedIn 1 50 queues (dev_queue_xmit false false true 50 (pos 1) queues)
dev_queue_xmit-IsQueuedIn_example = dev_queue_xmit-IsQueuedIn true 50 1 queues (omega arith)

sent_again : (dev_queue_xmit false false false 50 (negsuc 1) queues).taken ≡ 50 ∷ []
unfolding dev_queue_xmit place_of start_xmit
sent_again = refl

removed :
    dev_remove_pack
      (record { id = 2; type = 0; dev = none; func = 0 })
      (dev_add_pack (record { id = 2; type = 1; dev = none; func = 9 }) types)
    ≡ types
unfolding dev_remove_pack dev_add_pack
removed = refl

abbrev blocks : List NotifierBlock
blocks = record { id = 1; priority = 0 } ∷ record { id = 2; priority = 5 } ∷ []

registered :
    notifier_chain_register (record { id = 3; priority = 0 }) blocks
    ≡ some (
        record { id = 1; priority = 0 }
        ∷ record { id = 3; priority = 0 }
        ∷ record { id = 2; priority = 5 }
        ∷ [])
unfolding notifier_chain_register register_after
registered = refl

stopped : notifier_call_chain (λ b. if b.id == 1 then 4 else 0) blocks ≡ (1 ∷ [], 4)
unfolding notifier_call_chain call_loop
stopped = refl

abbrev waiting : Buffs
waiting i = if i == 0 then 10 ∷ 11 ∷ [] else if i == 2 then 12 ∷ [] else []

-- The driver is busy after the second buffer, or never.
first_two :
    (elim (dev_tint 9 (λ call. (false, call == 1)) waiting) [ none ↦ [] | some s ↦ s.taken ])
    ≡ 10 ∷ 11 ∷ []
unfolding dev_tint tint_loop with_taken dev_queue_xmit place_of start_xmit set_queue
first_two = refl

all_three :
    (elim (dev_tint 9 (λ call. (false, false)) waiting) [ none ↦ [] | some s ↦ s.taken ])
    ≡ 10 ∷ 11 ∷ 12 ∷ []
unfolding dev_tint tint_loop with_taken dev_queue_xmit place_of start_xmit set_queue
all_three = refl

-- Closing a device with an empty queue does not end.
spins : dev_close 50 1 (λ skb. true) (λ i. []) ≡ none
unfolding dev_close close_loop
spins = refl
