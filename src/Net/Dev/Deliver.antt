-- ===== src/Net/Dev/Deliver.antt =====
-- Which functions `net_bh` of net/inet/dev.c calls for the buffers that `netif_rx` queued, and the order
-- that `dev_queue_xmit` keeps.
use prettyos.Common.{
  ℕ, suc, ◌+◌, ◌-◌, ◌%◌, ◌^◌, ◌≤◌, ◌<◌, ◌≡◌, ◌≢◌, refl, sym, ap, ap₂, ◌∙◌, Bool, true, false,
  Option, none, some, List, [], ◌∷◌, ◌++◌, append-nil, append_assoc, length, length-append, ◌==◌,
  ltb, if◌then◌else◌, arith, Bool-cases, inl, inr, ==_iff,
}
use prettyos.Common.Int.{pos}
use prettyos.Net.Dev.{
  PacketType, takes, call_of, deliver_loop, deliver, Packet, Backlog, netif_rx, calls_with, bh_loop,
  less, net_bh, Buffs, set_queue, Sent, start_xmit, xmit_head, place_of, dev_queue_xmit,
}

-- The functions of the entries that take a buffer, in the order of the list
abbrev pub takers : ℕ → ℕ → List PacketType → List ℕ
takers type dev [] = []
takers type dev (pt ∷ pts) =
    let rest = takers type dev pts in if takes type dev pt then pt.func ∷ rest else rest

call_some : (pt : PacketType) (rest : List ℕ) → call_of (some pt) ++ rest ≡ pt.func ∷ rest
unfolding call_of
call_some pt rest = refl

call_none : (rest : List ℕ) → call_of none ++ rest ≡ rest
unfolding call_of
call_none rest = refl

deliver_loop-takers :
    (type dev : ℕ) (pt_prev : Option PacketType) (pts : List PacketType)
    → deliver_loop type dev pt_prev pts ≡ call_of pt_prev ++ takers type dev pts
unfolding deliver_loop
deliver_loop-takers type dev pt_prev [] = sym (append-nil (call_of pt_prev))
deliver_loop-takers type dev pt_prev (pt ∷ pts) = elim (Bool-cases (takes type dev pt)) [
  | inl c ↦ rw c (
      ap (λ l. call_of pt_prev ++ l)
        (deliver_loop-takers type dev (some pt) pts ∙ call_some pt (takers type dev pts)))
  | inr c ↦ rw c (deliver_loop-takers type dev pt_prev pts)
]

-- For each buffer in its order, each function that takes it.
abbrev pub all_calls : List PacketType → List Packet → List (ℕ × ℕ)
all_calls pts [] = []
all_calls pts (p ∷ ps) = calls_with p.skb (takers p.type p.dev pts) ++ all_calls pts ps

bh_loop-all_calls : (pts : List PacketType) (ps : List Packet) → bh_loop pts ps ≡ all_calls pts ps
unfolding bh_loop deliver
bh_loop-all_calls pts [] = refl
bh_loop-all_calls pts (p ∷ ps) =
    ap₂ (λ a b. a ++ b)
      (ap (calls_with p.skb)
        (deliver_loop-takers p.type p.dev none pts ∙ call_none (takers p.type p.dev pts)))
      (bh_loop-all_calls pts ps)

-- The backlog after some buffers came in
abbrev pub received : List Packet → Backlog → Backlog
received [] b = b
received (p ∷ ps) b = received ps (netif_rx p b)

backlog_eq :
    (q r : List Packet) (m n : ℕ) (c d : Bool)
    → q ≡ r
    → m ≡ n
    → c ≡ d
    → ◌≡◌ {A = Backlog}
        (record { queue = q; size = m; dropping = c })
        (record { queue = r; size = n; dropping = d })
backlog_eq q r m n c d e f g i = record { queue = e i; size = f i; dropping = g i }

netif_rx_accepts :
    (p : Packet) (b : Backlog)
    → b.dropping ≡ false
    → netif_rx p b
      ≡ record { queue = b.queue ++ (p ∷ []); size = (b.size + 1) % 2 ^ 32; dropping = false }
unfolding netif_rx
netif_rx_accepts p b d = elim (Bool-cases (b.size == 0)) [
  | inl c ↦ rw c refl
  | inr c ↦ rw (c, d) refl
]

received_all :
    (ps : List Packet) (b : Backlog)
    → b.dropping ≡ false
    → b.size + length ps < 2 ^ 32
    → received ps b ≡ record { queue = b.queue ++ ps; size = b.size + length ps; dropping = false }
received_all [] b d h =
    let same : b.size ≡ b.size + 0 = omega arith in
    backlog_eq b.queue (b.queue ++ []) b.size (b.size + 0) b.dropping false
      (sym (append-nil b.queue)) same d
received_all (p ∷ ps) b d h =
    let next : Backlog = record {
      queue = b.queue ++ (p ∷ []);
      size = (b.size + 1) % 2 ^ 32;
      dropping = false;
    } in
    let wide : (b.size + 1) % 2 ^ 32 ≡ b.size + 1 = omega arith in
    ap (received ps) (netif_rx_accepts p b d)
    ∙ received_all ps next refl (omega (arith, wide))
    ∙ backlog_eq ((b.queue ++ (p ∷ [])) ++ ps) (b.queue ++ (p ∷ ps))
        ((b.size + 1) % 2 ^ 32 + length ps) (b.size + suc (length ps)) false false
        (append_assoc b.queue (p ∷ []) ps) (omega (arith, wide)) refl

less_all :
    (ps : List Packet) (size : ℕ)
    → size < 2 ^ 32
    → length ps ≤ size
    → less ps size ≡ size - length ps
unfolding less
less_all [] size h k = omega arith
less_all (p ∷ ps) size h k =
    let one : (size + 2 ^ 32 - 1) % 2 ^ 32 ≡ size - 1 = omega arith in
    ap (less ps) one ∙ less_all ps (size - 1) (omega arith) (omega arith) ∙ omega arith

-- Buffers that come in while the backlog is empty, fewer than 2 ^ 32 of them, and then `net_bh`: it calls for each
-- buffer, in the order of their coming, the functions of all entries of the list that take its type and device, in the
-- order of the list, and no other. The backlog is empty again and its counter 0. None is dropped.
pub net_bh-netif_rx :
    (pts : List PacketType) (ps : List Packet)
    → length ps < 2 ^ 32
    → net_bh pts (received ps (record { queue = []; size = 0; dropping = false }))
      ≡ (all_calls pts ps, record { queue = []; size = 0; dropping = false })
unfolding net_bh
net_bh-netif_rx pts ps h =
    let empty : Backlog = record { queue = []; size = 0; dropping = false } in
    let full : Backlog = record { queue = ps; size = length ps; dropping = false } in
    let counted : less ps (0 + length ps) ≡ 0 =
      less_all ps (0 + length ps) (omega arith) (omega arith) ∙ omega arith in
    ap (net_bh pts) (received_all ps empty refl (omega arith))
    ∙ ap₂
        (λ (calls : List (ℕ × ℕ)) (size : ℕ).
          (calls, (record { queue = []; size = size; dropping = false })))
        (bh_loop-all_calls pts ps) counted

-- What the driver took, and then the queue, are the old queue and then the new buffer; the other queues are
-- as they were.
abbrev pub IsQueuedIn : ℕ → ℕ → Buffs → Sent → Type 0
IsQueuedIn pri skb old s =
    (s.taken ++ s.buffs pri ≡ old pri ++ (skb ∷ [])) × ((j : ℕ) → j ≢ pri → s.buffs j ≡ old j)

xmit_head-IsQueuedIn :
    (fails : Bool) (pri skb : ℕ) (queue : List ℕ) (old : Buffs)
    → queue ≡ old pri ++ (skb ∷ [])
    → length queue ≢ 0
    → IsQueuedIn pri skb old (xmit_head fails pri queue old)
unfolding xmit_head start_xmit set_queue
xmit_head-IsQueuedIn fails pri skb [] old e h = absurd (h refl)
xmit_head-IsQueuedIn fails pri skb (head ∷ queue) old e h =
    let here : (pri == pri) ≡ true = (==_iff pri pri).1 refl in
    elim (Bool-cases fails) [
      | inl c ↦
          rw c (rw here e, (λ j n. let there : (j == pri) ≡ false = ground arith in rw there refl))
      | inr c ↦
          rw c (rw here e, (λ j n. let there : (j == pri) ≡ false = ground arith in rw there refl))
    ]

-- A buffer that is in no queue, with its header made, for one of the three queues: what the driver
-- took and what is left in that queue are, in order, what was in it and the buffer, whether the
-- driver took one or not, and no other queue changes.
pub dev_queue_xmit-IsQueuedIn :
    (fails : Bool) (skb pri : ℕ) (buffs : Buffs)
    → pri < 3
    → IsQueuedIn pri skb buffs (dev_queue_xmit false false fails skb (pos pri) buffs)
unfolding dev_queue_xmit place_of
dev_queue_xmit-IsQueuedIn fails skb pri buffs h =
    let in_range : ltb 3 pri ≡ false = ground arith in
    let queue = buffs pri ++ (skb ∷ []) in
    let some_buffer : length queue ≢ 0 =
      λ z. absurd (omega (arith, length-append (buffs pri) (skb ∷ []))) in
    rw in_range (xmit_head-IsQueuedIn fails pri skb queue buffs refl some_buffer)
