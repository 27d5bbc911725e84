-- ===== src/Net/Dev.antt =====
-- Between protocols and drivers: net/inet/dev.c, and the chains of include/linux/notifier.h. A queue is the list of
-- its buffers, as Net/Skbuff/Queue shows it of the heap. A driver's answer is an argument. Interrupt flags, the mark
-- `in_bh` against a second `net_bh` at once, `dev_init` and the requests that only fill in a structure are left out.
mod Tests
pub mod Deliver
use prettyos.Common.{
  ℕ, zero, suc, ◌+◌, ◌-◌, ◌%◌, ◌^◌, bit_and, bit_or, Bool, true, false, not, ◌&&◌, ◌||◌, Option,
  none, some, List, [], ◌∷◌, ◌++◌, ◌==◌, ltb, leb, if◌then◌else◌,
}
use prettyos.Common.Int.{ℤ, pos, negsuc}

-- `dev` is none for NULL; `id` is the address.
pub record PacketType : Type 0 where
  pub id : ℕ
  pub type : ℕ
  pub dev : Option ℕ
  pub func : ℕ

unfoldable pub dev_add_pack : PacketType → List PacketType → List PacketType
dev_add_pack pt ptype_base = pt ∷ ptype_base

unfoldable pub dev_remove_pack : PacketType → List PacketType → List PacketType
dev_remove_pack packet_t [] = []
dev_remove_pack packet_t (pt ∷ pts) =
    let rest = dev_remove_pack packet_t pts in if pt.id == packet_t.id then pts else pt ∷ rest

unfoldable pub is_device : Option ℕ → ℕ → Bool
is_device none dev = true
is_device (some d) dev = d == dev

unfoldable pub takes : ℕ → ℕ → PacketType → Bool
takes type dev pt = (pt.type == type) && is_device pt.dev dev

-- The calls for one buffer: the entry before is called at the next one that takes it, or at the end.
unfoldable pub call_of : Option PacketType → List ℕ
call_of none = []
call_of (some pt_prev) = pt_prev.func ∷ []

unfoldable pub deliver_loop : ℕ → ℕ → Option PacketType → List PacketType → List ℕ
deliver_loop type dev pt_prev [] = call_of pt_prev
deliver_loop type dev pt_prev (ptype ∷ ptypes) =
    let matching = takes type dev ptype in
    let rest = deliver_loop type dev (if matching then some ptype else pt_prev) ptypes in
    if matching then call_of pt_prev ++ rest else rest

unfoldable pub deliver : ℕ → ℕ → List PacketType → List ℕ
deliver type dev ptype_base = deliver_loop type dev none ptype_base

-- A buffer with what its device says of it
pub record Packet : Type 0 where
  pub skb : ℕ
  pub type : ℕ
  pub dev : ℕ

pub record Backlog : Type 0 where
  pub queue : List Packet
  pub size : ℕ
  pub dropping : Bool

-- `!backlog_size > 300` compares 0 or 1 with 300.
unfoldable pub netif_rx : Packet → Backlog → Backlog
netif_rx p b =
    let not_size = if b.size == 0 then 1 else 0 in
    let dropping = if b.size == 0 then false else if ltb 300 not_size then true else b.dropping in
    if dropping
    then record b { dropping = dropping }
    else record { queue = b.queue ++ (p ∷ []); size = (b.size + 1) % 2 ^ 32; dropping = dropping }

-- The loop of `net_bh` over the backlog: the function called and the buffer. `dev_transmit` is left out.
unfoldable pub calls_with : ℕ → List ℕ → List (ℕ × ℕ)
calls_with skb [] = []
calls_with skb (func ∷ funcs) = (func, skb) ∷ calls_with skb funcs

unfoldable pub bh_loop : List PacketType → List Packet → List (ℕ × ℕ)
bh_loop ptype_base [] = []
bh_loop ptype_base (p ∷ ps) =
    calls_with p.skb (deliver p.type p.dev ptype_base) ++ bh_loop ptype_base ps

-- The number of buffers is counted down for each.
unfoldable pub less : List Packet → ℕ → ℕ
less [] size = size
less (p ∷ ps) size = less ps ((size + 2 ^ 32 - 1) % 2 ^ 32)

unfoldable pub net_bh : List PacketType → Backlog → List (ℕ × ℕ) × Backlog
net_bh ptype_base b =
    (bh_loop ptype_base b.queue, record b { queue = []; size = less b.queue b.size })

abbrev pub Buffs : Type 0
Buffs = ℕ → List ℕ

abbrev pub dev_numbuffs : ℕ
dev_numbuffs = 3

unfoldable pub set_queue : Buffs → ℕ → List ℕ → Buffs
set_queue buffs i queue j = if j == i then queue else buffs j

-- What the driver was given and took, if it was called with a buffer, and the queues
pub record Sent : Type 0 where
  pub taken : List ℕ
  pub buffs : Buffs

-- `hard_start_xmit` of a buffer, and back to the head of the queue where that fails
unfoldable pub start_xmit : Bool → ℕ → ℕ → Buffs → Sent
start_xmit fails pri skb buffs =
    if fails
    then record { taken = []; buffs = set_queue buffs pri (skb ∷ buffs pri) }
    else record { taken = skb ∷ []; buffs = buffs }

-- `skb_dequeue` after `skb_queue_tail`
unfoldable pub xmit_head : Bool → ℕ → List ℕ → Buffs → Sent
xmit_head fails pri [] buffs = record { taken = []; buffs = buffs }
xmit_head fails pri (head ∷ queue) buffs = start_xmit fails pri head (set_queue buffs pri queue)

-- `where`, and the number of the queue
unfoldable pub place_of : ℤ → Bool × ℕ
place_of (pos pri) = (false, if ltb dev_numbuffs pri then 1 else pri)
place_of (negsuc pri) = (true, if ltb dev_numbuffs pri then 1 else pri)

-- `linked` is `skb->next != NULL`, `unresolved` that the header could not be made, `fails` the answer of the driver.
unfoldable pub dev_queue_xmit : Bool → Bool → Bool → ℕ → ℤ → Buffs → Sent
dev_queue_xmit linked unresolved fails skb pri buffs =
    let (again, queue) = place_of pri in
    let kept : Sent = record { taken = []; buffs = buffs } in
    if linked || unresolved
    then kept
    else if again
    then start_xmit fails queue skb buffs
    else xmit_head fails queue (buffs queue ++ (skb ∷ [])) buffs

pub record NotifierBlock : Type 0 where
  pub id : ℕ
  pub priority : ℕ

unfoldable pub register_after : NotifierBlock → List NotifierBlock → List NotifierBlock
register_after n [] = n ∷ []
register_after n (b ∷ bs) =
    let rest = register_after n bs in if ltb n.priority b.priority then n ∷ b ∷ bs else b ∷ rest

-- `none` where the new block is the first, and the code writes through `prev`, which was never set.
unfoldable pub notifier_chain_register :
    NotifierBlock → List NotifierBlock → Option (List NotifierBlock)
notifier_chain_register n [] = none
notifier_chain_register n (b ∷ bs) =
    if ltb n.priority b.priority then none else some (b ∷ register_after n bs)

unfoldable pub notifier_chain_unregister : NotifierBlock → List NotifierBlock → List NotifierBlock
notifier_chain_unregister n [] = []
notifier_chain_unregister n (b ∷ bs) =
    let rest = notifier_chain_unregister n bs in if b.id == n.id then bs else b ∷ rest

-- The blocks called and the result, for what each block answers
unfoldable pub call_loop : (NotifierBlock → ℕ) → ℕ → List NotifierBlock → List ℕ × ℕ
call_loop answer ret [] = ([], ret)
call_loop answer ret (nb ∷ nbs) =
    let (called, last) = call_loop answer (answer nb) nbs in
    if bit_and (answer nb) 4 == 0 then (nb.id ∷ called, last) else (nb.id ∷ [], answer nb)

unfoldable pub notifier_call_chain : (NotifierBlock → ℕ) → List NotifierBlock → List ℕ × ℕ
notifier_call_chain answer list = call_loop answer 2 list

-- One buffer of `dev_tint`: the driver fails or not, and is busy then or not.
unfoldable pub with_taken : List ℕ → Option Sent → Option Sent
with_taken taken none = none
with_taken taken (some s) = some (record s { taken = taken ++ s.taken })

-- The driver's answers by the number of the call; `none` means that the fuel ran out. The buffers have their headers.
unfoldable pub tint_loop : ℕ → (ℕ → Bool × Bool) → ℕ → ℕ → List ℕ → Buffs → Option Sent
tint_loop zero driver call i queue buffs = none
tint_loop (suc fuel) driver call i [] buffs =
    let rest = tint_loop fuel driver call (i + 1) (buffs (i + 1)) buffs in
    if ltb (i + 1) dev_numbuffs then rest else some (record { taken = []; buffs = buffs })
tint_loop (suc fuel) driver call i (skb ∷ queue) buffs =
    let s = dev_queue_xmit false false (driver call).0 skb (negsuc i) (set_queue buffs i queue) in
    let rest = with_taken s.taken (tint_loop fuel driver (call + 1) i (s.buffs i) s.buffs) in
    if (driver call).1 then some s else rest

unfoldable pub dev_tint : ℕ → (ℕ → Bool × Bool) → Buffs → Option Sent
dev_tint fuel driver buffs = tint_loop fuel driver 0 0 (buffs 0) buffs

-- The two loops at the end of `dev_close`. `ct++` has become the body of the test of `free`.
unfoldable pub close_loop : ℕ → (ℕ → Bool) → ℕ → List ℕ → Buffs → Option Buffs
close_loop zero free ct queue buffs = none
close_loop (suc fuel) free ct [] buffs =
    let again = close_loop fuel free ct (buffs ct) buffs in
    if ltb ct dev_numbuffs then again else some buffs
close_loop (suc fuel) free ct (skb ∷ queue) buffs =
    let next = if free skb then ct + 1 else ct in
    let rest = set_queue buffs ct queue in close_loop fuel free next (rest next) rest

-- The queues after `dev_close`; the calls of the driver, the notifiers and the table of addresses come before.
unfoldable pub dev_close : ℕ → ℕ → (ℕ → Bool) → Buffs → Option Buffs
dev_close fuel flags free buffs =
    if flags == 0 then some buffs else close_loop fuel free 0 (buffs 0) buffs
