-- ===== src/Net/Ip.antt =====
-- Fragments of datagrams: net/inet/ip.c, its ip.h and include/linux/ip.h. Numbers are in host order, as
-- `htons` and `ntohs` change nothing; a buffer is a place in the memory of Libc/Strings. Timers are left out.
mod Tests
pub mod Split
pub mod Order
pub mod Complete
pub mod Glue
pub mod Input
pub mod Output
mod Sends
use prettyos.Common.{
  ℕ, zero, suc, ◌+◌, ◌-◌, ◌*◌, ◌/◌, ◌%◌, ◌^◌, bit_and, Bool, true, false, not, ◌&&◌, Option, none,
  some, List, [], ◌∷◌, ◌==◌, ltb, leb, if◌then◌else◌,
}
use prettyos.Libc.Strings.{Mem, null, store}
use prettyos.Libc.Klibc.{store_word, u_phys_copy}

abbrev pub ip_offset : ℕ
ip_offset = 0x1fff

abbrev pub ip_flags : ℕ
ip_flags = 0xe000

abbrev pub ip_df : ℕ
ip_df = 0x0010

abbrev pub ip_mf : ℕ
ip_mf = 0x0020

-- The fields of a header that the code here reads
pub record Iphdr : Type 0 where
  pub ihl : ℕ
  pub tot_len : ℕ
  pub id : ℕ
  pub flags_off : ℕ
  pub protocol : ℕ
  pub saddr : ℕ
  pub daddr : ℕ

-- Its `len` is `end - offset` in `ip_frag_create`, and every later change keeps that.
pub record Ipfrag : Type 0 where
  pub offset : ℕ
  pub end : ℕ
  pub ptr : ℕ

-- `mac` and `iph` are addresses; `header` is what stands at `iph`.
pub record Ipfq : Type 0 where
  pub mac : ℕ
  pub iph : ℕ
  pub header : Iphdr
  pub len : ℕ
  pub ihlen : ℕ
  pub maclen : ℕ
  pub fragments : List Ipfrag

unfoldable pub is_part_of : Iphdr → Ipfq → Bool
is_part_of iph fq =
    (iph.id == fq.header.id)
    && (iph.saddr == fq.header.saddr)
    && (iph.daddr == fq.header.daddr)
    && (iph.protocol == fq.header.protocol)

unfoldable pub ip_frq_find : Iphdr → List Ipfq → Option Ipfq
ip_frq_find iph [] = none
ip_frq_find iph (fq ∷ queues) =
    let rest = ip_frq_find iph queues in if is_part_of iph fq then some fq else rest

-- After `memset`. The calls of `kmalloc` for both addresses are compiled out.
unfoldable pub cleared : Iphdr → Ipfq
cleared iph = record {
  mac = null;
  iph = null;
  header = iph;
  len = 0;
  ihlen = 0;
  maclen = 0;
  fragments = [];
}

-- The header is copied to `iph`, `maclen` bytes to `mac`.
unfoldable pub filled : Iphdr → ℕ → Ipfq → Option Ipfq
filled iph maclen ifq =
    if ifq.mac == null
    then none
    else if ifq.iph == null
    then none
    else some
        (record ifq { header = iph; len = 0; ihlen = iph.ihl * 4; maclen = maclen; fragments = [] })

-- `ifq` is never set: `is_null` says whether NULL happens to stand there. The new queue is the first.
unfoldable pub ip_frq_create : Bool → Iphdr → ℕ → Option Ipfq
ip_frq_create is_null iph maclen = if is_null then none else filled iph maclen (cleared iph)

unfoldable pub done_loop : ℕ → List Ipfrag → Bool
done_loop offset [] = true
done_loop offset (frag ∷ frags) =
    let rest = done_loop frag.end frags in if ltb offset frag.offset then false else rest

unfoldable pub ip_frq_done : Ipfq → Bool
ip_frq_done ifq = if ifq.len == 0 then false else done_loop 0 ifq.fragments

-- Where the second walk of `ip_defrag` stops. It leaves an entry that it cut and did not unlink behind
-- it, and the new fragment is linked to the entry where it stopped.
unfoldable pub stopped_at : ℕ → List Ipfrag → List Ipfrag
stopped_at end [] = []
stopped_at end (next ∷ rest) =
    let after = stopped_at end rest in if leb end next.offset then next ∷ rest else after

-- The same walk, with what it makes of the entries: the list that is left where there is no memory for
-- the new fragment. The list is taken to be in order: then an entry that was cut is the last one cut.
unfoldable pub trimmed : ℕ → List Ipfrag → List Ipfrag
trimmed end [] = []
trimmed end (next ∷ rest) =
    let after = trimmed end rest in
    if leb end next.offset
    then next ∷ rest
    else (let cut : Ipfrag = record next { offset = end; ptr = next.ptr + (end - next.offset) } in
        if leb next.end end then after else cut ∷ after)

-- The part of the new fragment behind the one before it
unfoldable pub new_part : Option Ipfrag → Ipfrag → Ipfrag
new_part none new = new
new_part (some prev) new =
    if ltb new.offset prev.end
    then record new { offset = prev.end; ptr = new.ptr + (prev.end - new.offset) }
    else new

-- From the first walk to the links of the new fragment; `prev` is the entry before.
unfoldable pub put_after : Option Ipfrag → Ipfrag → List Ipfrag → List Ipfrag
put_after prev new [] = new_part prev new ∷ []
put_after prev new (next ∷ rest) =
    let after = put_after (some next) new rest in
    if ltb new.offset next.offset
    then new_part prev new ∷ stopped_at new.end (next ∷ rest)
    else next ∷ after

unfoldable pub trim_after : Ipfrag → List Ipfrag → List Ipfrag
trim_after new [] = []
trim_after new (next ∷ rest) =
    let after = trim_after new rest in
    if ltb new.offset next.offset then trimmed new.end (next ∷ rest) else next ∷ after

-- A write past the buffer, a copy of a negative size, or the count of bytes and the memory.
pub data Glued : Type 0 where
  oversize : Glued
  negative : Glued
  glued : ℕ → Mem → Glued

-- `count + ifg->len` is compared as an unsigned number.
unfoldable pub glue_loop : ℕ → ℕ → Mem → ℕ → List Ipfrag → Glued
glue_loop limit count m ptr [] = glued count m
glue_loop limit count m ptr (ifg ∷ ifgs) =
    let len = ifg.end - ifg.offset in
    let rest =
      glue_loop limit (count + len) (u_phys_copy m (ptr + ifg.offset) ifg.ptr len).1 ptr ifgs in
    if ltb ifg.end ifg.offset
    then (if ltb (count + ifg.end) ifg.offset then oversize else negative)
    else if ltb limit (count + len)
    then oversize
    else rest

unfoldable pub with_length : ℕ → ℕ → Glued → Glued
with_length iph ihl (glued count m) =
    glued count (store_word (store_word m (iph + 6) 0) (iph + 2) ((ihl * 4 + count) % 2 ^ 16))
with_length iph ihl oversize = oversize
with_length iph ihl negative = negative

-- The new buffer gets the two headers and the fragments. `skb` is never set, and is taken as a new
-- buffer; it is not returned. The loop of `ip_frq_free` is left out: `ifg_next` is never set either.
unfoldable pub ip_frq_glue : Mem → ℕ → Ipfq → Glued
ip_frq_glue m buffer ifq =
    let m1 = (u_phys_copy m buffer ifq.mac ifq.maclen).1 in
    let m2 = (u_phys_copy m1 (buffer + ifq.maclen) ifq.iph ifq.ihlen).1 in
    with_length (buffer + ifq.maclen) ifq.header.ihl
      (glue_loop (ifq.ihlen + ifq.len) 0 m2 (buffer + ifq.maclen + ifq.ihlen) ifq.fragments)

-- What stands in the variables that are never set: NULL, or not
pub record Unset : Type 0 where
  pub no_queue : Bool
  pub no_fragment : Bool

pub data Received : Type 0 where
  kept : Ipfq → Received
  finished : Glued → Received

-- The last part of `ip_defrag`, from the length on. `more` says that this is not the last fragment.
unfoldable pub receive : Bool → Mem → ℕ → Bool → Ipfrag → Ipfq → Received
receive no_fragment m buffer more new ifq =
    let known : Ipfq = record ifq { len = if more then ifq.len else new.end } in
    let queued : Ipfq = record known { fragments = put_after none new ifq.fragments } in
    if no_fragment
    then kept (record known { fragments = trim_after new ifq.fragments })
    else if ip_frq_done queued
    then finished (ip_frq_glue m buffer queued)
    else kept queued

unfoldable pub replaced : Received → List Ipfq → List Ipfq
replaced (kept ifq) queues = ifq ∷ queues
replaced (finished result) queues = queues

-- `ip_frq_free` takes a finished queue out of the list.
unfoldable pub receive_in : (Ipfq → Received) → Iphdr → List Ipfq → List Ipfq
receive_in f iph [] = []
receive_in f iph (fq ∷ queues) =
    let rest = receive_in f iph queues in
    if is_part_of iph fq then replaced (f fq) queues else fq ∷ rest

-- The buffer given back, no buffer, `ip_frq_free` called with NULL, or an `end` below 0, which is not followed
pub data Defragged : Type 0 where
  whole : Defragged
  no_buffer : Defragged
  at_null : Defragged
  below_zero : Defragged

unfoldable pub no_fragment_of : Option Ipfq → Defragged
no_fragment_of none = at_null
no_fragment_of (some ifq) = whole

-- The queue of the fragment is the one found or, if there is memory, a new one.
unfoldable pub with_queue :
    Bool → (Ipfq → Received) → Iphdr → Option Ipfq → Option Ipfq → List Ipfq → Defragged × List Ipfq
with_queue backwards f iph (some found) created queues =
    if backwards then (below_zero, queues) else (no_buffer, receive_in f iph queues)
with_queue backwards f iph none (some ifq) queues =
    if backwards then (below_zero, ifq ∷ queues) else (no_buffer, receive_in f iph (ifq ∷ queues))
with_queue backwards f iph none none queues = (no_buffer, queues)

-- `payload` is `skb->data + dev->hard_header_len`, `buffer` the new buffer of `ip_frq_glue`.
unfoldable pub ip_defrag : Unset → Mem → ℕ → ℕ → ℕ → Iphdr → List Ipfq → Defragged × List Ipfq
ip_defrag unset m buffer payload maclen iph queues =
    let more = not (bit_and (bit_and iph.flags_off ip_flags) ip_mf == 0) in
    let offset = bit_and iph.flags_off ip_offset in
    let found = ip_frq_find iph queues in
    if not more && offset == 0
    then (no_fragment_of found, queues)
    else (let new : Ipfrag = record {
      offset = offset * 8;
      end = offset * 8 + iph.tot_len - iph.ihl * 4;
      ptr = payload + iph.ihl * 4;
    } in
        with_queue (ltb (offset * 8 + iph.tot_len) (iph.ihl * 4))
          (receive unset.no_fragment m buffer more new) iph found
          (ip_frq_create unset.no_queue iph maclen) queues)
