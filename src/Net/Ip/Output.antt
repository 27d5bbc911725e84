-- ===== src/Net/Ip/Output.antt =====
-- Sending of datagrams: `ip_build_header`, `ip_forward` and `ip_queue_xmit` of net/inet/ip.c. A buffer is a number.
-- What `dev_queue_xmit` does with it is left to Net/Dev.
use prettyos.Common.{
  ℕ, ◌+◌, ◌-◌, ◌%◌, ◌^◌, bit_and, Bool, true, false, not, ◌&&◌, ◌||◌, Option, none, some, List,
  ◌==◌, ltb, if◌then◌else◌,
}
use prettyos.Common.Int.{ℤ, pos, negsuc}
use prettyos.Net.Route.{Device, Rtable, Routed, at_null, no_route, route, ip_rt_route, ip_rt_local}

-- `LOOPBACK`
unfoldable pub is_loopback : ℕ → Bool
is_loopback x = bit_and x 0xff000000 == 0x7f000000

-- The result of `ip_build_eth_header` for what `hard_header` returned, or none where there is no such function, and whether
-- the address is still to be found. `~mac` is one less than the length that was meant.
unfoldable pub mac_of : Option ℤ → ℕ × Bool
mac_of none = (0, false)
mac_of (some (pos mac)) = (mac, false)
mac_of (some (negsuc mac)) = (mac, true)

pub record Built : Type 0 where
  pub dev : ℕ
  pub saddr : ℕ
  pub raddr : ℕ
  pub unresolved : Bool
  pub with_header : Bool
  pub size : ℕ

-- `-ENETUNREACH`, a read at NULL, or the fields of the buffer and the size of the headers
pub data Build : Type 0 where
  unreachable : Build
  read_null : Build
  built : Built → Build

pub record Wanted : Type 0 where
  pub saddr : ℕ
  pub daddr : ℕ
  pub dev : Option ℕ
  pub is_raw : Bool
  pub local : Bool

unfoldable pub source_of : Wanted → ℕ → ℕ
source_of w src =
    let saddr = if is_loopback w.saddr && not (is_loopback w.daddr) then src else w.saddr in
    if saddr == 0 then src else saddr

-- From `if(saddr == 0)` on; `raddr` is the gateway, or 0.
unfoldable pub build_with : Wanted → (ℕ → Option ℤ) → ℕ → ℕ → ℕ → Built
build_with w hard_header dev src gateway =
    let (mac, to_find) = mac_of (hard_header dev) in
    record {
      dev = dev;
      saddr = source_of w src;
      raddr = if gateway == 0 then w.daddr else gateway;
      unresolved = to_find;
      with_header = not w.is_raw;
      size = if w.is_raw then mac else 20 + mac;
    }

unfoldable pub build_on : Wanted → (ℕ → Option ℤ) → Option ℕ → Routed → Build
build_on w hard_header dev at_null = read_null
build_on w hard_header none (no_route src) = unreachable
build_on w hard_header (some dev) (no_route src) = built (build_with w hard_header dev src 0)
build_on w hard_header none (route r src) =
    built (build_with w hard_header r.rt_dev src r.rt_gateway)
build_on w hard_header (some dev) (route r src) =
    built (build_with w hard_header dev src r.rt_gateway)

unfoldable pub ip_build_header :
    (ℕ → Device) → (ℕ → Option ℤ) → Wanted → List Rtable → Build × List Rtable
ip_build_header devices hard_header w table =
    let (routed, after) =
      if w.local then ip_rt_local devices w.daddr table else ip_rt_route devices w.daddr table in
    (build_on w hard_header w.dev routed, after)

-- What becomes of a datagram to forward: the device, the next address, and the priority or pieces
pub data Forward : Type 0 where
  expired : Forward
  not_routed : Forward
  null_route : Forward
  down : Forward
  no_memory : Forward
  in_pieces : ℕ → ℕ → Forward
  sent : ℕ → ℕ → ℕ → Forward

-- `iph->ttl--`, a byte
unfoldable pub less_ttl : ℕ → ℕ
less_ttl ttl = (ttl + 2 ^ 8 - 1) % 2 ^ 8

unfoldable pub priority_of : ℕ → ℕ
priority_of tos =
    if not (bit_and tos 0x10 == 0) then 0 else if not (bit_and tos 0x08 == 0) then 2 else 1

pub record Link : Type 0 where
  pub mtu : ℕ
  pub flags : ℕ

-- The end of `ip_forward`: `dev2->flags * IFF_UP`. `skb2` is never set, as the call of `alloc_skb` is compiled out: `is_null`
-- says whether NULL happens to stand there. Otherwise the datagram is written where it happens to point.
unfoldable pub forward_on : (ℕ → Link) → Bool → ℕ → ℕ → ℕ → ℕ → Forward
forward_on links is_null len tos dev raddr =
    if (links dev).flags == 0
    then down
    else if is_null
    then no_memory
    else if ltb (links dev).mtu len
    then in_pieces dev raddr
    else sent dev raddr (priority_of tos)

unfoldable pub by_gateway : (ℕ → Link) → Bool → ℕ → ℕ → ℕ → Routed → Forward
by_gateway links is_null len tos raddr at_null = null_route
by_gateway links is_null len tos raddr (no_route src) = not_routed
by_gateway links is_null len tos raddr (route r src) =
    forward_on links is_null len tos r.rt_dev (if r.rt_gateway == 0 then raddr else r.rt_gateway)

unfoldable pub forward_to :
    (ℕ → Device) → (ℕ → Link) → Bool → ℕ → ℕ → ℕ → Routed × List Rtable → Forward × List Rtable
forward_to devices links is_null len tos daddr (at_null, table) = (null_route, table)
forward_to devices links is_null len tos daddr (no_route src, table) = (not_routed, table)
forward_to devices links is_null len tos daddr (route r src, table) =
    let (second, after) = ip_rt_route devices r.rt_gateway table in
    if r.rt_gateway == 0
    then (forward_on links is_null len tos r.rt_dev daddr, table)
    else (by_gateway links is_null len tos r.rt_gateway second, after)

unfoldable pub ip_forward :
    (ℕ → Device) → (ℕ → Link) → Bool → ℕ → ℕ → ℕ → ℕ → List Rtable → Forward × List Rtable
ip_forward devices links is_null len tos ttl daddr table =
    if less_ttl ttl == 0
    then (expired, table)
    else forward_to devices links is_null len tos daddr (ip_rt_route devices daddr table)

-- The buffers of a socket that wait for an answer: `send_head` and `send_tail`, 0 for NULL, and the links `cache_next`
pub record Unanswered : Type 0 where
  pub send_head : ℕ
  pub send_tail : ℕ
  pub packets_out : ℕ
  pub cache_next : ℕ → ℕ

unfoldable pub link_from : (ℕ → ℕ) → ℕ → ℕ → ℕ → ℕ
link_from next a b i = if i == a then b else next i

-- The link goes to the head, and not to the tail.
unfoldable pub remember : ℕ → Unanswered → Unanswered
remember skb u =
    let cleared = link_from u.cache_next skb 0 in
    let first : Unanswered = record {
      send_head = skb;
      send_tail = skb;
      packets_out = (u.packets_out + 1) % 2 ^ 32;
      cache_next = cleared;
    } in
    let later : Unanswered = record {
      send_head = u.send_head;
      send_tail = skb;
      packets_out = (u.packets_out + 1) % 2 ^ 32;
      cache_next = link_from cleared u.send_head skb;
    } in
    if u.send_head == 0 then first else later

-- Not sent, sent in pieces, kept off a device that is down, or given to `dev_queue_xmit`
pub data Xmit : Type 0 where
  no_device : Xmit
  pieces : Xmit
  device_down : Xmit
  queued_out : Xmit

-- `free` after the two tests: whether the buffer may be freed
unfoldable pub is_free : ℕ → Bool → Bool
is_free free has_sock = (free == 2) || not has_sock || not (free == 0)

unfoldable pub ip_queue_xmit :
    Option Link → ℕ → Bool → ℕ → ℕ → ℕ → ℕ → Unanswered → Xmit × ℕ × Unanswered
ip_queue_xmit none hard has_sock skb len free ip_id_count u = (no_device, ip_id_count, u)
ip_queue_xmit (some link) hard has_sock skb len free ip_id_count u =
    let count = if free == 2 then ip_id_count else (ip_id_count + 1) % 2 ^ 32 in
    let kept = if is_free free has_sock then u else remember skb u in
    let is_up = not (bit_and link.flags 0x1 == 0) in
    if ltb (link.mtu + hard) len
    then (pieces, count, u)
    else ((if is_up then queued_out else device_down), count, kept)
