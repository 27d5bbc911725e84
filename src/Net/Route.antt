-- ===== src/Net/Route.antt =====
-- The routing table: net/inet/route.c and net/inet/route.h. The table is the list that begins at
-- `rt_base`; a device is a number that gives its address and mask. `rt_loopback` is NULL and never set.
-- Addresses are in host order, as `htonl` and `ntohl` of include/asm-i386/byteorder.h change nothing.
mod Tests
pub mod Table
pub mod Lookup
use prettyos.Common.{
  ℕ, zero, suc, ◌+◌, ◌-◌, ◌%◌, ◌^◌, ◌≤◌, bit_and, bit_or, bit_xor, Bool, true, false, not, ◌&&◌,
  ◌||◌, Option, none, some, List, [], ◌∷◌, ◌==◌, if◌then◌else◌,
}

pub record Device : Type 0 where
  pub pa_addr : ℕ
  pub pa_mask : ℕ

pub record Rtable : Type 0 where
  pub rt_dst : ℕ
  pub rt_mask : ℕ
  pub rt_gateway : ℕ
  pub rt_flags : ℕ
  pub rt_use : ℕ
  pub rt_mss : ℕ
  pub rt_window : ℕ
  pub rt_dev : ℕ

abbrev pub rtf_up : ℕ
rtf_up = 1

abbrev pub rtf_gateway : ℕ
rtf_gateway = 2

abbrev pub rtf_host : ℕ
rtf_host = 4

abbrev pub rtf_mss : ℕ
rtf_mss = 64

abbrev pub rtf_window : ℕ
rtf_window = 128

unfoldable pub has_flag : ℕ → ℕ → Bool
has_flag flags f = not (bit_and flags f == 0)

-- The walks of `rt_del` and `ip_rt_flush`: the entries that do not pass the test stay.
unfoldable pub drop_if : (Rtable → Bool) → List Rtable → List Rtable
drop_if test [] = []
drop_if test (r ∷ rs) = let rest = drop_if test rs in if test r then rest else r ∷ rest

-- `named` says whether the name of a device is `devname`; there is none where `devname` is NULL.
unfoldable pub rt_del : Option (ℕ → Bool) → ℕ → List Rtable → List Rtable
rt_del none dst table = drop_if (λ (r : Rtable). r.rt_dst == dst) table
rt_del (some named) dst table = drop_if (λ (r : Rtable). (r.rt_dst == dst) && named r.rt_dev) table

unfoldable pub ip_rt_flush : ℕ → List Rtable → List Rtable
ip_rt_flush dev table = drop_if (λ (r : Rtable). r.rt_dev == dev) table

unfoldable pub default_netmask : ℕ → ℕ
default_netmask dst =
    if bit_and dst 0x80000000 == 0
    then 0x7f000000
    else if bit_and dst 0x40000000 == 0
    then 0xbf000000
    else if bit_and dst 0x20000000 == 0
    then 0xdf000000
    else 0

unfoldable pub guess_mask : ℕ → Device → ℕ
guess_mask dst dev =
    if dst == 0
    then 0
    else if bit_and (bit_xor dst dev.pa_addr) (default_netmask dst) == 0
    then dev.pa_mask
    else default_netmask dst

-- An exclusive or is 0 exactly where the operands agree.
unfoldable pub covers : ℕ → Rtable → Bool
covers addr r = bit_and addr r.rt_mask == r.rt_dst

unfoldable pub get_gw_dev : ℕ → List Rtable → Option ℕ
get_gw_dev gw [] = none
get_gw_dev gw (r ∷ rs) =
    let rest = get_gw_dev gw rs in
    if covers gw r then (if has_flag r.rt_flags rtf_gateway then none else some r.rt_dev) else rest

-- `flags &= ~RTF_GATEWAY`, for a `short`
unfoldable pub no_gateway : ℕ → ℕ
no_gateway flags = bit_and flags 0xfffd

-- flags, dst and mask after the first part of `ip_rt_add`
unfoldable pub host_or_net : Device → ℕ → ℕ → ℕ → ℕ × ℕ × ℕ
host_or_net dev flags dst mask =
    if has_flag flags rtf_host
    then (flags, dst, 0xffffffff)
    else if mask == 0
    then (if bit_and (bit_xor dst dev.pa_addr) dev.pa_mask == 0
        then (no_gateway flags, bit_and dst dev.pa_mask, dev.pa_mask)
        else (flags, bit_and dst (guess_mask dst dev), guess_mask dst dev))
    else (flags, dst, mask)

unfoldable pub same_net : ℕ → ℕ → Rtable → Bool
same_net dst mask r = (r.rt_dst == dst) && (r.rt_mask == mask)

-- `(r->rt_mask & mask) == mask`
unfoldable pub includes : ℕ → Rtable → Bool
includes mask r = bit_and r.rt_mask mask == mask

-- The last walk of `ip_rt_add`, once `prev` is set: the new entry goes before the first one whose mask does not include the
-- new one's.
unfoldable pub insert_after : Rtable → List Rtable → List Rtable
insert_after new [] = new ∷ []
insert_after new (r ∷ rs) =
    let rest = insert_after new rs in if includes new.rt_mask r then r ∷ rest else new ∷ r ∷ rs

-- `none` where the code writes through `prev`, which was never set.
unfoldable pub insert_route : Rtable → List Rtable → Option (List Rtable)
insert_route new [] = none
insert_route new (r ∷ rs) = if includes new.rt_mask r then some (r ∷ insert_after new rs) else none

pub record Request : Type 0 where
  pub flags : ℕ
  pub dst : ℕ
  pub mask : ℕ
  pub gw : ℕ
  pub dev : ℕ
  pub mtu : ℕ
  pub window : ℕ

-- The fields of the new entry, for the flags, dst, mask and gateway that the code has worked out
unfoldable pub entry_of : Request → ℕ → ℕ → ℕ → ℕ → Rtable
entry_of q flags dst mask gw =
    let f = bit_or flags rtf_up % 2 ^ 8 in
    record {
      rt_dst = dst;
      rt_mask = mask;
      rt_gateway = gw;
      rt_flags = f;
      rt_use = 0;
      rt_mss = if has_flag f rtf_mss then q.mtu else 0;
      rt_window = if has_flag f rtf_window then q.window else 0;
      rt_dev = q.dev;
    }

unfoldable pub put_entry : Rtable → List Rtable → Option (List Rtable)
put_entry new table = insert_route new (drop_if (same_net new.rt_dst new.rt_mask) table)

unfoldable pub is_device : ℕ → Option ℕ → Bool
is_device dev none = dev == 0
is_device dev (some d) = dev == d

unfoldable pub entry_flags : Device → Request → ℕ
entry_flags dev q =
    let flags = (host_or_net dev q.flags q.dst q.mask).0 in
    if q.gw == dev.pa_addr then no_gateway flags else flags

-- Where the unset pointer `rt` of `ip_rt_add` happens to point: NULL, memory that nothing else uses, or
-- anywhere else
pub data UnsetRt : Type 0 where
  at_zero : UnsetRt
  apart : UnsetRt
  elsewhere : UnsetRt

-- The entry written at `rt` and linked; `none` where the writes at `rt` are not followed.
unfoldable pub write_entry : UnsetRt → Rtable → List Rtable → Option (List Rtable)
write_entry at_zero new table = some table
write_entry apart new table = put_entry new table
write_entry elsewhere new table = none

-- `rt` is never set, as the call of `kmalloc` is compiled out.
unfoldable pub ip_rt_add : (ℕ → Device) → UnsetRt → Request → List Rtable → Option (List Rtable)
ip_rt_add devices rt q table =
    let dev = devices q.dev in
    let (f, dst, mask) = host_or_net dev q.flags q.dst q.mask in
    let flags = entry_flags dev q in
    if has_flag flags rtf_gateway
    then (if is_device q.dev (get_gw_dev q.gw table)
        then write_entry rt (entry_of q flags dst mask q.gw) table
        else some table)
    else write_entry rt (entry_of q flags dst mask 0) table

unfoldable pub bad_mask : ℕ → ℕ → Bool
bad_mask mask addr =
    let inverse = 2 ^ 32 - 1 - mask in
    not (bit_and addr inverse == 0) || not (bit_and inverse ((inverse + 1) % 2 ^ 32) == 0)

-- A read at NULL, the exit `no_route`, or an entry; `*src_addr` is set but for the first.
pub data Routed : Type 0 where
  at_null : Routed
  no_route : ℕ → Routed
  route : Rtable → ℕ → Routed

unfoldable pub first_match : (Rtable → Bool) → List Rtable → Option Rtable
first_match test [] = none
first_match test (r ∷ rs) = let rest = first_match test rs in if test r then some r else rest

unfoldable pub used : Rtable → Rtable
used r = record r { rt_use = (r.rt_use + 1) % 2 ^ 32 }

unfoldable pub use_first : (Rtable → Bool) → List Rtable → List Rtable
use_first test [] = []
use_first test (r ∷ rs) = let rest = use_first test rs in if test r then used r ∷ rs else r ∷ rest

-- The end of `ip_rt_route` and `ip_rt_local`, with the entry of the walk
unfoldable pub route_to :
    (ℕ → Device) → ℕ → (Rtable → Bool) → List Rtable → Option Rtable → Routed × List Rtable
route_to devices daddr test table none = (at_null, table)
route_to devices daddr test table (some r) =
    let src = (devices r.rt_dev).pa_addr in
    if daddr == src then (no_route src, table) else (route (used r) src, use_first test table)

unfoldable pub ip_rt_route : (ℕ → Device) → ℕ → List Rtable → Routed × List Rtable
ip_rt_route devices daddr table =
    route_to devices daddr (covers daddr) table (first_match (covers daddr) table)

unfoldable pub is_local : ℕ → Rtable → Bool
is_local daddr r = not (has_flag r.rt_flags rtf_gateway) && covers daddr r

unfoldable pub ip_rt_local : (ℕ → Device) → ℕ → List Rtable → Routed × List Rtable
ip_rt_local devices daddr table =
    route_to devices daddr (is_local daddr) table (first_match (is_local daddr) table)
