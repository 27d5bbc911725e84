-- ===== src/Net/Arp/Find.antt =====
-- Looking up addresses and the requests of net/inet/arp.c. `arp_lookup` goes on with `entry++`, so that what it finds behind the
-- first entry of a chain is not followed.
use prettyos.Common.{
  ℕ, ◌/◌, ◌^◌, bit_and, bit_or, Bool, true, not, Option, none, some, List, [], ◌∷◌, ◌++◌, ◌==◌,
  if◌then◌else◌,
}
use prettyos.Common.Int.{ℤ, pos, neg}
use prettyos.Net.Arp.{
  ArpEntry, Tables, hash, is_complete, is_entry, at_first, at_place, arp_destory,
}

-- NULL, the first entry of the chain, or what stands behind that in memory, as the loop has `entry++`
pub data Lookup : Type 0 where
  no_entry : Lookup
  first : ArpEntry → Lookup
  beyond : Lookup

unfoldable pub lookup_in : ℕ → List ArpEntry → Lookup
lookup_in paddr [] = no_entry
lookup_in paddr (e ∷ es) = if e.ip == paddr then first e else beyond

unfoldable pub arp_lookup : ℕ → Tables → Lookup
arp_lookup paddr tables = lookup_in paddr (tables (hash paddr))

-- What `arp_find` writes to `haddr`, or does instead
pub data Resolved : Type 0 where
  own_address : Resolved
  multicast : List ℕ → Resolved
  broadcast : Resolved
  known : List ℕ → Resolved
  waiting : Resolved
  requested : Resolved
  astray : Resolved

unfoldable pub multicast_address : ℕ → List ℕ
multicast_address daddr =
    0x01
    ∷ 0x00
    ∷ 0x5e
    ∷ bit_and (daddr / 2 ^ 16) 0x7f
    ∷ bit_and (daddr / 2 ^ 8) 0xff
    ∷ bit_and daddr 0xff
    ∷ []

unfoldable pub queued : List ℕ → ArpEntry → Option ArpEntry
queued skb e = some (record e { skh = e.skh ++ skb })

unfoldable pub touched : ℕ → ArpEntry → Option ArpEntry
touched now e = some (record e { last_used = now })

-- `skb` is the list of the buffer, or no buffer.
unfoldable pub find_entry : ℕ → ℕ → List ℕ → Tables → Lookup → Resolved × Tables
find_entry now paddr skb tables no_entry = (requested, tables)
find_entry now paddr skb tables beyond = (astray, tables)
find_entry now paddr skb tables (first e) =
    if is_complete e
    then (known e.ha, at_place (hash paddr) (at_first (is_entry e.id) (touched now)) tables)
    else (waiting, at_place (hash paddr) (at_first (is_entry e.id) (queued skb)) tables)

-- `chk` is what `ip_chk_addr` says of the address; another device than Ethernet falls through to the broadcast.
unfoldable pub arp_find : ℕ → ℕ → Bool → ℕ → List ℕ → Tables → Resolved × Tables
arp_find now chk is_ether paddr skb tables =
    if chk == 1
    then (own_address, tables)
    else if chk == 4
    then ((if is_ether then multicast (multicast_address paddr) else broadcast), tables)
    else if chk == 3
    then (broadcast, tables)
    else find_entry now paddr skb tables (arp_lookup paddr tables)

pub record Arpreq : Type 0 where
  pub family : ℕ
  pub ip : ℕ
  pub ha : List ℕ
  pub flags : ℕ

unfoldable pub set_entry : ℕ → Arpreq → ArpEntry → Option ArpEntry
set_entry now req e =
    some (record e { ha = req.ha; last_used = now; flags = bit_or req.flags 0x02 })

-- `none` where the entry is beyond the table.
unfoldable pub set_found : ℕ → Arpreq → Tables → Lookup → Option (ℤ × Tables)
set_found now req tables no_entry = some (neg 12, tables)
set_found now req tables beyond = none
set_found now req tables (first e) =
    some (pos 0, at_place (hash req.ip) (at_first (is_entry e.id) (set_entry now req)) tables)

-- The family is compared with ARPHRD_ETHER.
unfoldable pub arp_req_set : ℕ → Arpreq → Tables → Option (ℤ × Tables)
arp_req_set now req tables =
    if not (req.family == 1)
    then some (neg 100, tables)
    else if req.ip == 0
    then some (neg 22, tables)
    else set_found now req tables (arp_lookup req.ip tables)

unfoldable pub got : Arpreq → Lookup → Option (ℤ × Arpreq)
got req no_entry = some (neg 6, req)
got req beyond = none
got req (first e) = some (pos 0, record req { ha = e.ha; flags = e.flags })

unfoldable pub arp_req_get : Arpreq → Tables → Option (ℤ × Arpreq)
arp_req_get req tables =
    if req.family == 2 then got req (arp_lookup req.ip tables) else some (neg 100, req)

-- The error code and the tables; the request of SIOCGARP is left to `arp_req_get`.
unfoldable pub deleted : Option Tables → Option (ℤ × Tables)
deleted none = none
deleted (some tables) = some (pos 0, tables)

unfoldable pub with_tables : Tables → Option (ℤ × Arpreq) → Option (ℤ × Tables)
with_tables tables none = none
with_tables tables (some (code, req)) = some (code, tables)

unfoldable pub arp_ioctl : ℕ → ℕ → ℕ → Arpreq → Tables → Option (ℤ × Tables)
arp_ioctl fuel now cmd req tables =
    if cmd == 0x8850
    then (if req.family == 2
        then deleted (arp_destory fuel req.ip true tables)
        else some (neg 100, tables))
    else if cmd == 0x8851
    then with_tables tables (arp_req_get req tables)
    else if cmd == 0x8852
    then arp_req_set now req tables
    else some (neg 22, tables)
