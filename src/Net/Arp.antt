-- ===== src/Net/Arp.antt =====
-- The table of the address resolution protocol: net/inet/arp.c and include/linux/if_arp.h. A chain is the list that
-- begins at its place in `arp_tables`; an entry is named by `id`, its address. Where memory for a new entry would
-- be asked for, the call is compiled out and `entry` is still NULL, so that no function makes one. Timers are left out.
mod Tests
pub mod Find
pub mod Chain
pub mod Fewer
pub mod Closed
pub mod Packet
use prettyos.Common.{
  ℕ, zero, suc, ◌+◌, ◌-◌, ◌*◌, ◌/◌, ◌%◌, ◌^◌, bit_and, bit_or, Bool, true, false, not, ◌&&◌, ◌||◌,
  Option, none, some, List, [], ◌∷◌, ◌++◌, ◌==◌, ltb, if◌then◌else◌,
}
use prettyos.Common.Int.{ℤ, pos, neg}

pub record ArpEntry : Type 0 where
  pub id : ℕ
  pub last_used : ℕ
  pub flags : ℕ
  pub ip : ℕ
  pub ha : List ℕ
  pub htype : ℕ
  pub dev : ℕ
  pub retries : ℕ
  pub skh : List ℕ

abbrev pub Tables : Type 0
Tables = ℕ → List ArpEntry

abbrev pub full_table_size : ℕ
full_table_size = 17

abbrev pub arp_timeout : ℕ
arp_timeout = 60000

abbrev pub netdev_down : ℕ
netdev_down = 2

unfoldable pub hash : ℕ → ℕ
hash addr = bit_and addr 15

unfoldable pub is_complete : ArpEntry → Bool
is_complete e = not (bit_and e.flags 0x02 == 0)

unfoldable pub is_permanent : ArpEntry → Bool
is_permanent e = not (bit_and e.flags 0x04 == 0)

-- The walks of `arp_check_expire` and `arp_device_event` along one chain
unfoldable pub drop_where : (ArpEntry → Bool) → List ArpEntry → List ArpEntry
drop_where test [] = []
drop_where test (e ∷ es) = let rest = drop_where test es in if test e then rest else e ∷ rest

unfoldable pub on_chains : (List ArpEntry → List ArpEntry) → Tables → Tables
on_chains f tables i = if ltb i full_table_size then f (tables i) else tables i

-- `now - entry->last_used`, 32 bits wide
unfoldable pub is_old : ℕ → ArpEntry → Bool
is_old now e = ltb arp_timeout ((now + 2 ^ 32 - e.last_used) % 2 ^ 32)

unfoldable pub arp_check_expire : ℕ → Tables → Tables
arp_check_expire now tables = on_chains (drop_where (is_old now)) tables

unfoldable pub is_on : ℕ → ArpEntry → Bool
is_on dev e = e.dev == dev

unfoldable pub arp_device_event : ℕ → ℕ → Tables → Tables
arp_device_event event dev tables =
    if event == netdev_down then on_chains (drop_where (is_on dev)) tables else tables

unfoldable pub is_entry : ℕ → ArpEntry → Bool
is_entry id e = e.id == id

-- Up to the first entry with the test: it gets the change, or it is taken out where there is none.
unfoldable pub at_first :
    (ArpEntry → Bool) → (ArpEntry → Option ArpEntry) → List ArpEntry → List ArpEntry
at_first test f [] = []
at_first test f (e ∷ es) =
    let rest = at_first test f es in
    if test e then elim (f e) [ none ↦ es | some changed ↦ changed ∷ es ] else e ∷ rest

unfoldable pub at_place : ℕ → (List ArpEntry → List ArpEntry) → Tables → Tables
at_place place f tables i = if i == place then f (tables i) else tables i

-- `--entry->retries`, 32 bits wide
unfoldable pub retried : ArpEntry → ArpEntry
retried e = record e { retries = (e.retries + 2 ^ 32 - 1) % 2 ^ 32 }

unfoldable pub expired : ArpEntry → Option ArpEntry
expired e =
    if is_complete e then some e else if (retried e).retries == 0 then none else some (retried e)

-- Whether a request is sent again, and the tables; the entry is looked for in its chain by its address.
unfoldable pub arp_expire_request : ArpEntry → Tables → Bool × Tables
arp_expire_request e tables = (
  not (is_complete e) && not ((retried e).retries == 0),
  at_place (hash e.ip) (at_first (is_entry e.id) expired) tables,
)

-- The loop of `arp_destory`. It does not go on to the next entry where the address is another one; `none` means that
-- the fuel ran out.
unfoldable pub stays : ℕ → Bool → ArpEntry → Bool
stays ip force e = (e.ip == ip) && (is_permanent e && not force)

unfoldable pub next_chain : ℕ → ArpEntry → List ArpEntry → List ArpEntry
next_chain ip e es = if e.ip == ip then es else e ∷ es

unfoldable pub destory_loop : ℕ → ℕ → Bool → List ArpEntry → Option (List ArpEntry)
destory_loop fuel ip force [] = some []
destory_loop zero ip force (e ∷ es) = none
destory_loop (suc fuel) ip force (e ∷ es) =
    let rest = destory_loop fuel ip force (next_chain ip e es) in
    if stays ip force e then some (e ∷ es) else rest

unfoldable pub with_chain : ℕ → Tables → Option (List ArpEntry) → Option Tables
with_chain place tables none = none
with_chain place tables (some chain) = some (at_place place (λ old. chain) tables)

unfoldable pub arp_destory : ℕ → ℕ → Bool → Tables → Option Tables
arp_destory fuel ip force tables =
    with_chain (hash ip) tables (destory_loop fuel ip force (tables (hash ip)))

unfoldable pub is_sender : ℕ → ℕ → ArpEntry → Bool
is_sender sip htype e = (e.ip == sip) && (e.htype == htype)

-- The buffers that wait go out where the entry is complete.
unfoldable pub refreshed : ℕ → List ℕ → ArpEntry → Option ArpEntry
refreshed now sha e =
    some (record e { ha = sha; last_used = now; skh = if is_complete e then [] else e.skh })

-- The end of `arp_rcv`, for a sender's address and hardware address
unfoldable pub arp_learn : ℕ → ℕ → ℕ → List ℕ → Tables → Tables
arp_learn now sip htype sha tables =
    at_place (hash sip) (at_first (is_sender sip htype) (refreshed now sha)) tables
