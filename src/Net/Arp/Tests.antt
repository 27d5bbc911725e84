-- ===== src/Net/Arp/Tests.antt =====
-- Runs of the functions of net/inet/arp.c on small inputs.
use prettyos.Common.{
  ℕ, ◌-◌, ◌≡◌, ◌↔◌, refl, false, true, none, some, List, [], ◌∷◌, ◌==◌, if◌then◌else◌, arith,
}
use prettyos.Libc.Strings.{Mem}
use prettyos.Net.Arp.{
  ArpEntry, Tables, hash, arp_check_expire, arp_destory, destory_loop, next_chain, stays,
  with_chain, at_place, on_chains, drop_where, is_old, is_permanent,
}
use prettyos.Net.Arp.Find.{multicast_address}
use prettyos.Net.Arp.Chain.{AllAt, arp_destory_iff}
use prettyos.Net.Arp.Fewer.{AllFewer}
use prettyos.Net.Arp.Closed.{
  ArpCall, check_expire, device_event, destory, arp_calls, arp_calls-AllFewer,
}
use prettyos.Net.Arp.Packet.{ArpDevice, read_long, is_for, arp_rcv, is_answer, arp_rcv_answers_iff}

abbrev entry : ℕ → ℕ → ArpEntry
entry id ip = record {
  id = id;
  last_used = 1000;
  flags = 2;
  ip = ip;
  ha = [];
  htype = 1;
  dev = 7;
  retries = 3;
  skh = [];
}

-- Two addresses with the same hash
abbrev tables : Tables
tables i = if i == 5 then entry 1 0x15 ∷ entry 2 0x25 ∷ [] else []

spins : arp_destory 20 0x25 true tables ≡ none
unfolding arp_destory destory_loop next_chain stays with_chain hash
spins = refl

arp_destory_iff_example :
    ((fuel : ℕ) × ((t : Tables) × (arp_destory fuel 0x25 true tables ≡ some t)
        × (t (hash 0x25) ≡ [])))
    ↔ AllAt 0x25 (tables (hash 0x25))
arp_destory_iff_example = arp_destory_iff 0x25 tables

abbrev calls : List ArpCall
calls = check_expire 1200 ∷ destory 0x15 true ∷ device_event 2 7 ∷ []

abbrev one_entry : Tables
one_entry i = if i == 5 then entry 1 0x15 ∷ [] else []

abbrev then_tables : Tables
then_tables = elim (arp_calls 20 calls one_entry) [ none ↦ one_entry | some t ↦ t ]

arp_calls-AllFewer_example : AllFewer then_tables one_entry
unfolding arp_check_expire arp_destory destory_loop next_chain stays with_chain hash on_chains
    drop_where at_place is_old is_permanent
arp_calls-AllFewer_example = arp_calls-AllFewer 20 calls one_entry then_tables refl

abbrev card : ℕ → ArpDevice
card addr = record {
  addr_len = 6;
  hard_header_len = 14;
  type = 1;
  pa_addr = addr;
  no_arp = false;
  dev_addr = 0x5000;
  broadcast = 0x5010;
}

-- A request for 10.0.0.2 at 0x1000, with zeros for the hardware address that is asked for
abbrev request : List ℕ
request =
    0x01 ∷ 0x00 ∷ 0x00 ∷ 0x08 ∷ 6 ∷ 4 ∷ 1 ∷ 0 ∷ 0x52 ∷ 0x54 ∷ 0x00 ∷ 0x12 ∷ 0x34 ∷ 0x56 ∷ 1 ∷ 0 ∷ 0
    ∷ 10 ∷ 0 ∷ 0 ∷ 0 ∷ 0 ∷ 0 ∷ 0 ∷ 2 ∷ 0 ∷ 0 ∷ 10 ∷ []

abbrev nth : List ℕ → ℕ → ℕ
nth [] n = 0
nth (x ∷ xs) n = if n == 0 then x else nth xs (n - 1)

abbrev memory : Mem
memory a = nth request (a - 0x1000)

arp_rcv_answers_iff_example :
    (is_answer (arp_rcv (λ a. 1) (card 0x0a000002) memory 0x1000) ≡ true)
    ↔ (read_long memory 0x1012 ≡ 0x0a000002)
unfolding is_for
arp_rcv_answers_iff_example =
    arp_rcv_answers_iff (λ a. 1) (card 0x0a000002) memory 0x1000 (omega arith) refl (omega arith)
      (omega arith)

all_hosts : multicast_address 0xe0000001 ≡ 0x01 ∷ 0x00 ∷ 0x5e ∷ 0x00 ∷ 0x00 ∷ 0x01 ∷ []
unfolding multicast_address
all_hosts = refl
