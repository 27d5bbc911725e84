-- ===== src/Net/Route/Tests.antt =====
-- The routing table at concrete entries, and the theorems at concrete inputs.
use prettyos.Common.{ℕ, ◌≡◌, refl, some, [], ◌∷◌}
use prettyos.Net.Route.{
  Device, Rtable, Request, includes, insert_route, insert_after, drop_if, same_net, put_entry,
  ip_rt_add, apart, write_entry, host_or_net, entry_flags, entry_of, has_flag, default_netmask,
}

abbrev eth : ℕ → Device
eth d = record { pa_addr = 0xc0a80001; pa_mask = 0xffffff00 }

abbrev entry : ℕ → ℕ → Rtable
entry dst mask = record {
  rt_dst = dst;
  rt_mask = mask;
  rt_gateway = 0;
  rt_flags = 1;
  rt_use = 0;
  rt_mss = 0;
  rt_window = 0;
  rt_dev = 1;
}

-- A host and a network
abbrev host : Rtable
host = entry 0xc0a80005 0xffffffff

abbrev net : Rtable
net = entry 0xc0a80000 0xffffff00

-- The mask that is guessed for an address of class A is the greatest such address.
class_a : default_netmask 0x0a000001 ≡ 0x7f000000
unfolding default_netmask
class_a = refl

abbrev request : Request
request = record {
  flags = 0;
  dst = 0xc0a80000;
  mask = 0xffffff00;
  gw = 0;
  dev = 1;
  mtu = 0;
  window = 0;
}

with_net : ip_rt_add eth apart request (host ∷ []) ≡ some (host ∷ net ∷ [])
unfolding ip_rt_add write_entry host_or_net entry_flags has_flag put_entry entry_of insert_route
    insert_after includes drop_if same_net
with_net = refl
