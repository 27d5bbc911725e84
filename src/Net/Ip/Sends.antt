-- ===== src/Net/Ip/Sends.antt =====
-- Datagrams sent and forwarded by the functions of net/inet/ip.c.
use prettyos.Common.{ℕ, ◌≡◌, refl, true, false, none, some, [], ◌∷◌}
use prettyos.Common.Int.{neg}
use prettyos.Net.Route.{Device, Rtable, covers, ip_rt_route, route_to, first_match, use_first, used}
use prettyos.Net.Ip.Output.{
  sent, no_memory, priority_of, Link, ip_forward, less_ttl, forward_to, forward_on, Unanswered,
  remember, link_from, built, Wanted, ip_build_header, build_on, build_with, mac_of, source_of,
  is_loopback,
}

abbrev eth : ℕ → Device
eth d = record { pa_addr = 0xc0a80001; pa_mask = 0xffffff00 }

abbrev link : ℕ → Link
link d = record { mtu = 1500; flags = 1 }

abbrev entry : ℕ → ℕ → ℕ → Rtable
entry dst mask dev = record {
  rt_dst = dst;
  rt_mask = mask;
  rt_gateway = 0;
  rt_flags = 1;
  rt_use = 0;
  rt_mss = 0;
  rt_window = 0;
  rt_dev = dev;
}

abbrev host : Rtable
host = entry 0xc0a80009 0xffffffff 2

abbrev net : Rtable
net = entry 0xc0a80000 0xffffff00 3

-- Routed by the second entry, whether the unset pointer is NULL or not
forwarded :
    ((ip_forward eth link true 600 0x10 64 0xc0a80007 (host ∷ net ∷ [])).0 ≡ no_memory)
    × ((ip_forward eth link false 600 0x10 64 0xc0a80007 (host ∷ net ∷ [])).0
        ≡ sent 3 0xc0a80007 (priority_of 0x10))
unfolding ip_forward less_ttl forward_to forward_on ip_rt_route route_to first_match use_first used
    covers
forwarded = (refl, refl)

abbrev unanswered : Unanswered
unanswered = record { send_head = 0; send_tail = 0; packets_out = 0; cache_next = λ i. 0 }

-- Of three buffers the second is lost: the first is linked to the third.
second_lost : (remember 12 (remember 11 (remember 10 unanswered))).cache_next 10 ≡ 12
unfolding remember link_from
second_lost = refl

abbrev wanted : Wanted
wanted = record { saddr = 0; daddr = 0xc0a80007; dev = none; is_raw = false; local = false }

-- The header of the device takes 14 bytes, and 13 are counted.
header_size :
    (ip_build_header eth (λ d. some (neg 14)) wanted (net ∷ [])).0
    ≡ built (record {
      dev = 3;
      saddr = 0xc0a80001;
      raddr = 0xc0a80007;
      unresolved = true;
      with_header = true;
      size = 33;
    })
unfolding ip_build_header build_on build_with mac_of source_of is_loopback ip_rt_route route_to
    first_match use_first used covers
header_size = refl
