-- ===== src/Net/Ip/Tests.antt =====
-- Runs of the functions of net/inet/ip.c on small inputs.
use prettyos.Common.{
  ℕ, ◌+◌, ◌%◌, ◌^◌, ◌≡◌, ◌≢◌, ◌↔◌, refl, true, false, ◌||◌, none, some, List, [], ◌∷◌, arith,
}
use prettyos.Libc.Strings.{Mem}
use prettyos.Net.Device.{NetDevice}
use prettyos.Net.Ip.{
  Iphdr, Ipfrag, Ipfq, Unset, ip_frq_done, done_loop, put_after, new_part, stopped_at,
}
use prettyos.Net.Ip.Order.{is_covered, has_byte, IsOrdered, put_after-is_covered}
use prettyos.Net.Ip.Complete.{AllCovered, ip_frq_done_iff}
use prettyos.Net.Ip.Split.{ip_fragment, split_loop, and_then, piece_len, piece_flags, first_offset}
use prettyos.Net.Ip.Input.{
  Arrival, InetProtocol, registered, handlers_of, ip_rcv, ip_rcv-handlers_of, is_valid, flag_of,
  foreign_to,
}

abbrev part : ℕ → ℕ → Ipfrag
part from to = record { offset = from; end = to; ptr = 0x4000 + from }

abbrev two_parts : List Ipfrag
two_parts = part 0 16 ∷ part 24 40 ∷ []

-- The middle, with four bytes that are there already
put_after-is_covered_example :
    IsOrdered 0 (put_after none (part 12 24) two_parts)
    × ((x : ℕ)
        → is_covered x (put_after none (part 12 24) two_parts)
          ≡ (has_byte x (part 12 24) || is_covered x two_parts))
put_after-is_covered_example =
    put_after-is_covered (part 12 24) two_parts (omega arith)
      ((λ h. omega arith), ((λ h. absurd (omega arith)), tt))
      (omega arith, omega arith, (omega arith, omega arith, tt))

-- The rest of a fragment that was cut is lost.
lost : put_after none (part 0 16) (part 8 24 ∷ []) ≡ part 0 16 ∷ []
unfolding put_after new_part stopped_at
lost = refl

-- After a second copy of a part, the fragments never count as complete again.
never_done : done_loop 0 (put_after none (part 0 8) (part 0 16 ∷ part 16 24 ∷ [])) ≡ false
unfolding put_after new_part stopped_at done_loop
never_done = refl

abbrev header : Iphdr
header = record {
  ihl = 5;
  tot_len = 60;
  id = 1;
  flags_off = 0;
  protocol = 17;
  saddr = 1;
  daddr = 2;
}

abbrev queue : List Ipfrag → Ipfq
queue frags = record {
  mac = 0x100;
  iph = 0x200;
  header = header;
  len = 24;
  ihlen = 20;
  maclen = 14;
  fragments = frags;
}

ip_frq_done_iff_example :
    (ip_frq_done (queue two_parts) ≡ true)
    ↔ (((queue two_parts).len ≢ 0) × AllCovered 0 40 two_parts)
ip_frq_done_iff_example =
    ip_frq_done_iff (queue two_parts) (omega arith, omega arith, (omega arith, omega arith, tt))

abbrev memory : Mem
memory a = a % 2 ^ 8

abbrev whole_parts : List Ipfrag
whole_parts = part 0 16 ∷ part 16 24 ∷ []

-- The mark of a piece is a bit of the field of the offset; each round overwrites most of what the one before copied.
marked :
    ip_fragment 60 header 0x4000 14 50 0 0x9000
    ≡ some (
        record { offset = 0; flags_off = 0x20; ptr = 0x4022; len = 16; to = 0x9000 }
        ∷ record { offset = 16; flags_off = 0x22; ptr = 0x4032; len = 16; to = 0x900e }
        ∷ record { offset = 32; flags_off = 0x04; ptr = 0x4042; len = 8; to = 0x901c }
        ∷ [])
unfolding ip_fragment split_loop and_then piece_len piece_flags first_offset
marked = refl

abbrev eth0 : NetDevice
eth0 = record { pa_addr = 2; pa_mask = 0xff; pa_broadcast = 0xff; flags = 1 }

abbrev arrival : ℕ → Arrival
arrival field = record {
  iph = record header { flags_off = field };
  version = 4;
  len = 60;
  is_host = true;
  payload = 0x4000;
  maclen = 14;
}

abbrev added : List InetProtocol
added = record { protocol = 49; handler = 8 } ∷ record { protocol = 17; handler = 9 } ∷ []

abbrev unset : Unset
unset = record { no_queue = false; no_fragment = false }

ip_rcv-handlers_of_example :
    ip_rcv 5 false (λ i. eth0) eth0 unset memory 0x8000 (registered added) (arrival 0) []
    ≡ some (record { forwarded = false; handled = handlers_of 17 added; queues = [] })
unfolding is_valid flag_of foreign_to
ip_rcv-handlers_of_example =
    ip_rcv-handlers_of 5 false (λ i. eth0) eth0 unset memory 0x8000 added (arrival 0) [] false refl
      refl refl refl
