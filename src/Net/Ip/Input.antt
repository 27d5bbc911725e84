-- ===== src/Net/Ip/Input.antt =====
-- `ip_rcv` of net/inet/ip.c and the table of protocols of net/inet/protocol.c. What `ip_forward` does
-- with the buffer is left out: here it is only noted that it was called. A datagram too short, of another version or
-- with options is judged by the fields given; the sum of a header is always 0.
use prettyos.Common.{
  ℕ, ◌+◌, ◌≡◌, ◌≢◌, refl, sym, ap, Bool, true, false, not, ◌&&◌, ◌||◌, Option, none, some, List, [],
  ◌∷◌, ◌==◌, ltb, bit_and, if◌then◌else◌, arith, Bool-cases, inl, inr, ==_iff,
}
use prettyos.Libc.Strings.{Mem}
use prettyos.Net.Device.{NetDevice, ip_chk_addr}
use prettyos.Net.Ip.{
  Iphdr, Ipfq, Unset, Defragged, whole, no_buffer, at_null, below_zero, ip_offset, ip_mf,
  ip_frq_find, ip_frq_create, filled, cleared, with_queue, ip_defrag,
}

pub record InetProtocol : Type 0 where
  pub protocol : ℕ
  pub handler : ℕ

-- `inet_protos`, by the hash
abbrev pub Protos : Type 0
Protos = ℕ → List InetProtocol

unfoldable pub hash : ℕ → ℕ
hash protocol = bit_and protocol 31

unfoldable pub inet_add_protocol : Protos → InetProtocol → Protos
inet_add_protocol protos prot i = if i == hash prot.protocol then prot ∷ protos i else protos i

-- The handlers that are called for a protocol number, in their order
unfoldable pub handlers_of : ℕ → List InetProtocol → List ℕ
handlers_of protocol [] = []
handlers_of protocol (ipprot ∷ rest) =
    let later = handlers_of protocol rest in
    if ipprot.protocol == protocol then ipprot.handler ∷ later else later

-- `none` means that `ip_chk_addr` did not end.
pub record Arrived : Type 0 where
  pub forwarded : Bool
  pub handled : List ℕ
  pub queues : List Ipfq

-- The datagram and what the buffer says of it
pub record Arrival : Type 0 where
  pub iph : Iphdr
  pub version : ℕ
  pub len : ℕ
  pub is_host : Bool
  pub payload : ℕ
  pub maclen : ℕ

unfoldable pub is_valid : Arrival → Bool
is_valid a = not (ltb a.len 20 || ltb a.iph.ihl 5 || not (a.version == 4))

-- `is_flag`: 1 for IP_MF, 2 for an offset
unfoldable pub flag_of : ℕ → ℕ
flag_of flags_off =
    (if bit_and flags_off ip_mf == 0 then 0 else 1)
    + (if bit_and flags_off ip_offset == 0 then 0 else 2)

unfoldable pub dispatched : Protos → Iphdr → Bool → Defragged × List Ipfq → Arrived
dispatched protos iph forwarded (whole, queues) = record {
  forwarded = forwarded;
  handled = handlers_of iph.protocol (protos (hash iph.protocol));
  queues = queues;
}
dispatched protos iph forwarded (no_buffer, queues) = record {
  forwarded = forwarded;
  handled = [];
  queues = queues;
}
dispatched protos iph forwarded (at_null, queues) = record {
  forwarded = forwarded;
  handled = [];
  queues = queues;
}
dispatched protos iph forwarded (below_zero, queues) = record {
  forwarded = forwarded;
  handled = [];
  queues = queues;
}

-- From the test of the address on: `foreign` says that `ip_chk_addr` was asked and answered 0.
unfoldable pub after_address : Unset → Mem → ℕ → Protos → Bool → Arrival → List Ipfq → Arrived
after_address unset m buffer protos foreign a queues =
    let dropped : Arrived = record { forwarded = false; handled = []; queues = queues } in
    let defragged : Defragged × List Ipfq =
      if flag_of a.iph.flags_off == 0
      then (whole, queues)
      else ip_defrag unset m buffer a.payload a.maclen a.iph queues in
    if foreign && not a.is_host then dropped else dispatched protos a.iph foreign defragged

unfoldable pub is_foreign : Option ℕ → Option Bool
is_foreign none = none
is_foreign (some brd) = some (brd == 0)

unfoldable pub foreign_to : ℕ → Bool → (ℕ → NetDevice) → NetDevice → ℕ → Option Bool
foreign_to fuel no_base devices dev daddr =
    if daddr == dev.pa_addr then some false else is_foreign (ip_chk_addr fuel no_base devices daddr)

unfoldable pub arrived_with :
    Unset → Mem → ℕ → Protos → Arrival → List Ipfq → Option Bool → Option Arrived
arrived_with unset m buffer protos a queues none = none
arrived_with unset m buffer protos a queues (some foreign) =
    some (after_address unset m buffer protos foreign a queues)

unfoldable pub ip_rcv :
    ℕ
    → Bool
    → (ℕ → NetDevice)
    → NetDevice
    → Unset
    → Mem
    → ℕ
    → Protos
    → Arrival
    → List Ipfq
    → Option Arrived
ip_rcv fuel no_base devices dev unset m buffer protos a queues =
    let dropped : Arrived = record { forwarded = false; handled = []; queues = queues } in
    if is_valid a
    then arrived_with unset m buffer protos a queues
        (foreign_to fuel no_base devices dev a.iph.daddr)
    else some dropped

-- The table after protocols were added, the last one first.
abbrev pub registered : List InetProtocol → Protos
registered [] = λ i. []
registered (prot ∷ added) = inet_add_protocol (registered added) prot

and_false : (b : Bool) → (b && false) ≡ false
and_false true = refl
and_false false = refl

handlers_of-registered :
    (n : ℕ) (added : List InetProtocol)
    → handlers_of n (registered added (hash n)) ≡ handlers_of n added
unfolding inet_add_protocol handlers_of
handlers_of-registered n [] = refl
handlers_of-registered n (prot ∷ added) = elim (Bool-cases (prot.protocol == n)) [
  | inl c ↦
      let e : prot.protocol ≡ n = (==_iff prot.protocol n).0 c in
      let here : (hash n == hash prot.protocol) ≡ true = (==_iff _ _).1 (ap hash (sym e)) in
      rw here (rw c (ap (λ l. prot.handler ∷ l) (handlers_of-registered n added)))
  | inr c ↦ elim (Bool-cases (hash n == hash prot.protocol)) [
    | inl k ↦ rw k (rw c (handlers_of-registered n added))
    | inr k ↦ rw k (rw c (handlers_of-registered n added))
  ]
]

-- A valid datagram that is no fragment and was sent to this host, where `ip_chk_addr` ends or is not asked: it goes
-- to the handlers of its protocol number, the last added first, and to no other, whatever shares its place
-- in the table. One that is for another host is forwarded, and goes to the handlers as well.
pub ip_rcv-handlers_of :
    (fuel : ℕ) (no_base : Bool) (devices : ℕ → NetDevice) (dev : NetDevice) (unset : Unset)
    (m : Mem) (buffer : ℕ) (added : List InetProtocol) (a : Arrival) (queues : List Ipfq)
    (foreign : Bool)
    → is_valid a ≡ true
    → a.is_host ≡ true
    → flag_of a.iph.flags_off ≡ 0
    → foreign_to fuel no_base devices dev a.iph.daddr ≡ some foreign
    → ip_rcv fuel no_base devices dev unset m buffer (registered added) a queues
      ≡ some (record {
        forwarded = foreign;
        handled = handlers_of a.iph.protocol added;
        queues = queues;
      })
unfolding ip_rcv arrived_with after_address dispatched
ip_rcv-handlers_of fuel no_base devices dev unset m buffer added a queues foreign v host f e =
    let no_flag : (flag_of a.iph.flags_off == 0) ≡ true = (==_iff _ 0).1 f in
    let here : (foreign && not a.is_host) ≡ false = rw host (and_false foreign) in
    rw (v, e, here, no_flag)
      (ap (λ h. some (record { forwarded = foreign; handled = h; queues = queues }))
        (handlers_of-registered a.iph.protocol added))

ip_defrag_drops :
    (unset : Unset) (m : Mem) (buffer payload maclen : ℕ) (iph : Iphdr)
    → bit_and iph.flags_off ip_offset ≢ 0
    → ip_defrag unset m buffer payload maclen iph [] ≡ (no_buffer, [])
unfolding ip_defrag ip_frq_find ip_frq_create filled cleared with_queue
ip_defrag_drops unset m buffer payload maclen iph h =
    let some_offset : (bit_and iph.flags_off ip_offset == 0) ≡ false = ground arith in
    rw some_offset (elim (Bool-cases (bit_and (bit_and iph.flags_off 0xe000) ip_mf == 0)) [
      | inl c ↦ rw c (elim (Bool-cases unset.no_queue) [ inl k ↦ rw k refl | inr k ↦ rw k refl ])
      | inr c ↦ rw c (elim (Bool-cases unset.no_queue) [ inl k ↦ rw k refl | inr k ↦ rw k refl ])
    ])

-- A datagram with an offset, where no fragments are kept and `ip_chk_addr` ends or is not asked: no handler
-- gets it, and again no fragments are kept, whatever stands in the variables that are never set.
pub ip_rcv_drops :
    (fuel : ℕ) (no_base : Bool) (devices : ℕ → NetDevice) (dev : NetDevice) (unset : Unset)
    (m : Mem) (buffer : ℕ) (protos : Protos) (a : Arrival) (foreign : Bool)
    → bit_and a.iph.flags_off ip_offset ≢ 0
    → foreign_to fuel no_base devices dev a.iph.daddr ≡ some foreign
    → (forwarded : Bool) × (ip_rcv fuel no_base devices dev unset m buffer protos a []
        ≡ some (record { forwarded = forwarded; handled = []; queues = [] }))
unfolding ip_rcv arrived_with after_address dispatched flag_of
ip_rcv_drops fuel no_base devices dev unset m buffer protos a foreign h e =
    let some_offset : (bit_and a.iph.flags_off ip_offset == 0) ≡ false = ground arith in
    elim (Bool-cases (is_valid a)) [
      | inl v ↦ elim (Bool-cases (foreign && not a.is_host)) [
        | inl d ↦ (false, rw (v, e, d) refl)
        | inr d ↦ elim (Bool-cases (bit_and a.iph.flags_off ip_mf == 0)) [
          | inl k ↦ (
            foreign,
            rw (v, e, d, some_offset, k)
                (ap (λ r. some (dispatched protos a.iph foreign r))
                  (ip_defrag_drops unset m buffer a.payload a.maclen a.iph h)),
          )
          | inr k ↦ (
            foreign,
            rw (v, e, d, some_offset, k)
                (ap (λ r. some (dispatched protos a.iph foreign r))
                  (ip_defrag_drops unset m buffer a.payload a.maclen a.iph h)),
          )
        ]
      ]
      | inr v ↦ (false, rw v refl)
    ]
