-- ===== src/Net/Arp/Closed.antt =====
-- Sequences of calls of the functions of net/inet/arp.c that change its table.
use prettyos.Common.{
  ℕ, ◌≡◌, sym, ap, subst, ◌∙◌, Bool, true, false, Bool-cases, if◌then◌else◌, Option, none, some,
  List, [], ◌∷◌, arith, Option-cases, inl, inr,
}
use mathlib.Core.Option.{some_inj, none-ne-some}
use prettyos.Net.Arp.{
  ArpEntry, Tables, hash, is_old, arp_check_expire, arp_device_event, is_entry, expired,
  arp_expire_request, arp_destory, is_sender, refreshed, arp_learn,
}
use prettyos.Net.Arp.Find.{
  Resolved, own_address, multicast, broadcast, known, waiting, requested, astray, Arpreq, arp_find,
  arp_ioctl,
}
use prettyos.Net.Arp.Fewer.{
  tables_of, AllFewer, same_tables, on_chains-AllFewer, at_place-AllFewer, expired-KeepsIp,
  refreshed-KeepsIp, arp_destory-AllFewer, arp_find-AllFewer, arp_ioctl-AllFewer,
  arp_device_event-AllFewer,
}

-- The arguments of each call, without the fuel
pub data ArpCall : Type 0 where
  check_expire : ℕ → ArpCall
  device_event : ℕ → ℕ → ArpCall
  expire_request : ArpEntry → ArpCall
  destory : ℕ → Bool → ArpCall
  learn : ℕ → ℕ → ℕ → List ℕ → ArpCall
  find : ℕ → ℕ → Bool → ℕ → List ℕ → ArpCall
  ioctl : ℕ → ℕ → Arpreq → ArpCall

abbrev is_astray : Resolved → Bool
is_astray astray = true
is_astray own_address = false
is_astray (multicast ha) = false
is_astray broadcast = false
is_astray (known ha) = false
is_astray waiting = false
is_astray requested = false

-- The tables after a look-up; none where it goes on behind the table
abbrev found : Resolved × Tables → Option Tables
found out = if is_astray out.0 then none else some out.1

-- The tables after a call, if it ends and does not leave the table
abbrev pub arp_call : ℕ → ArpCall → Tables → Option Tables
arp_call fuel (check_expire now) t = some (arp_check_expire now t)
arp_call fuel (device_event event dev) t = some (arp_device_event event dev t)
arp_call fuel (expire_request e) t = some (arp_expire_request e t).1
arp_call fuel (destory ip force) t = arp_destory fuel ip force t
arp_call fuel (learn now sip htype sha) t = some (arp_learn now sip htype sha t)
arp_call fuel (find now chk is_ether paddr skb) t = found (arp_find now chk is_ether paddr skb t)
arp_call fuel (ioctl now cmd req) t = tables_of (arp_ioctl fuel now cmd req t)

found-AllFewer :
    (out : Resolved × Tables) (t after : Tables)
    → AllFewer out.1 t
    → found out ≡ some after
    → AllFewer after t
found-AllFewer out t after f h = elim (Bool-cases (is_astray out.0)) [
  | inl c ↦ absurd (none-ne-some after (rw c at (h)))
  | inr c ↦ subst (λ a. AllFewer a t) (some_inj.0 (rw c at (h))) f
]

arp_call-AllFewer :
    (fuel : ℕ) (c : ArpCall) (t after : Tables) → arp_call fuel c t ≡ some after → AllFewer after t
unfolding arp_check_expire arp_expire_request arp_learn
arp_call-AllFewer fuel (check_expire now) t after h =
    subst (λ a. AllFewer a t) (some_inj.0 h) (on_chains-AllFewer (is_old now) t)
arp_call-AllFewer fuel (device_event event dev) t after h =
    subst (λ a. AllFewer a t) (some_inj.0 h) (arp_device_event-AllFewer event dev t)
arp_call-AllFewer fuel (expire_request e) t after h =
    subst (λ a. AllFewer a t) (some_inj.0 h)
      (at_place-AllFewer (hash e.ip) (is_entry e.id) expired t expired-KeepsIp)
arp_call-AllFewer fuel (destory ip force) t after h = arp_destory-AllFewer fuel ip force t after h
arp_call-AllFewer fuel (learn now sip htype sha) t after h =
    subst (λ a. AllFewer a t) (some_inj.0 h)
      (at_place-AllFewer (hash sip) (is_sender sip htype) (refreshed now sha) t
        (refreshed-KeepsIp now sha))
arp_call-AllFewer fuel (find now chk is_ether paddr skb) t after h =
    found-AllFewer (arp_find now chk is_ether paddr skb t) t after
      (arp_find-AllFewer now chk is_ether paddr skb t) h
arp_call-AllFewer fuel (ioctl now cmd req) t after h = arp_ioctl-AllFewer fuel now cmd req t after h

abbrev pub and_on : Option Tables → (Tables → Option Tables) → Option Tables
and_on none f = none
and_on (some t) f = f t

-- The tables after a sequence of calls
abbrev pub arp_calls : ℕ → List ArpCall → Tables → Option Tables
arp_calls fuel [] t = some t
arp_calls fuel (c ∷ cs) t = and_on (arp_call fuel c t) (arp_calls fuel cs)

AllFewer-trans : (a b c : Tables) → AllFewer a b → AllFewer b c → AllFewer a c
AllFewer-trans a b c h k i = ((λ p. (h i).0 ((k i).0 p)), omega (arith, (h i).1, (k i).1))

-- After any sequence of calls of the functions that change the table, if the calls end and stay in the table: where
-- each entry of a chain stood in the chain of its address, it still does, and no chain has more entries than before.
pub arp_calls-AllFewer :
    (fuel : ℕ) (cs : List ArpCall) (t after : Tables)
    → arp_calls fuel cs t ≡ some after
    → AllFewer after t
arp_calls-AllFewer fuel [] t after h = same_tables t after h
arp_calls-AllFewer fuel (c ∷ cs) t after h = elim (Option-cases (arp_call fuel c t)) [
  | inl n ↦ elim (none-ne-some after (sym (ap (λ o. and_on o (arp_calls fuel cs)) n) ∙ h)) [ ]
  | inr (between, s) ↦
      let later : arp_calls fuel cs between ≡ some after =
        sym (ap (λ o. and_on o (arp_calls fuel cs)) s) ∙ h in
      AllFewer-trans after between t (arp_calls-AllFewer fuel cs between after later)
        (arp_call-AllFewer fuel c t between s)
]
