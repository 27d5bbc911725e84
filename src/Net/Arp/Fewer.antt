-- ===== src/Net/Arp/Fewer.antt =====
-- Each function of net/inet/arp.c that changes the table leaves no chain with more entries, and entries in their places.
use prettyos.Common.{
  ℕ, ◌≡◌, refl, sym, ap, subst, ◌∙◌, Bool, true, not, Option, none, some, List, [], ◌++◌, bit_or,
  ◌==◌, ltb, arith, Bool-cases, inl, inr, ==_iff, if◌then◌else◌,
}
use prettyos.Common.Int.{ℤ}
use mathlib.Core.Option.{some_inj, none-ne-some}
use prettyos.Net.Arp.{
  ArpEntry, Tables, hash, full_table_size, drop_where, on_chains, is_on, arp_device_event, at_first,
  at_place, is_entry, retried, is_complete, expired, with_chain, destory_loop, arp_destory,
  refreshed,
}
use prettyos.Net.Arp.Find.{
  Arpreq, Lookup, no_entry, first, beyond, arp_lookup, queued, touched, find_entry, arp_find,
  set_entry, set_found, arp_req_set, arp_req_get, deleted, with_tables, arp_ioctl,
}
use prettyos.Net.Arp.Chain.{
  Fewer, KeepsIp, Fewer-drop_where, Fewer-at_first, Fewer-destory_loop, with_chain-some,
}

abbrev pub tables_of : Option (ℤ × Tables) → Option Tables
tables_of none = none
tables_of (some (code, tables)) = some tables

abbrev pub AllFewer : Tables → Tables → Type 0
AllFewer new old = (i : ℕ) → Fewer i (new i) (old i)

pub AllFewer-same : (t : Tables) → AllFewer t t
AllFewer-same t i = ((λ h. h), omega arith)

pub on_chains-AllFewer :
    (test : ArpEntry → Bool) (t : Tables) → AllFewer (on_chains (drop_where test) t) t
unfolding on_chains
on_chains-AllFewer test t i = elim (Bool-cases (ltb i full_table_size)) [
  | inl c ↦ rw c (Fewer-drop_where i test (t i))
  | inr c ↦ rw c ((λ h. h), omega arith)
]

pub at_place-AllFewer :
    (place : ℕ) (test : ArpEntry → Bool) (f : ArpEntry → Option ArpEntry) (t : Tables)
    → KeepsIp f
    → AllFewer (at_place place (at_first test f) t) t
unfolding at_place
at_place-AllFewer place test f t k i = elim (Bool-cases (i == place)) [
  | inl c ↦ rw c (Fewer-at_first i test f (t i) k)
  | inr c ↦ rw c ((λ h. h), omega arith)
]

pub expired-KeepsIp : KeepsIp expired
unfolding expired retried
expired-KeepsIp e changed h = elim (Bool-cases (is_complete e)) [
  | inl c ↦
      let same : some e ≡ some changed = rw c at (h) in
      ap (λ (x : ArpEntry). x.ip) (sym (some_inj.0 same))
  | inr c ↦ elim (Bool-cases ((retried e).retries == 0)) [
    | inl k ↦ elim (none-ne-some changed (rw k at (rw c at (h)))) [ ]
    | inr k ↦
        let same : some (retried e) ≡ some changed = rw k at (rw c at (h)) in
        ap (λ (x : ArpEntry). x.ip) (sym (some_inj.0 same))
  ]
]

some-KeepsIp :
    (g : ArpEntry → ArpEntry) → ((e : ArpEntry) → (g e).ip ≡ e.ip) → KeepsIp (λ e. some (g e))
some-KeepsIp g same e changed h = ap (λ (x : ArpEntry). x.ip) (sym (some_inj.0 h)) ∙ same e

touched-KeepsIp : (now : ℕ) → KeepsIp (touched now)
unfolding touched
touched-KeepsIp now = some-KeepsIp (λ e. record e { last_used = now }) (λ e. refl)

queued-KeepsIp : (skb : List ℕ) → KeepsIp (queued skb)
unfolding queued
queued-KeepsIp skb = some-KeepsIp (λ e. record e { skh = e.skh ++ skb }) (λ e. refl)

pub refreshed-KeepsIp : (now : ℕ) (sha : List ℕ) → KeepsIp (refreshed now sha)
unfolding refreshed
refreshed-KeepsIp now sha =
    some-KeepsIp
      (λ e. record e { ha = sha; last_used = now; skh = if is_complete e then [] else e.skh })
      (λ e. refl)

set_entry-KeepsIp : (now : ℕ) (req : Arpreq) → KeepsIp (set_entry now req)
unfolding set_entry
set_entry-KeepsIp now req =
    some-KeepsIp (λ e. record e { ha = req.ha; last_used = now; flags = bit_or req.flags 0x02 })
      (λ e. refl)

placed-AllFewer :
    (place : ℕ) (c : List ArpEntry) (t : Tables)
    → ((i : ℕ) → Fewer i c (t place))
    → AllFewer (at_place place (λ old. c) t) t
unfolding at_place
placed-AllFewer place c t h i = elim (Bool-cases (i == place)) [
  | inl k ↦ rw k (subst (λ j. Fewer i c (t j)) (sym ((==_iff i place).0 k)) (h i))
  | inr k ↦ rw k ((λ a. a), omega arith)
]

pub arp_destory-AllFewer :
    (fuel ip : ℕ) (force : Bool) (t after : Tables)
    → arp_destory fuel ip force t ≡ some after
    → AllFewer after t
unfolding arp_destory with_chain
arp_destory-AllFewer fuel ip force t after h =
    let (c, ended) =
      with_chain-some (hash ip) t after (destory_loop fuel ip force (t (hash ip))) h in
    let result : some (at_place (hash ip) (λ old. c) t) ≡ some after =
      sym (ap (with_chain (hash ip) t) ended) ∙ h in
    subst (λ a. AllFewer a t) (some_inj.0 result)
      (placed-AllFewer (hash ip) c t
        (λ i. Fewer-destory_loop i fuel ip force (t (hash ip)) c ended))

find_entry-AllFewer :
    (now paddr : ℕ) (skb : List ℕ) (t : Tables) (l : Lookup)
    → AllFewer (find_entry now paddr skb t l).1 t
unfolding find_entry
find_entry-AllFewer now paddr skb t no_entry = AllFewer-same t
find_entry-AllFewer now paddr skb t beyond = AllFewer-same t
find_entry-AllFewer now paddr skb t (first e) = elim (Bool-cases (is_complete e)) [
  | inl c ↦
      rw c (at_place-AllFewer (hash paddr) (is_entry e.id) (touched now) t (touched-KeepsIp now))
  | inr c ↦
      rw c (at_place-AllFewer (hash paddr) (is_entry e.id) (queued skb) t (queued-KeepsIp skb))
]

pub arp_find-AllFewer :
    (now chk : ℕ) (is_ether : Bool) (paddr : ℕ) (skb : List ℕ) (t : Tables)
    → AllFewer (arp_find now chk is_ether paddr skb t).1 t
unfolding arp_find
arp_find-AllFewer now chk is_ether paddr skb t = elim (Bool-cases (chk == 1)) [
  | inl c ↦ rw c (AllFewer-same t)
  | inr c ↦ elim (Bool-cases (chk == 4)) [
    | inl d ↦ rw (c, d) (AllFewer-same t)
    | inr d ↦ elim (Bool-cases (chk == 3)) [
      | inl k ↦ rw (c, d, k) (AllFewer-same t)
      | inr k ↦ rw (c, d, k) (find_entry-AllFewer now paddr skb t (arp_lookup paddr t))
    ]
  ]
]

set_found-AllFewer :
    (now : ℕ) (req : Arpreq) (t after : Tables) (l : Lookup)
    → tables_of (set_found now req t l) ≡ some after
    → AllFewer after t
unfolding set_found
set_found-AllFewer now req t after no_entry h =
    subst (λ a. AllFewer a t) (some_inj.0 h) (AllFewer-same t)
set_found-AllFewer now req t after beyond h = elim (none-ne-some after h) [ ]
set_found-AllFewer now req t after (first e) h =
    subst (λ a. AllFewer a t) (some_inj.0 h)
      (at_place-AllFewer (hash req.ip) (is_entry e.id) (set_entry now req) t
        (set_entry-KeepsIp now req))

pub same_tables : (t after : Tables) → some t ≡ some after → AllFewer after t
same_tables t after h = subst (λ a. AllFewer a t) (some_inj.0 h) (AllFewer-same t)

arp_req_set-AllFewer :
    (now : ℕ) (req : Arpreq) (t after : Tables)
    → tables_of (arp_req_set now req t) ≡ some after
    → AllFewer after t
unfolding arp_req_set
arp_req_set-AllFewer now req t after h = elim (Bool-cases (not (req.family == 1))) [
  | inl c ↦ same_tables t after (rw c at (h))
  | inr c ↦ elim (Bool-cases (req.ip == 0)) [
    | inl d ↦ same_tables t after (rw d at (rw c at (h)))
    | inr d ↦ set_found-AllFewer now req t after (arp_lookup req.ip t) (rw d at (rw c at (h)))
  ]
]

with_tables-AllFewer :
    (t after : Tables) (o : Option (ℤ × Arpreq))
    → tables_of (with_tables t o) ≡ some after
    → AllFewer after t
unfolding with_tables
with_tables-AllFewer t after none h = elim (none-ne-some after h) [ ]
with_tables-AllFewer t after (some (code, req)) h = same_tables t after h

tables_of-deleted : (o : Option Tables) → tables_of (deleted o) ≡ o
unfolding deleted
tables_of-deleted none = refl
tables_of-deleted (some t) = refl

pub arp_ioctl-AllFewer :
    (fuel now cmd : ℕ) (req : Arpreq) (t after : Tables)
    → tables_of (arp_ioctl fuel now cmd req t) ≡ some after
    → AllFewer after t
unfolding arp_ioctl
arp_ioctl-AllFewer fuel now cmd req t after h = elim (Bool-cases (cmd == 0x8850)) [
  | inl c ↦ elim (Bool-cases (req.family == 2)) [
    | inl d ↦
        arp_destory-AllFewer fuel req.ip true t after
          (sym (tables_of-deleted (arp_destory fuel req.ip true t)) ∙ (rw d at (rw c at (h))))
    | inr d ↦ same_tables t after (rw d at (rw c at (h)))
  ]
  | inr c ↦ elim (Bool-cases (cmd == 0x8851)) [
    | inl d ↦ with_tables-AllFewer t after (arp_req_get req t) (rw d at (rw c at (h)))
    | inr d ↦ elim (Bool-cases (cmd == 0x8852)) [
      | inl k ↦ arp_req_set-AllFewer now req t after (rw k at (rw d at (rw c at (h))))
      | inr k ↦ same_tables t after (rw k at (rw d at (rw c at (h))))
    ]
  ]
]

pub arp_device_event-AllFewer :
    (event dev : ℕ) (t : Tables) → AllFewer (arp_device_event event dev t) t
unfolding arp_device_event
arp_device_event-AllFewer event dev t = elim (Bool-cases (event == 2)) [
  | inl c ↦ rw c (on_chains-AllFewer (is_on dev) t)
  | inr c ↦ rw c (AllFewer-same t)
]
