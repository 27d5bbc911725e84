-- ===== src/Net/Arp/Chain.antt =====
-- What the functions of net/inet/arp.c do to one chain of the table, and when `arp_destory` ends.
use prettyos.Common.{
  ℕ, zero, suc, ◌≤◌, ◌≡◌, ◌↔◌, refl, ap, subst, ◌∙◌, Bool, true, false, Option, none, some, List,
  [], ◌∷◌, All, length, ◌==◌, arith, Bool-cases, Option-cases, inl, inr, ==_iff, if◌then◌else◌,
}
use mathlib.Core.Option.{some_inj, none-ne-some}
use prettyos.Net.Arp.{
  ArpEntry, Tables, hash, drop_where, at_first, is_permanent, stays, next_chain, destory_loop,
  with_chain, at_place, arp_destory,
}

abbrev pub InPlace : ℕ → ArpEntry → Type 0
InPlace i e = hash e.ip ≡ i

-- A chain that has no more entries than another, and only such as belong into it if the other has.
abbrev pub Fewer : ℕ → List ArpEntry → List ArpEntry → Type 0
Fewer i new old = (All (InPlace i) old → All (InPlace i) new) × (length new ≤ length old)

pub Fewer-drop_where :
    (i : ℕ) (test : ArpEntry → Bool) (c : List ArpEntry) → Fewer i (drop_where test c) c
unfolding drop_where
Fewer-drop_where i test [] = ((λ h. tt), omega arith)
Fewer-drop_where i test (e ∷ es) =
    let later = Fewer-drop_where i test es in
    elim (Bool-cases (test e)) [
      | inl c ↦ rw c ((λ h. later.0 h.1), omega (arith, later.1))
      | inr c ↦ rw c ((λ h. (h.0, later.0 h.1)), omega (arith, later.1))
    ]

-- A change that leaves the address as it is.
abbrev pub KeepsIp : (ArpEntry → Option ArpEntry) → Type 0
KeepsIp f = (e changed : ArpEntry) → f e ≡ some changed → changed.ip ≡ e.ip

pub Fewer-at_first :
    (i : ℕ) (test : ArpEntry → Bool) (f : ArpEntry → Option ArpEntry) (c : List ArpEntry)
    → KeepsIp f
    → Fewer i (at_first test f c) c
unfolding at_first
Fewer-at_first i test f [] k = ((λ h. tt), omega arith)
Fewer-at_first i test f (e ∷ es) k = elim (Bool-cases (test e)) [
  | inl c ↦ elim (Option-cases (f e)) [
    | inl n ↦ rw (c, n) ((λ h. h.1), omega arith)
    | inr (changed, s) ↦ rw (c, s) ((λ h. (ap hash (k e changed s) ∙ h.0, h.1)), omega arith)
  ]
  | inr c ↦
      let later = Fewer-at_first i test f es k in
      rw c ((λ h. (h.0, later.0 h.1)), omega (arith, later.1))
]

Fewer-next_chain :
    (i ip : ℕ) (e : ArpEntry) (es : List ArpEntry) → Fewer i (next_chain ip e es) (e ∷ es)
unfolding next_chain
Fewer-next_chain i ip e es = elim (Bool-cases (e.ip == ip)) [
  | inl c ↦ rw c ((λ h. h.1), omega arith)
  | inr c ↦ rw c ((λ h. h), omega arith)
]

pub Fewer-destory_loop :
    (i fuel ip : ℕ) (force : Bool) (c rest : List ArpEntry)
    → destory_loop fuel ip force c ≡ some rest
    → Fewer i rest c
unfolding destory_loop
Fewer-destory_loop i fuel ip force [] rest h =
    subst (λ r. Fewer i r []) (some_inj.0 h) ((λ a. a), omega arith)
Fewer-destory_loop i zero ip force (e ∷ es) rest h = elim (none-ne-some rest h) [ ]
Fewer-destory_loop i (suc fuel) ip force (e ∷ es) rest h = elim (Bool-cases (stays ip force e)) [
  | inl c ↦
      let kept : some (e ∷ es) ≡ some rest = rw c at (h) in
      subst (λ r. Fewer i r (e ∷ es)) (some_inj.0 kept) ((λ a. a), omega arith)
  | inr c ↦
      let goes : destory_loop fuel ip force (next_chain ip e es) ≡ some rest = rw c at (h) in
      let later = Fewer-destory_loop i fuel ip force (next_chain ip e es) rest goes in
      let next = Fewer-next_chain i ip e es in
      ((λ a. later.0 (next.0 a)), omega (arith, later.1, next.1))
]

-- Every entry has the address.
abbrev pub AllAt : ℕ → List ArpEntry → Type 0
AllAt ip c = All (λ (e : ArpEntry). e.ip ≡ ip) c

forced : (ip : ℕ) (e : ArpEntry) → stays ip true e ≡ false
unfolding stays
forced ip e = elim (Bool-cases (e.ip == ip)) [
  | inl c ↦ rw c (elim (Bool-cases (is_permanent e)) [ inl k ↦ rw k refl | inr k ↦ rw k refl ])
  | inr c ↦ rw c refl
]

destory_loop-AllAt :
    (ip : ℕ) (c : List ArpEntry) → AllAt ip c → destory_loop (length c) ip true c ≡ some []
unfolding destory_loop next_chain
destory_loop-AllAt ip [] h = refl
destory_loop-AllAt ip (e ∷ es) h =
    let same : (e.ip == ip) ≡ true = (==_iff e.ip ip).1 h.0 in
    rw (forced ip e) (
      ap (λ b. destory_loop (length es) ip true (if b then es else e ∷ es)) same
      ∙ destory_loop-AllAt ip es h.1)

AllAt-next_chain :
    (ip : ℕ) (e : ArpEntry) (es : List ArpEntry) → AllAt ip (next_chain ip e es) → AllAt ip (e ∷ es)
unfolding next_chain
AllAt-next_chain ip e es h = elim (Bool-cases (e.ip == ip)) [
  | inl c ↦ let later : AllAt ip es = rw c at (h) in ((==_iff e.ip ip).0 c, later)
  | inr c ↦ rw c at (h)
]

AllAt-destory_loop :
    (fuel ip : ℕ) (c rest : List ArpEntry) → destory_loop fuel ip true c ≡ some rest → AllAt ip c
unfolding destory_loop
AllAt-destory_loop fuel ip [] rest h = tt
AllAt-destory_loop zero ip (e ∷ es) rest h = elim (none-ne-some rest h) [ ]
AllAt-destory_loop (suc fuel) ip (e ∷ es) rest h =
    AllAt-next_chain ip e es
      (AllAt-destory_loop fuel ip (next_chain ip e es) rest (rw (forced ip e) at (h)))

pub with_chain-some :
    (place : ℕ) (tables t : Tables) (o : Option (List ArpEntry))
    → with_chain place tables o ≡ some t
    → (c : List ArpEntry) × (o ≡ some c)
unfolding with_chain
with_chain-some place tables t none h = elim (none-ne-some t h) [ ]
with_chain-some place tables t (some c) h = (c, refl)

-- A forced `arp_destory` ends, for some number of rounds, exactly where all entries in the chain of the address have
-- that address; then the chain is empty.
pub arp_destory_iff :
    (ip : ℕ) (tables : Tables)
    → ((fuel : ℕ) × ((t : Tables) × (arp_destory fuel ip true tables ≡ some t)
          × (t (hash ip) ≡ [])))
      ↔ AllAt ip (tables (hash ip))
unfolding arp_destory with_chain at_place
arp_destory_iff ip tables =
    let chain = tables (hash ip) in
    (
      (λ h.
          let (c, ended) =
            with_chain-some (hash ip) tables h.1.0 (destory_loop h.0 ip true chain) h.1.1 in
          AllAt-destory_loop h.0 ip chain c ended),
      (λ a.
          let here : (hash ip == hash ip) ≡ true = (==_iff _ _).1 refl in
          (
            length chain,
            (
              at_place (hash ip) (λ old. []) tables,
              ap (with_chain (hash ip) tables) (destory_loop-AllAt ip chain a),
              rw here refl,
            ),
          )),
    )
