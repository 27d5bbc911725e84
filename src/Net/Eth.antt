-- ===== src/Net/Eth.antt =====
-- The header of a frame: `eth_header` of net/eth.c and include/linux/if_ether.h. A buffer is a place in the
-- memory of Libc/Strings; NULL is 0.
mod Tests
use prettyos.Common.{
  ℕ, ◌+◌, ◌*◌, ◌/◌, ◌%◌, ◌^◌, ◌≤◌, ◌<◌, ◌≡◌, ◌≢◌, ◌⊎◌, refl, sym, ap, ◌∙◌, Bool, true, false, ◌==◌,
  if◌then◌else◌, arith, Bool-cases, inl, inr, ==_iff,
}
use prettyos.Common.Int.{ℤ, pos, neg}
use prettyos.Libc.Strings.{Mem, null, store}
use prettyos.Libc.Klibc.{
  Apart, copy_loop, u_phys_copy, u_phys_copy_at, copy_loop_in, copy_loop_out, copy_loop_end_at,
  store_same, store_other,
}

-- What is written to the header, for a device's lengths of header and address
unfoldable pub with_source : Mem → ℕ → ℕ → ℕ → ℕ → Mem
with_source m buff addr_len len saddr =
    let m1 = store (store m (buff + 12) (len % 2 ^ 8)) (buff + 13) (len / 2 ^ 8 % 2 ^ 8) in
    if saddr == null then m1 else (u_phys_copy m1 (buff + 6) saddr addr_len).1

unfoldable pub eth_header : Mem → ℕ → ℕ → ℕ → ℕ → ℕ → ℕ → ℤ × Mem
eth_header m buff hard_header_len addr_len len daddr saddr =
    let m2 = with_source m buff addr_len len saddr in
    if daddr == null
    then (neg hard_header_len, m2)
    else (pos hard_header_len, (u_phys_copy m2 buff daddr addr_len).1)

-- A block of six bytes has no byte of the header.
abbrev pub OutsideHeader : ℕ → ℕ → Type 0
OutsideHeader buff a = (a + 6 ≤ buff) ⊎ (buff + 14 ≤ a)

-- With both addresses given and six bytes long, not in the header: the header has the destination,
-- then a 0 and the last five bytes of the source, then a 0 and the high byte of the length. Each copy
-- sets the byte behind it to 0.
pub eth_header_lem :
    (m : Mem) (buff hard_header_len len daddr saddr : ℕ)
    → 0 < buff
    → 0 < daddr
    → 0 < saddr
    → OutsideHeader buff daddr
    → OutsideHeader buff saddr
    → let n = (eth_header m buff hard_header_len 6 len daddr saddr).1 in
      ((k : ℕ) → k < 6 → n (buff + k) ≡ m (daddr + k))
      × (n (buff + 6) ≡ 0)
      × ((k : ℕ) → 0 < k → k < 6 → n (buff + 6 + k) ≡ m (saddr + k))
      × (n (buff + 12) ≡ 0)
      × (n (buff + 13) ≡ len / 2 ^ 8 % 2 ^ 8)
unfolding eth_header with_source
eth_header_lem m buff hard_header_len len daddr saddr a b c d e =
    let low = store m (buff + 12) (len % 2 ^ 8) in
    let m1 = store low (buff + 13) (len / 2 ^ 8 % 2 ^ 8) in
    let m2 = copy_loop 6 m1 (buff + 6) saddr in
    let same_dest : (daddr == null) ≡ false = ground arith in
    let same_source : (saddr == null) ≡ false = ground arith in
    let first : (u_phys_copy m1 (buff + 6) saddr 6).1 ≡ m2 =
      u_phys_copy_at m1 (buff + 6) saddr 6 (omega arith) c in
    let second : (u_phys_copy m2 buff daddr 6).1 ≡ copy_loop 6 m2 buff daddr =
      u_phys_copy_at m2 buff daddr 6 a b in
    let apart_dest : Apart buff daddr 6 = ground arith in
    let apart_source : Apart (buff + 6) saddr 6 = ground arith in
    let old : (i : ℕ) → (i < buff) ⊎ (buff + 14 ≤ i) → m2 i ≡ m i = λ i o.
      copy_loop_out 6 m1 (buff + 6) saddr i (ground arith)
      ∙ store_other low (buff + 13) (len / 2 ^ 8 % 2 ^ 8) i (ground arith)
      ∙ store_other m (buff + 12) (len % 2 ^ 8) i (ground arith) in
    rw same_dest (
      rw same_source (
        rw first (
          rw second (
            (λ k h. copy_loop_in 6 m2 buff daddr k apart_dest h ∙ old (daddr + k) (ground arith)),
            copy_loop_end_at 6 m2 buff daddr (buff + 6) refl,
            (λ k z h.
                copy_loop_out 6 m2 buff daddr (buff + 6 + k) (inr (omega arith))
                ∙ copy_loop_in 6 m1 (buff + 6) saddr k apart_source h
                ∙ store_other low (buff + 13) (len / 2 ^ 8 % 2 ^ 8) (saddr + k) (ground arith)
                ∙ store_other m (buff + 12) (len % 2 ^ 8) (saddr + k) (ground arith)),
            copy_loop_out 6 m2 buff daddr (buff + 12) (inr (omega arith))
                ∙ copy_loop_end_at 6 m1 (buff + 6) saddr (buff + 12) (omega arith),
            copy_loop_out 6 m2 buff daddr (buff + 13) (inr (omega arith))
                ∙ copy_loop_out 6 m1 (buff + 6) saddr (buff + 13) (inr (omega arith))
                ∙ store_same low (buff + 13) (len / 2 ^ 8 % 2 ^ 8) (buff + 13) refl,
          ))))
