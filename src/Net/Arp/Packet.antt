-- ===== src/Net/Arp/Packet.antt =====
-- The packets of net/inet/arp.c: `arp_send`, up to the compiled-out call that would send the buffer, and `arp_rcv`.
-- `struct arphdr` takes 8 bytes; its one byte `ar_op` is the seventh. Numbers stand in memory with the low byte first.
use prettyos.Common.{
  ℕ, ◌+◌, ◌*◌, ◌/◌, ◌%◌, ◌^◌, ◌≤◌, ◌<◌, ◌≡◌, ◌≢◌, ◌↔◌, refl, sym, ap, ◌∙◌, Bool, true, false, not,
  ◌&&◌, ◌||◌, ◌==◌, if◌then◌else◌, arith, Bool-cases, inl, inr, ==_iff,
}
use prettyos.Common.Int.{pos}
use prettyos.Libc.Strings.{Mem, null, store, memset}
use prettyos.Libc.Klibc.{store_word, u_phys_copy, store_other}
use prettyos.Net.Eth.{eth_header}
use prettyos.Net.Skbuff.{alloc_skb}

pub record ArpDevice : Type 0 where
  pub addr_len : ℕ
  pub hard_header_len : ℕ
  pub type : ℕ
  pub pa_addr : ℕ
  pub no_arp : Bool
  pub dev_addr : ℕ
  pub broadcast : ℕ

abbrev gfp_atomic : ℕ
gfp_atomic = 2

unfoldable pub store_long : Mem → ℕ → ℕ → Mem
store_long m a v = store_word (store_word m a (v % 2 ^ 16)) (a + 2) (v / 2 ^ 16 % 2 ^ 16)

-- `memncpy` from a variable of four bytes
unfoldable pub copy_long : Mem → ℕ → ℕ → Mem
copy_long m a v = store (store_long m a v) (a + 4) 0

unfoldable pub read_long : Mem → ℕ → ℕ
read_long m a = m a + m (a + 1) * 2 ^ 8 + m (a + 2) * 2 ^ 16 + m (a + 3) * 2 ^ 24

-- The header at an address
unfoldable pub arp_header : Mem → ℕ → ArpDevice → ℕ → Mem
arp_header m arph dev type =
    let m1 = store_word (store_word m arph dev.type) (arph + 2) 0x0800 in
    store (store (store m1 (arph + 4) dev.addr_len) (arph + 5) 4) (arph + 6) type

-- The addresses behind the header; `dest_hw` may be NULL.
unfoldable pub arp_data : Mem → ℕ → ℕ → ℕ → ℕ → ℕ → ℕ → Mem
arp_data m arp_ptr addr_len src_hw src_ip dest_hw dest_ip =
    let m1 = (u_phys_copy m arp_ptr src_hw addr_len).1 in
    let m2 = copy_long m1 (arp_ptr + addr_len) src_ip in
    let dest = arp_ptr + addr_len + 4 in
    let m3 =
      if dest_hw == null
      then (memset m2 dest 0 (pos addr_len)).1
      else (u_phys_copy m2 dest dest_hw addr_len).1 in
    copy_long m3 (dest + addr_len) dest_ip

-- What is written to the buffer whose data are at `buffer`
unfoldable pub arp_packet : Mem → ℕ → ℕ → ℕ → ArpDevice → ℕ → ℕ → ℕ → Mem
arp_packet m buffer type dest_ip dev src_ip dest_hw src_hw =
    let len = 8 + dev.hard_header_len + 2 * (dev.addr_len + 4) in
    let dest = if dest_hw == null then dev.broadcast else dest_hw in
    let m1 = (eth_header m buffer dev.hard_header_len dev.addr_len len dest src_hw).1 in
    let arph = buffer + dev.hard_header_len in
    arp_data (arp_header m1 arph dev type) (arph + 8) dev.addr_len src_hw src_ip dest_hw dest_ip

-- `data` is the field of a buffer. As `alloc_skb` always gives NULL, nothing is ever written.
unfoldable pub arp_send : Mem → (ℕ → ℕ) → ℕ → ℕ → ℕ → ArpDevice → ℕ → ℕ → ℕ → Mem
arp_send m data_of type ptype dest_ip dev src_ip dest_hw src_hw =
    let skb = alloc_skb (8 + 2 * (dev.addr_len + 4) + dev.hard_header_len) gfp_atomic in
    if dev.no_arp
    then m
    else if skb == null
    then m
    else arp_packet m (data_of skb) type dest_ip dev src_ip dest_hw src_hw

-- The packet ignored, or the sender's address that is learnt and whether `arp_send` was called to reply
pub data ArpHeard : Type 0 where
  ignored : ArpHeard
  heard : ℕ → Bool → ArpHeard

-- The two tests of the header, with the fields of `struct arphdr` at `arp`
unfoldable pub is_for : Mem → ℕ → ArpDevice → Bool
is_for m arp dev =
    (m (arp + 4) == dev.addr_len)
    && (m arp + m (arp + 1) * 2 ^ 8 == dev.type)
    && not dev.no_arp
    && (m (arp + 5) == 4)
    && ((dev.type == 3) || ((dev.type == 1) && (m (arp + 2) + m (arp + 3) * 2 ^ 8 == 0x0800)))

-- The sender's address, read after the byte behind the hardware address was set to 0
unfoldable pub sender_of : Mem → ℕ → ℕ → ℕ
sender_of m arp_ptr hlen = read_long (store m (arp_ptr + hlen) 0) (arp_ptr + hlen)

-- `dip`: it is read where the target's hardware address stands, as `arp_ptr` is not moved past that.
unfoldable pub target_of : Mem → ℕ → ℕ → ℕ
target_of m arp_ptr hlen =
    let dha = arp_ptr + hlen + 4 in
    read_long (store (store m (arp_ptr + hlen) 0) (dha + hlen) 0) dha

-- `chk` is `ip_chk_addr`.
unfoldable pub arp_rcv : (ℕ → ℕ) → ArpDevice → Mem → ℕ → ArpHeard
arp_rcv chk dev m arp =
    let dip = target_of m (arp + 8) dev.addr_len in
    let sip = sender_of m (arp + 8) dev.addr_len in
    if not (is_for m arp dev) || (dip == 0x7f000001)
    then ignored
    else if m (arp + 6) == 2
    then (if chk dip == 1 then heard sip false else ignored)
    else if dip == dev.pa_addr
    then heard sip true
    else ignored

abbrev pub is_answer : ArpHeard → Bool
is_answer ignored = false
is_answer (heard sip answered) = answered

-- The two bytes that are set to 0 are not those of the address.
target_lem : (m : Mem) (p n : ℕ) → 4 ≤ n → target_of m p n ≡ read_long m (p + n + 4)
unfolding target_of read_long
target_lem m p n h =
    let marked = store (store m (p + n) 0) (p + n + 4 + n) 0 in
    let same : (k : ℕ) → k < 4 → marked (p + n + 4 + k) ≡ m (p + n + 4 + k) = λ k b.
      store_other (store m (p + n) 0) (p + n + 4 + n) 0 (p + n + 4 + k) (inl (omega arith))
      ∙ store_other m (p + n) 0 (p + n + 4 + k) (inr (omega arith)) in
    let first : marked (p + n + 4) ≡ m (p + n + 4) =
      ap marked (omega arith) ∙ same 0 (omega arith) ∙ ap m (omega arith) in
    rw (first, same 1 (omega arith), same 2 (omega arith), same 3 (omega arith)) refl

answer_lem :
    (chk : ℕ → ℕ) (dev : ArpDevice) (m : Mem) (arp dip : ℕ)
    → target_of m (arp + 8) dev.addr_len ≡ dip
    → is_for m arp dev ≡ true
    → m (arp + 6) ≢ 2
    → dev.pa_addr ≢ 0x7f000001
    → is_answer (arp_rcv chk dev m arp) ≡ (dip == dev.pa_addr)
unfolding arp_rcv
answer_lem chk dev m arp dip e f request own =
    let no_reply : (m (arp + 6) == 2) ≡ false = ground arith in
    elim (Bool-cases (dip == dev.pa_addr)) [
      | inl c ↦
          let outside : (dip == 0x7f000001) ≡ false = ground arith in
          rw (f, e, outside, no_reply, c) refl
      | inr c ↦ elim (Bool-cases (dip == 0x7f000001)) [
        | inl d ↦ rw (f, e, d, c) refl
        | inr d ↦ rw (f, e, d, no_reply, c) refl
      ]
    ]

-- For a packet that passes the tests of its header and is no reply, and a device whose addresses have four bytes or more and
-- that does not have the address 127.0.0.1, `arp_rcv` calls `arp_send` to reply exactly if the four bytes behind the
-- sender's addresses, where the hardware address of the target stands, read as the address of the device.
pub arp_rcv_answers_iff :
    (chk : ℕ → ℕ) (dev : ArpDevice) (m : Mem) (arp : ℕ)
    → 4 ≤ dev.addr_len
    → is_for m arp dev ≡ true
    → m (arp + 6) ≢ 2
    → dev.pa_addr ≢ 0x7f000001
    → (is_answer (arp_rcv chk dev m arp) ≡ true)
      ↔ (read_long m (arp + 8 + dev.addr_len + 4) ≡ dev.pa_addr)
arp_rcv_answers_iff chk dev m arp long f request own =
    let dip = read_long m (arp + 8 + dev.addr_len + 4) in
    let e = answer_lem chk dev m arp dip (target_lem m (arp + 8) dev.addr_len long) f request own in
    ((λ a. (==_iff dip dev.pa_addr).0 (sym e ∙ a)), (λ b. e ∙ (==_iff dip dev.pa_addr).1 b))
