-- ===== src/Net/Ip/Split.antt =====
-- `ip_fragment` of net/inet/ip.c, up to the call of `ip_queue_xmit` in each round. The buffer `skb2` is never set: the call
-- of `alloc_skb` is compiled out, and the address of its data is stored in `skb`. Both copies of a round go to the address
-- that happens to stand in `skb2->h.raw`, which is an argument. What they overwrite is not followed: the device is
-- taken to stay as it is; all else that the loop reads are local variables.
use prettyos.Common.{
  ℕ, zero, suc, ◌+◌, ◌-◌, ◌*◌, ◌/◌, ◌%◌, ◌^◌, ◌≤◌, ◌<◌, ◌≡◌, ◌⊎◌, bit_and, bit_or, Bool, true,
  false, not, ◌||◌, Option, none, some, List, [], ◌∷◌, ◌==◌, ltb, if◌then◌else◌,
}
use prettyos.Net.Ip.{Iphdr, ip_offset, ip_df, ip_mf}

-- A round: the headers are copied to `to`, `len` bytes from `ptr` on behind them, and `flags_off` is stored in the header at `to`.
pub record Piece : Type 0 where
  pub offset : ℕ
  pub flags_off : ℕ
  pub ptr : ℕ
  pub len : ℕ
  pub to : ℕ

unfoldable pub piece_len : ℕ → ℕ → ℕ
piece_len left mtu =
    let len = if ltb mtu left then mtu else left in if ltb len left then len / 8 * 8 else len

-- `marked` is the mark of the datagram itself, `is_flag & 1`.
unfoldable pub piece_flags : ℕ → Bool → ℕ
piece_flags offset more =
    let field = offset / 8 % 2 ^ 16 in if more then bit_or field ip_mf else field

abbrev piece_of : ℕ → Bool → ℕ → ℕ → ℕ → ℕ → Piece
piece_of mtu marked left ptr offset to =
    let len = piece_len left mtu in
    record {
      offset = offset;
      flags_off = piece_flags offset (ltb 0 (left - len) || marked);
      ptr = ptr;
      len = len;
      to = to;
    }

unfoldable pub and_then : Piece → Option (List Piece) → Option (List Piece)
and_then p none = none
and_then p (some ps) = some (p ∷ ps)

-- `while(left > 0)`; `none` means that the fuel ran out. `to` is `skb2->h.raw`, and `hard` the length of the device's header.
unfoldable pub split_loop : ℕ → ℕ → ℕ → Bool → ℕ → ℕ → ℕ → ℕ → Option (List Piece)
split_loop zero hard mtu marked left ptr offset to = if left == 0 then some [] else none
split_loop (suc fuel) hard mtu marked left ptr offset to =
    let len = piece_len left mtu in
    let rest =
      split_loop fuel hard mtu marked (left - len) (ptr + len) (offset + len) (to + hard) in
    if left == 0 then some [] else and_then (piece_of mtu marked left ptr offset to) rest

unfoldable pub first_offset : ℕ → ℕ → ℕ
first_offset flags_off is_flag =
    if bit_and is_flag 3 == 0 then 0 else bit_and flags_off ip_offset * 8

-- `raw` is the start of the buffer, and `to` what stands in `skb2->h.raw`; a negative `left` or `mtu` is 0 here, which the
-- tests treat alike.
unfoldable pub ip_fragment : ℕ → Iphdr → ℕ → ℕ → ℕ → ℕ → ℕ → Option (List Piece)
ip_fragment fuel iph raw hard dev_mtu is_flag to =
    let hlen = iph.ihl * 4 + hard in
    let mtu = dev_mtu - hlen in
    if not (bit_and iph.flags_off ip_df == 0)
    then some []
    else if ltb mtu 8
    then some []
    else split_loop fuel hard mtu (not (bit_and is_flag 1 == 0)) (iph.tot_len - iph.ihl * 4)
        (raw + hlen) (first_offset iph.flags_off is_flag) to

-- The number of bytes in all pieces
abbrev pub total : List Piece → ℕ
total [] = 0
total (p ∷ ps) = p.len + total ps

abbrev pub IsLast : List Piece → Type 0
IsLast ps = ps ≡ []

abbrev is_last : List Piece → Bool
is_last [] = true
is_last (p ∷ ps) = false

-- Pieces that begin one where the one before ends, none empty or above the limit, each but the last a
-- multiple of 8 bytes long, and marked unless it is the last of a datagram that was not marked; each is copied to
-- the address of the one before moved on by `hard`.
abbrev pub IsCut : ℕ → ℕ → Bool → ℕ → ℕ → ℕ → List Piece → Type 0
IsCut hard mtu marked ptr offset to [] = Unit
IsCut hard mtu marked ptr offset to (p ∷ ps) =
    (p.ptr ≡ ptr)
    × (p.offset ≡ offset)
    × (p.to ≡ to)
    × (0 < p.len)
    × (p.len ≤ mtu)
    × ((p.len % 8 ≡ 0) ⊎ IsLast ps)
    × (p.flags_off ≡ piece_flags p.offset (not (is_last ps) || marked))
    × IsCut hard mtu marked (ptr + p.len) (offset + p.len) (to + hard) ps

-- A list of pieces for a range of bytes
abbrev pub IsSplit : ℕ → ℕ → Bool → ℕ → ℕ → ℕ → ℕ → List Piece → Type 0
IsSplit hard mtu marked left ptr offset to ps =
    (total ps ≡ left) × IsCut hard mtu marked ptr offset to ps
