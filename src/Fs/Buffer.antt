-- ===== src/Fs/Buffer.antt =====
-- The buffer cache, fs/buffer_head.c: the buffers by address, the hash table of chains that end at NULL, and the
-- ring of free buffers. NULL is 0. A call that would sleep on a buffer ends there.
mod Tests
pub mod Search
pub mod Miss
pub mod Choice
use prettyos.Common.{
  ℕ, zero, suc, ◌+◌, ◌-◌, ◌*◌, ◌%◌, ◌^◌, bit_xor, Bool, true, false, not, ◌&&◌, ◌||◌, Option, none,
  some, List, [], ◌∷◌, ltb, ◌==◌, if◌then◌else◌,
}

pub record BufferHead : Type 0 where
  pub b_dev : ℕ
  pub b_blocknr : ℕ
  pub b_count : ℕ
  pub b_dirt : ℕ
  pub b_uptodate : ℕ
  pub b_lock : ℕ
  pub b_next : ℕ
  pub b_prev : ℕ
  pub b_next_free : ℕ
  pub b_prev_free : ℕ

pub record Buffers : Type 0 where
  pub heads : ℕ → BufferHead
  pub hash_buffer : ℕ → ℕ
  pub buffer_free_list : ℕ

abbrev pub null : ℕ
null = 0

abbrev pub nr_hash_buffer : ℕ
nr_hash_buffer = 107

unfoldable pub hashfn : ℕ → ℕ → ℕ
hashfn dev block = bit_xor dev block % nr_hash_buffer

unfoldable pub hash : Buffers → ℕ → ℕ → ℕ
hash s dev block = s.hash_buffer (hashfn dev block)

unfoldable pub set_head : Buffers → ℕ → BufferHead → Buffers
set_head s a b = record s { heads = λ k. if a == k then b else s.heads k }

unfoldable pub set_hash : Buffers → ℕ → ℕ → ℕ → Buffers
set_hash s dev block a = record s {
  hash_buffer = λ k. if hashfn dev block == k then a else s.hash_buffer k;
}

unfoldable pub is_block : Buffers → ℕ → ℕ → ℕ → Bool
is_block s dev block a = ((s.heads a).b_dev == dev) && ((s.heads a).b_blocknr == block)

-- The loop of `find_buffer` from the buffer `bh`, on fuel; the outer option is the fuel, 0 is NULL.
unfoldable pub find_loop : ℕ → Buffers → ℕ → ℕ → ℕ → Option ℕ
find_loop zero s dev block bh = none
find_loop (suc fuel) s dev block bh = elim (bh == null) [
  | true ↦ some null
  | false ↦ elim (is_block s dev block bh) [
    | true ↦ some bh
    | false ↦ find_loop fuel s dev block (s.heads bh).b_next
  ]
]

unfoldable pub find_buffer : ℕ → Buffers → ℕ → ℕ → Option ℕ
find_buffer fuel s dev block = find_loop fuel s dev block (hash s dev block)

-- What a call comes to: a read or a write at NULL, a panic, sleep, no fuel, or a buffer and the state
pub data Block : Type 0 where
  at_null : Block
  panicked : Block
  sleeps : Block
  ran_out : Block
  got : ℕ → Buffers → Block

unfoldable pub badness : BufferHead → ℕ
badness b = (b.b_dirt * 2 + b.b_blocknr) % 2 ^ 32

-- The test of the loop of `getblk` for the buffer `item`, where `bh` is the best so far
unfoldable pub is_better : Buffers → ℕ → ℕ → Bool
is_better s bh item = (bh == null) || ltb (badness (s.heads item)) (badness (s.heads bh))

unfoldable pub is_taken : Buffers → ℕ → ℕ → Bool
is_taken s bh item = ((s.heads item).b_count == 0) && is_better s bh item

-- `bh` after a round
unfoldable pub pick_one : Buffers → ℕ → ℕ → ℕ
pick_one s bh item = if is_taken s bh item then item else bh

unfoldable pub stops : Buffers → ℕ → ℕ → Bool
stops s bh item = is_taken s bh item && (badness (s.heads item) == 0)

-- The loop, on fuel: from `item` around the ring, to the best buffer that is not in use, or NULL
unfoldable pub choose_loop : ℕ → Buffers → ℕ → ℕ → Option ℕ
choose_loop zero s item bh = none
choose_loop (suc fuel) s item bh = elim (stops s bh item) [
  | true ↦ some item
  | false ↦ elim ((s.heads item).b_next_free == s.buffer_free_list) [
    | true ↦ some (pick_one s bh item)
    | false ↦ choose_loop fuel s (s.heads item).b_next_free (pick_one s bh item)
  ]
]

unfoldable pub choose : ℕ → Buffers → Option ℕ
choose fuel s = choose_loop fuel s s.buffer_free_list null

-- `remove_from_queues`, whose panic is `none`: the neighbours in the chain, the hash table, and the free list
unfoldable pub fix_next : ℕ → Buffers → Buffers
fix_next a s =
    let n = (s.heads a).b_next in
    if n == null then s else set_head s n (record (s.heads n) { b_prev = (s.heads a).b_prev })

unfoldable pub fix_prev : ℕ → Buffers → Buffers
fix_prev a s =
    let p = (s.heads a).b_prev in
    if p == null then s else set_head s p (record (s.heads p) { b_next = (s.heads a).b_next })

unfoldable pub fix_hash : ℕ → Buffers → Buffers
fix_hash a s =
    let b = s.heads a in
    if hash s b.b_dev b.b_blocknr == a then set_hash s b.b_dev b.b_blocknr b.b_next else s

unfoldable pub free_next : ℕ → Buffers → Buffers
free_next a s =
    let p = (s.heads a).b_prev_free in
    set_head s p (record (s.heads p) { b_next_free = (s.heads a).b_next_free })

unfoldable pub free_prev : ℕ → Buffers → Buffers
free_prev a s =
    let n = (s.heads a).b_next_free in
    set_head s n (record (s.heads n) { b_prev_free = (s.heads a).b_prev_free })

unfoldable pub free_list : ℕ → Buffers → Buffers
free_list a s =
    if s.buffer_free_list == a then record s { buffer_free_list = (s.heads a).b_next_free } else s

unfoldable pub unfree : ℕ → Buffers → Option Buffers
unfree a s =
    if ((s.heads a).b_prev_free == null) || ((s.heads a).b_next_free == null)
    then none
    else some (free_list a (free_prev a (free_next a s)))

unfoldable pub remove_from_queues : ℕ → Buffers → Option Buffers
remove_from_queues a s = unfree a (fix_hash a (fix_prev a (fix_next a s)))

-- `insert_into_queues`: first the free list, then the chain of the hash, where `none` is the write at NULL for a buffer
-- that is the first of its chain.
unfoldable pub link_free : ℕ → Buffers → Buffers
link_free a s =
    let s0 = set_head s a (record (s.heads a) { b_next_free = s.buffer_free_list }) in
    set_head s0 a (record (s0.heads a) { b_prev_free = (s0.heads s.buffer_free_list).b_next_free })

unfoldable pub into_free : ℕ → Buffers → Buffers
into_free a s =
    let s1 = link_free a s in
    let p = (s1.heads s1.buffer_free_list).b_prev_free in
    set_head s1 p (record (s1.heads p) { b_next_free = a })

unfoldable pub into_chain : ℕ → Buffers → Option Buffers
into_chain a s =
    let b : BufferHead = record (s.heads a) { b_prev = null; b_next = null } in
    let s1 = set_head s a b in
    if b.b_dev == 0
    then some s1
    else if hash s1 b.b_dev b.b_blocknr == null
    then none
    else let n = hash s1 b.b_dev b.b_blocknr in
      let s2 = set_hash (set_head s1 a (record b { b_next = n })) b.b_dev b.b_blocknr a in
      some (set_head s2 n (record (s2.heads n) { b_prev = a }))

unfoldable pub insert_into_queues : ℕ → Buffers → Option Buffers
insert_into_queues a s = into_chain a (into_free a s)

-- The end of `getblk`, once the buffer is chosen and free
unfoldable pub reinserted : ℕ → Option Buffers → Block
reinserted a none = at_null
reinserted a (some s) = got a s

unfoldable pub renamed : ℕ → ℕ → ℕ → Option Buffers → Block
renamed dev block a none = panicked
renamed dev block a (some s) =
    reinserted a
      (insert_into_queues a (set_head s a (record (s.heads a) { b_dev = dev; b_blocknr = block })))

unfoldable pub reuse : ℕ → ℕ → ℕ → Buffers → Block
reuse dev block a s =
    if a == null
    then sleeps
    else if (s.heads a).b_lock == 0
    then renamed dev block a (
        remove_from_queues a
          (set_head s a (record (s.heads a) { b_count = 1; b_dirt = 0; b_uptodate = 0 })))
    else sleeps

-- `get_hash_buffer` counts the use and waits for the buffer.
unfoldable pub hit : ℕ → Buffers → Block
hit a s =
    let s' = set_head s a (record (s.heads a) { b_count = ((s.heads a).b_count + 1) % 2 ^ 8 }) in
    if (s.heads a).b_lock == 0 then got a s' else sleeps

unfoldable pub missed : ℕ → ℕ → Buffers → Option ℕ → Block
missed dev block s none = ran_out
missed dev block s (some a) = reuse dev block a s

unfoldable pub looked_up : ℕ → ℕ → ℕ → Buffers → Option ℕ → Block
looked_up fuel dev block s none = ran_out
looked_up fuel dev block s (some a) =
    if a == null then missed dev block s (choose fuel s) else hit a s

unfoldable pub getblk : ℕ → ℕ → ℕ → Buffers → Block
getblk fuel dev block s = looked_up fuel dev block s (find_buffer fuel s dev block)

unfoldable pub brelse : ℕ → Buffers → Block
brelse a s =
    if a == null
    then got a s
    else if (s.heads a).b_lock == 0
    then (if (s.heads a).b_count == 0
        then panicked
        else got a (set_head s a (record (s.heads a) { b_count = (s.heads a).b_count - 1 })))
    else sleeps
