-- ===== src/Fs/Buffer/Miss.antt =====
-- A block that is not in the cache.
use prettyos.Common.{
  suc, ℕ, ◌≡◌, ◌≢◌, refl, sym, ap, ap₂, ◌∙◌, true, false, none, some, [], ◌==◌, arith,
}
use prettyos.Fs.Buffer.{
  BufferHead, Buffers, at_null, null, hashfn, hash, set_head, find_buffer, choose, fix_next,
  fix_prev, fix_hash, remove_from_queues, link_free, into_free, into_chain, insert_into_queues,
  reinserted, renamed, reuse, missed, looked_up, getblk,
}
use prettyos.Fs.Buffer.Search.{
  keeps, set_same, fix_next-Keeps, fix_prev-Keeps, fix_hash-Keeps, freed_bucket, find_buffer_lem,
  first_block,
}

removed_bucket :
    (s : Buffers) (a i : ℕ)
    → a ≢ null
    → (s.heads a).b_prev_free ≢ null
    → (s.heads a).b_next_free ≢ null
    → s.hash_buffer i ≡ null
    → (s' : Buffers) × (remove_from_queues a s ≡ some s') × (s'.hash_buffer i ≡ null)
unfolding remove_from_queues
removed_bucket s a i z p n e =
    let s1 = fix_next a s in
    let s2 = fix_prev a s1 in
    let s3 = fix_hash a s2 in
    let f : BufferHead → ℕ = λ b. b.b_prev_free in
    let g : BufferHead → ℕ = λ b. b.b_next_free in
    let f1 = fix_next-Keeps f s a i (λ b q. refl) in
    let f2 = fix_prev-Keeps f s1 a i (λ b q. refl) in
    let f3 = fix_hash-Keeps f s2 a i z in
    let g1 = fix_next-Keeps g s a i (λ b q. refl) in
    let g2 = fix_prev-Keeps g s1 a i (λ b q. refl) in
    let g3 = fix_hash-Keeps g s2 a i z in
    freed_bucket s3 a i (λ d. p (sym (f3.field ∙ f2.field ∙ f1.field) ∙ d))
      (λ d. n (sym (g3.field ∙ g2.field ∙ g1.field) ∙ d)) (f3.bucket (f2.bucket (f1.bucket e)))

-- A field that the links of the free list do not touch
into_free_keeps :
    (f : BufferHead → ℕ) (s : Buffers) (a : ℕ)
    → ((b : BufferHead) (p : ℕ) → f (record b { b_next_free = p }) ≡ f b)
    → ((b : BufferHead) (p : ℕ) → f (record b { b_prev_free = p }) ≡ f b)
    → f ((into_free a s).heads a) ≡ f (s.heads a)
unfolding into_free link_free
into_free_keeps f s a h k =
    let s0 = set_head s a (record (s.heads a) { b_next_free = s.buffer_free_list }) in
    let s1 = link_free a s in
    let p = (s1.heads s1.buffer_free_list).b_prev_free in
    keeps f s1 p a (record (s1.heads p) { b_next_free = a }) (h (s1.heads p) a)
    ∙ keeps f s0 a a
        (record (s0.heads a) { b_prev_free = (s0.heads s.buffer_free_list).b_next_free })
        (k (s0.heads a) (s0.heads s.buffer_free_list).b_next_free)
    ∙ keeps f s a a (record (s.heads a) { b_next_free = s.buffer_free_list })
        (h (s.heads a) s.buffer_free_list)

chain_faults :
    (s : Buffers) (a dev block : ℕ)
    → (s.heads a).b_dev ≡ dev
    → (s.heads a).b_blocknr ≡ block
    → dev ≢ 0
    → s.hash_buffer (hashfn dev block) ≡ null
    → into_chain a s ≡ none
unfolding into_chain hash set_head
chain_faults s a dev block d b n e =
    let c : ((s.heads a).b_dev == 0) ≡ false = ground arith in
    let q : s.hash_buffer (hashfn (s.heads a).b_dev (s.heads a).b_blocknr) ≡ null =
      ap₂ (λ x y. s.hash_buffer (hashfn x y)) d b ∙ e in
    let z : (s.hash_buffer (hashfn (s.heads a).b_dev (s.heads a).b_blocknr) == null) ≡ true =
      ap (λ x. x == null) q in
    rw c (rw z refl)

-- `insert_into_queues` of a buffer of a device, which is not 0, writes at NULL where the chain of its hash is empty.
insert_faults :
    (s : Buffers) (a dev block : ℕ)
    → (s.heads a).b_dev ≡ dev
    → (s.heads a).b_blocknr ≡ block
    → dev ≢ 0
    → s.hash_buffer (hashfn dev block) ≡ null
    → insert_into_queues a s ≡ none
unfolding insert_into_queues
insert_faults s a dev block d b n e =
    chain_faults (into_free a s) a dev block
      (into_free_keeps (λ x. x.b_dev) s a (λ x p. refl) (λ x p. refl) ∙ d)
      (into_free_keeps (λ x. x.b_blocknr) s a (λ x p. refl) (λ x p. refl) ∙ b) n
      (unfold into_free link_free set_head in e)

-- Where the chain of the hash of a block is empty, and the loop of `getblk` finds a buffer, not at
-- NULL, that is not locked and is linked in the free list, `getblk` of the block of a device, which
-- is not 0, writes at NULL.
pub getblk_faults :
    (fuel dev block a : ℕ) (s : Buffers)
    → s.hash_buffer (hashfn dev block) ≡ null
    → choose (suc fuel) s ≡ some a
    → a ≢ null
    → (s.heads a).b_lock ≡ 0
    → (s.heads a).b_prev_free ≢ null
    → (s.heads a).b_next_free ≢ null
    → dev ≢ 0
    → getblk (suc fuel) dev block s ≡ at_null
unfolding getblk looked_up missed reuse hash first_block
getblk_faults fuel dev block a s e c z l p n d =
    let q : find_buffer (suc fuel) s dev block ≡ some null =
      find_buffer_lem (suc fuel) s dev block [] e (omega arith) in
    let b : BufferHead = record (s.heads a) { b_count = 1; b_dirt = 0; b_uptodate = 0 } in
    let s1 = set_head s a b in
    let w : s1.heads a ≡ b = set_same s a b in
    let (s2, r, k) =
      removed_bucket s1 a (hashfn dev block) z
        (λ x. p (sym (ap (λ (y : BufferHead). y.b_prev_free) w) ∙ x))
        (λ x. n (sym (ap (λ (y : BufferHead). y.b_next_free) w) ∙ x)) (unfold set_head in e) in
    let b3 : BufferHead = record (s2.heads a) { b_dev = dev; b_blocknr = block } in
    let s3 = set_head s2 a b3 in
    let v : s3.heads a ≡ b3 = set_same s2 a b3 in
    let t =
      insert_faults s3 a dev block (ap (λ (y : BufferHead). y.b_dev) v)
        (ap (λ (y : BufferHead). y.b_blocknr) v) d (unfold set_head in k) in
    let na : (a == null) ≡ false = ground arith in
    let la : ((s.heads a).b_lock == 0) ≡ true = ground arith in
    ap (looked_up (suc fuel) dev block s) q
    ∙ ap (missed dev block s) c
    ∙ rw na (
        rw la (
          ap (renamed dev block a) r
          ∙ unfold renamed in ap (reinserted a) t ∙ unfold reinserted in refl))
