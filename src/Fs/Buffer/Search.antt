-- ===== src/Fs/Buffer/Search.antt =====
-- The search in a chain of the hash table, and a miss.
use prettyos.Common.{
  ℕ, zero, suc, ◌<◌, ◌≡◌, ◌≢◌, refl, sym, ap, ◌∙◌, true, false, ◌||◌, some, List, [], ◌∷◌, length,
  ◌==◌, if◌then◌else◌, arith, Bool-cases, inl, inr, ==_iff,
}
use prettyos.Fs.Buffer.{
  BufferHead, Buffers, null, hashfn, hash, set_head, set_hash, is_block, find_loop, find_buffer,
  fix_next, fix_prev, fix_hash, free_next, free_prev, free_list, unfree,
}

-- The buffers from a on, linked by `b_next`, to NULL
abbrev pub Chain : Buffers → ℕ → List ℕ → Type 0
Chain s a [] = a ≡ null
Chain s a (x ∷ xs) = (a ≡ x) × (x ≢ null) × Chain s (s.heads x).b_next xs

-- The first buffer of the list with the block, or NULL
unfoldable pub first_block : Buffers → ℕ → ℕ → List ℕ → ℕ
first_block s dev block [] = null
first_block s dev block (x ∷ xs) = if is_block s dev block x then x else first_block s dev block xs

find_loop_lem :
    (fuel : ℕ) (s : Buffers) (dev block a : ℕ) (xs : List ℕ)
    → Chain s a xs
    → length xs < fuel
    → find_loop fuel s dev block a ≡ some (first_block s dev block xs)
unfolding find_loop first_block
find_loop_lem zero s dev block a xs c l = absurd (omega arith)
find_loop_lem (suc fuel) s dev block a [] c l =
    let z : (a == null) ≡ true = ground arith in rw (z, find_loop) refl
find_loop_lem (suc fuel) s dev block a (x ∷ xs) c l =
    let e = c.0 in
    let n = c.1 in
    let z : (x == null) ≡ false = ground arith in
    rw e (
      rw (z, find_loop)
        (elim (Bool-cases (is_block s dev block x)) [
          | inl b ↦ rw (b, find_loop) refl
          | inr b ↦
              rw (b, find_loop)
                (find_loop_lem fuel s dev block (s.heads x).b_next xs c.2 (omega arith))
        ]))

-- On a chain that ends at NULL, with more rounds than it has buffers, `find_buffer` ends with the first of its buffers that
-- holds the block of the device, or with NULL where none does.
pub find_buffer_lem :
    (fuel : ℕ) (s : Buffers) (dev block : ℕ) (xs : List ℕ)
    → Chain s (hash s dev block) xs
    → length xs < fuel
    → find_buffer fuel s dev block ≡ some (first_block s dev block xs)
unfolding find_buffer
find_buffer_lem fuel s dev block xs c l = find_loop_lem fuel s dev block (hash s dev block) xs c l

pub set_same : (s : Buffers) (a : ℕ) (b : BufferHead) → (set_head s a b).heads a ≡ b
unfolding set_head
set_same s a b = let c : (a == a) ≡ true = ground arith in rw c refl

-- A field that a write of a buffer does not change
pub keeps :
    (f : BufferHead → ℕ) (s : Buffers) (k a : ℕ) (b : BufferHead)
    → f b ≡ f (s.heads k)
    → f ((set_head s k b).heads a) ≡ f (s.heads a)
unfolding set_head
keeps f s k a b e = elim (Bool-cases (k == a)) [
  | inl c ↦ rw c (e ∙ ap (λ z. f (s.heads z)) ((==_iff k a).0 c))
  | inr c ↦ rw c refl
]

-- A field that `remove_from_queues` reads on the way to the free list
pub record Keeps (f : BufferHead → ℕ) (s s' : Buffers) (a i : ℕ) : Type 0 where
  pub field : f (s'.heads a) ≡ f (s.heads a)
  pub bucket : s.hash_buffer i ≡ null → s'.hash_buffer i ≡ null

pub fix_next-Keeps :
    (f : BufferHead → ℕ) (s : Buffers) (a i : ℕ)
    → ((b : BufferHead) (p : ℕ) → f (record b { b_prev = p }) ≡ f b)
    → Keeps f s (fix_next a s) a i
unfolding fix_next
fix_next-Keeps f s a i h =
    let n = (s.heads a).b_next in
    elim (Bool-cases (n == null)) [
      | inl c ↦ rw c (record { field = refl; bucket = λ e. e })
      | inr c ↦ rw c (record {
        field =
            keeps f s n a (record (s.heads n) { b_prev = (s.heads a).b_prev })
              (h (s.heads n) (s.heads a).b_prev);
        bucket = λ e. unfold set_head in e;
      })
    ]

pub fix_prev-Keeps :
    (f : BufferHead → ℕ) (s : Buffers) (a i : ℕ)
    → ((b : BufferHead) (p : ℕ) → f (record b { b_next = p }) ≡ f b)
    → Keeps f s (fix_prev a s) a i
unfolding fix_prev
fix_prev-Keeps f s a i h =
    let p = (s.heads a).b_prev in
    elim (Bool-cases (p == null)) [
      | inl c ↦ rw c (record { field = refl; bucket = λ e. e })
      | inr c ↦ rw c (record {
        field =
            keeps f s p a (record (s.heads p) { b_next = (s.heads a).b_next })
              (h (s.heads p) (s.heads a).b_next);
        bucket = λ e. unfold set_head in e;
      })
    ]

set_hash_empty :
    (s : Buffers) (dev block a i : ℕ)
    → hash s dev block ≢ null
    → s.hash_buffer i ≡ null
    → (set_hash s dev block a).hash_buffer i ≡ null
unfolding set_hash hash
set_hash_empty s dev block a i n e = elim (Bool-cases (hashfn dev block == i)) [
  | inl c ↦ absurd (n (ap s.hash_buffer ((==_iff (hashfn dev block) i).0 c) ∙ e))
  | inr c ↦ rw c e
]

pub fix_hash-Keeps :
    (f : BufferHead → ℕ) (s : Buffers) (a i : ℕ) → a ≢ null → Keeps f s (fix_hash a s) a i
unfolding fix_hash
fix_hash-Keeps f s a i n =
    let b = s.heads a in
    elim (Bool-cases (hash s b.b_dev b.b_blocknr == a)) [
      | inl c ↦
          let e = (==_iff (hash s b.b_dev b.b_blocknr) a).0 c in
          rw c (record {
            field = unfold set_hash in refl;
            bucket = set_hash_empty s b.b_dev b.b_blocknr b.b_next i (λ d. n (sym e ∙ d));
          })
      | inr c ↦ rw c (record { field = refl; bucket = λ e. e })
    ]

-- The free list is linked on both sides of the buffer.
pub freed_bucket :
    (s : Buffers) (a i : ℕ)
    → (s.heads a).b_prev_free ≢ null
    → (s.heads a).b_next_free ≢ null
    → s.hash_buffer i ≡ null
    → (s' : Buffers) × (unfree a s ≡ some s') × (s'.hash_buffer i ≡ null)
unfolding unfree
freed_bucket s a i p n e =
    let c : (((s.heads a).b_prev_free == null) || ((s.heads a).b_next_free == null)) ≡ false =
      ground arith in
    rw c (free_list a (free_prev a (free_next a s)), refl, same)
  where
    same : (free_list a (free_prev a (free_next a s))).hash_buffer i ≡ null
    same =
        unfold free_list free_prev free_next set_head in
        elim (Bool-cases (s.buffer_free_list == a)) [ inl c ↦ rw c e | inr c ↦ rw c e ]
