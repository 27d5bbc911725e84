-- ===== src/Libc/Klibc.antt =====
-- Copies of memory: lib/klibc.c, which `memncpy` of include/stdlib.h calls. Both write a zero byte after
-- the block. A size is a number here: the loop of a negative `int` goes round 2 ^ 32 - size times.
use prettyos.Common.{
  ℕ, zero, suc, ◌+◌, ◌/◌, ◌%◌, ◌^◌, ◌≤◌, ◌<◌, ◌≡◌, ◌⊎◌, refl, ap, ◌∙◌, ◌||◌, ◌==◌, if◌then◌else◌,
  arith, true, false, Bool-cases, inl, inr,
}
use prettyos.Common.Int.{ℤ, pos, neg}
use prettyos.Libc.Strings.{Mem, null, store}

-- `while(size--) *dst++ = *src++; *dst = '\0';`
unfoldable pub copy_loop : ℕ → Mem → ℕ → ℕ → Mem
copy_loop zero m dst src = store m dst 0
copy_loop (suc size) m dst src = copy_loop size (store m dst (m src)) (dst + 1) (src + 1)

unfoldable pub u_phys_copy : Mem → ℕ → ℕ → ℕ → ℤ × Mem
u_phys_copy m dst src size =
    if dst == null || src == null then (neg 1, m) else (pos 0, copy_loop size m dst src)

-- The two blocks, with the zero byte after the copy, have no byte in common.
abbrev pub Apart : ℕ → ℕ → ℕ → Type 0
Apart dst src size = (src + size ≤ dst) ⊎ (dst + size < src)

pub store_same : (m : Mem) (a v i : ℕ) → a ≡ i → store m a v i ≡ v
unfolding store
store_same m a v i e = let c : (a == i) ≡ true = ground arith in rw c refl

pub store_other : (m : Mem) (a v i : ℕ) → (i < a) ⊎ (a < i) → store m a v i ≡ m i
unfolding store
store_other m a v i e = let c : (a == i) ≡ false = ground arith in rw c refl

pub copy_loop_out :
    (size : ℕ) (m : Mem) (dst src i : ℕ)
    → (i < dst) ⊎ (dst + size < i)
    → copy_loop size m dst src i ≡ m i
unfolding copy_loop
copy_loop_out zero m dst src i h = store_other m dst 0 i (ground arith)
copy_loop_out (suc size) m dst src i h =
    let o : (i < dst + 1) ⊎ (dst + 1 + size < i) = ground arith in
    copy_loop_out size (store m dst (m src)) (dst + 1) (src + 1) i o
    ∙ store_other m dst (m src) i (ground arith)

pub copy_loop_in :
    (size : ℕ) (m : Mem) (dst src k : ℕ)
    → Apart dst src size
    → k < size
    → copy_loop size m dst src (dst + k) ≡ m (src + k)
unfolding copy_loop
copy_loop_in zero m dst src k a h = absurd (omega arith)
copy_loop_in (suc size) m dst src zero a h =
    let o : (dst + 0 < dst + 1) ⊎ (dst + 1 + size < dst + 0) = ground arith in
    copy_loop_out size (store m dst (m src)) (dst + 1) (src + 1) (dst + 0) o
    ∙ store_same m dst (m src) (dst + 0) (omega arith)
    ∙ ap m (omega arith)
copy_loop_in (suc size) m dst src (suc k) a h =
    let b : Apart (dst + 1) (src + 1) size = ground arith in
    let e : dst + suc k ≡ dst + 1 + k = omega arith in
    ap (copy_loop size (store m dst (m src)) (dst + 1) (src + 1)) e
    ∙ copy_loop_in size (store m dst (m src)) (dst + 1) (src + 1) k b (omega arith)
    ∙ store_other m dst (m src) (src + 1 + k) (ground arith)
    ∙ ap m (omega arith)

pub copy_loop_end_at :
    (size : ℕ) (m : Mem) (dst src i : ℕ) → dst + size ≡ i → copy_loop size m dst src i ≡ 0
unfolding copy_loop
copy_loop_end_at zero m dst src i h = store_same m dst 0 i (omega arith)
copy_loop_end_at (suc size) m dst src i h =
    copy_loop_end_at size (store m dst (m src)) (dst + 1) (src + 1) i (omega arith)

pub u_phys_copy_at :
    (m : Mem) (dst src n : ℕ)
    → 0 < dst
    → 0 < src
    → (u_phys_copy m dst src n).1 ≡ copy_loop n m dst src
unfolding u_phys_copy
u_phys_copy_at m dst src n d s =
    let a : (dst == null) ≡ false = ground arith in
    let b : (src == null) ≡ false = ground arith in rw (a, b) refl

pub u_phys_copy_out :
    (m : Mem) (dst src n i : ℕ) → (i < dst) ⊎ (dst + n < i) → (u_phys_copy m dst src n).1 i ≡ m i
unfolding u_phys_copy
u_phys_copy_out m dst src n i h = elim (Bool-cases (dst == null || src == null)) [
  | inl c ↦ rw c refl
  | inr c ↦ rw c (copy_loop_out n m dst src i h)
]

-- Two bytes, the low one first
unfoldable pub store_word : Mem → ℕ → ℕ → Mem
store_word m a v = store (store m a (v % 2 ^ 8)) (a + 1) (v / 2 ^ 8 % 2 ^ 8)

pub store_word_out : (m : Mem) (a v i : ℕ) → (i < a) ⊎ (a + 1 < i) → store_word m a v i ≡ m i
unfolding store_word store
store_word_out m a v i h =
    let c : (a + 1 == i) ≡ false = ground arith in
    let d : (a == i) ≡ false = ground arith in rw (c, d) refl
