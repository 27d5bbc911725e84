-- ===== src/Libc/Strings/Copy.antt =====
-- What `strcpy`, `memset` and `strreverse` write.
use prettyos.Common.{
  ℕ, zero, suc, ◌+◌, ◌-◌, ◌*◌, ◌≤◌, ◌<◌, ◌≡◌, ◌≢◌, refl, sym, ap, ◌∙◌, ◌⊎◌, true, false, some,
  arith, ltb, ◌==◌, ◌||◌, Bool-cases, inl, inr, ==_iff, ltb→lt,
}
use prettyos.Common.Int.{pos}
use prettyos.Libc.Strings.{Mem, null, store, memset_loop, memset, reverse_loop, strreverse}
use prettyos.Libc.Strings.Length.{IsString, strlen_loop_lem}

-- Writes to n bytes from a on, and to no other.
abbrev pub Outside : ℕ → ℕ → ℕ → Type 0
Outside a n i = (i < a) ⊎ (a + n ≤ i)

pub memset_loop_out : (n : ℕ) (m : Mem) (a v i : ℕ) → Outside a n i → memset_loop n m a v i ≡ m i
unfolding memset_loop store
memset_loop_out zero m a v i h = refl
memset_loop_out (suc n) m a v i h =
    let o : Outside (a + 1) n i = ground arith in
    let c : (a == i) ≡ false = ground arith in
    memset_loop_out n (store m a v) (a + 1) v i o ∙ rw c refl

pub memset_loop_in : (n : ℕ) (m : Mem) (a v i : ℕ) → a ≤ i → i < a + n → memset_loop n m a v i ≡ v
unfolding memset_loop store
memset_loop_in zero m a v i h k = absurd (omega arith)
memset_loop_in (suc n) m a v i h k = elim (Bool-cases (a == i)) [
  | inl c ↦ memset_loop_out n (store m a v) (a + 1) v i (inl (ground arith)) ∙ rw (c, store) refl
  | inr c ↦ memset_loop_in n (store m a v) (a + 1) v i (ground arith) (omega arith)
]

-- `memset` of a positive size, not at NULL, returns 0 and makes every byte of the block the value, and
-- no byte outside it changes.
memset_lem :
    (m : Mem) (a v n : ℕ)
    → a ≢ null
    → 0 < n
    → ((memset m a v (pos n)).0 ≡ pos 0)
      × ((i : ℕ) → a ≤ i → i < a + n → (memset m a v (pos n)).1 i ≡ v)
      × ((i : ℕ) → Outside a n i → (memset m a v (pos n)).1 i ≡ m i)
unfolding memset
memset_lem m a v n z h =
    let c : (a == null || n == 0) ≡ false = ground arith in
    (
      rw c refl,
      (λ i p q. rw c (memset_loop_in n m a v i p q)),
      (λ i p. rw c (memset_loop_out n m a v i p)),
    )

-- A block reversed between two addresses, both included, and nothing else changed.
abbrev pub Reversed : Mem → ℕ → ℕ → Mem → Type 0
Reversed m p q r =
    ((i : ℕ) → p ≤ i → i ≤ q → r i ≡ m (p + q - i)) × ((i : ℕ) → (i < p) ⊎ (q < i) → r i ≡ m i)

abbrev swapped : Mem → ℕ → ℕ → Mem
swapped m p q = store (store m p (m q)) q (m p)

swapped_first : (m : Mem) (p q : ℕ) → p < q → swapped m p q p ≡ m q
unfolding store
swapped_first m p q h =
    let c : (q == p) ≡ false = ground arith in
    let d : (p == p) ≡ true = ground arith in rw (c, d) refl

swapped_last : (m : Mem) (p q : ℕ) → swapped m p q q ≡ m p
unfolding store
swapped_last m p q = let d : (q == q) ≡ true = ground arith in rw d refl

swapped_other : (m : Mem) (p q i : ℕ) → i ≢ p → i ≢ q → swapped m p q i ≡ m i
unfolding store
swapped_other m p q i h k =
    let c : (q == i) ≡ false = ground arith in
    let d : (p == i) ≡ false = ground arith in rw (c, d) refl

swap_ends :
    (m : Mem) (p q : ℕ) (r : Mem)
    → p < q
    → Reversed (swapped m p q) (p + 1) (q - 1) r
    → Reversed m p q r
swap_ends m p q r h (f, g) = (
  (λ i a b. elim (Bool-cases (p == i)) [
    | inl c ↦
        let e : p ≡ i = (==_iff p i).0 c in
        let d : q ≡ p + q - i = omega arith in
        g i (inl (omega arith)) ∙ ap (swapped m p q) (sym e) ∙ swapped_first m p q h ∙ ap m d
    | inr c ↦ elim (Bool-cases (q == i)) [
      | inl k ↦
          let e : q ≡ i = (==_iff q i).0 k in
          let d : p ≡ p + q - i = omega arith in
          g i (inr (omega arith)) ∙ ap (swapped m p q) (sym e) ∙ swapped_last m p q ∙ ap m d
      | inr k ↦
          let n1 : p ≢ i = ground arith in
          let n2 : q ≢ i = ground arith in
          let d : p + 1 + (q - 1) - i ≡ p + q - i = omega arith in
          f i (omega arith) (omega arith)
          ∙ ap (swapped m p q) d
          ∙ swapped_other m p q (p + q - i) (λ z. omega arith) (λ z. omega arith)
    ]
  ]),
  (λ i o.
      let n1 : i ≢ p = ground arith in
      let n2 : i ≢ q = ground arith in
      let o2 : (i < p + 1) ⊎ (q - 1 < i) = ground arith in g i o2 ∙ swapped_other m p q i n1 n2),
)

reverse_loop-Reversed :
    (fuel : ℕ) (m : Mem) (p q : ℕ)
    → p ≤ q + 1
    → q < p + 2 * fuel
    → Reversed m p q (reverse_loop fuel m p q)
unfolding reverse_loop
reverse_loop-Reversed zero m p q b h = ((λ i x y. absurd (omega arith)), (λ i o. refl))
reverse_loop-Reversed (suc fuel) m p q b h = elim (Bool-cases (ltb p q)) [
  | inl c ↦
      let k = ltb→lt p q c in
      rw (c, reverse_loop)
        (swap_ends m p q _ k
          (reverse_loop-Reversed fuel (swapped m p q) (p + 1) (q - 1) (omega arith) (omega arith)))
  | inr c ↦
      let k : q ≤ p = ground arith in
      rw (c, reverse_loop)
        ((λ i x y. ap m (let d : i ≡ p + q - i = omega arith in d)), (λ i o. refl))
]

-- `strreverse` of a string of n characters, not at NULL, ends, returns 0 and reverses the characters,
-- and changes no other byte, the end of the string included.
pub strreverse-Reversed :
    (fuel : ℕ) (m : Mem) (a n : ℕ)
    → IsString m a n
    → a ≢ null
    → n < fuel
    → (m' : Mem) × (strreverse fuel m a ≡ some (pos 0, m')) × Reversed m a (a + n - 1) m'
unfolding strreverse
strreverse-Reversed fuel m a n v z h =
    let c : (a == null) ≡ false = ground arith in
    (
      reverse_loop n m a (a + n - 1),
      rw (c, strreverse)
          (rw (strlen_loop_lem fuel m a n 0 v h) (
            ap (λ (l : ℕ). some (pos 0, reverse_loop l m a (a + l - 1)))
              (let d : 0 + n ≡ n = omega arith in d))),
      reverse_loop-Reversed n m a (a + n - 1) (omega arith) (omega arith),
    )
