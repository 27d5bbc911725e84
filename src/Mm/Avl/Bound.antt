-- ===== src/Mm/Avl/Bound.antt =====
-- The array `stack` of `avl_maxheight` entries is large enough.
use prettyos.Common.{
  ℕ, zero, suc, ◌+◌, ◌*◌, ◌^◌, ltb→lt, ltb_false→le, ◌≤◌, ◌≡◌, refl, [], ◌∷◌, arith, inl, inr, ltb,
  length, max, Bool-cases,
}
use native.Mathlib.Nat.{le_refl}
use prettyos.Mm.Avl.{Tree, empty, node, heightof, Stack, in_left, in_right, descend}
use prettyos.Mm.Avl.Rotate.{IsAvl}

abbrev pub avl_maxheight : ℕ
avl_maxheight = 41

-- The number of areas in the tree.
unfoldable pub size : Tree → ℕ
size empty = 0
size (node l v h r) = suc (size l + size r)

-- Two consecutive Fibonacci numbers.
fibs : ℕ → ℕ × ℕ
fibs zero = (0, 1)
fibs (suc n) = let (a, b) = fibs n in (b, a + b)

pub fib : ℕ → ℕ
fib n = (fibs n).0

fib_step : (n : ℕ) → fib (suc (suc n)) ≡ fib (suc n) + fib n
unfolding fib fibs
fib_step n = omega arith

fibs_ordered : (n : ℕ) → (fibs n).0 ≤ (fibs n).1
unfolding fibs
fibs_ordered zero = omega arith
fibs_ordered (suc n) = omega arith

fib_mono_step : (n : ℕ) → fib n ≤ fib (suc n)
unfolding fib fibs
fib_mono_step n = fibs_ordered n

fib_mono : (m n : ℕ) → m ≤ n → fib m ≤ fib n
fib_mono m zero h = let e : m ≡ 0 = omega arith in rw e (le_refl _)
fib_mono m (suc n) h = elim (Bool-cases (ltb m (suc n))) [
  | inl c ↦ omega (arith, fib_mono m n (omega (arith, ltb→lt m (suc n) c)), fib_mono_step n)
  | inr c ↦ let e : m ≡ suc n = omega (arith, ltb_false→le m (suc n) c) in rw e (le_refl _)
]

fib_next :
    (m a b x y : ℕ)
    → m ≡ a
    → a ≤ suc b
    → fib (suc (suc a)) ≤ suc x
    → fib (suc (suc b)) ≤ suc y
    → fib (suc (suc (suc m))) ≤ suc (suc (x + y))
fib_next m a b x y e h p q =
    rw e (omega (arith, fib_step (suc a), fib_mono (suc a) (suc (suc b)) (omega arith)))

-- A balanced tree of height h has at least fib (h + 2) - 1 nodes.
pub fib-le-size : (t : Tree) → IsAvl t → fib (suc (suc (heightof t))) ≤ suc (size t)
unfolding size
fib-le-size empty b = unfold fib fibs in omega arith
fib-le-size (node l v h r) (bl, br, e, p, q) =
    let m = max (heightof l) (heightof r) in
    let il = fib-le-size l bl in
    let ir = fib-le-size r br in
    rw e (elim (Bool-cases (ltb (heightof l) (heightof r))) [
      | inl c ↦
          let k = ltb→lt _ _ c in
          omega (
            arith,
            fib_next m (heightof r) (heightof l) (size r) (size l) (omega arith) (omega arith) ir
                il,
          )
      | inr c ↦
          let k = ltb_false→le _ _ c in
          fib_next m (heightof l) (heightof r) (size l) (size r) (omega arith) (omega arith) il ir
    ])

length-descend :
    (key : ℕ) (t : Tree) (s : Stack) → IsAvl t → length (descend key t s) ≤ heightof t + length s
unfolding descend
length-descend key empty s b = omega arith
length-descend key (node l v h r) s (bl, br, e, p, q) = elim (Bool-cases (ltb key v.vm_end)) [
  | inl c ↦ rw (c, descend) (omega (arith, length-descend key l (in_left v h r ∷ s) bl))
  | inr c ↦ rw (c, descend) (omega (arith, length-descend key r (in_right l v h ∷ s) br))
]

fib_forty : fib 40 ≡ 102_334_155
unfolding fib fibs
fib_forty = refl

-- In a balanced tree of no more areas than fit a 32-bit address space (a `vm_area_struct` takes 56
-- bytes), the walk of `avl_insert` pushes at most `avl_maxheight` entries: `stack` does not overflow.
pub descend_in_stack :
    (key : ℕ) (t : Tree)
    → IsAvl t
    → size t * 56 ≤ 2 ^ 32
    → length (descend key t []) ≤ avl_maxheight
descend_in_stack key t b small = elim (Bool-cases (ltb (heightof t) 42)) [
  | inl c ↦ omega (arith, ltb→lt (heightof t) 42 c, length-descend key t [] b)
  | inr c ↦ absurd (
      omega (
        arith,
        ltb_false→le (heightof t) 42 c,
        fib-le-size t b,
        fib_forty,
        fib_mono 40 (suc (suc (heightof t))) (omega (arith, ltb_false→le (heightof t) 42 c)),
      ))
]
