-- ===== src/Kernel/Ring/Contents.antt =====
-- A buffer as the queue of its entries, oldest first.
use prettyos.Common.{
  ℕ, zero, suc, ◌+◌, ◌-◌, ◌≤◌, ◌<◌, ◌≡◌, refl, ap, ◌∙◌, true, false, List, [], ◌∷◌, ◌++◌, arith,
  ltb, ◌==◌, if◌then◌else◌, Bool-cases, inl, inr, ltb_false→le, ltb→lt,
}
use prettyos.Kernel.Ring.{Ring, store, advance, put, get}

-- The n entries from index p on, around the end.
unfoldable pub entries : ℕ → (ℕ → ℕ) → ℕ → ℕ → List ℕ
entries size m p zero = []
entries size m p (suc n) = m p ∷ entries size m (advance size p) n

unfoldable pub contents : ℕ → Ring → List ℕ
contents size r = entries size r.buf r.p_tail r.count

-- Both indices in the buffer, the count at most its size, and the head so many entries after the tail.
pub record IsRing (size : ℕ) (r : Ring) : Type 0 where
  pub tail : r.p_tail < size
  pub fits : r.count ≤ size
  pub head :
      r.p_head
      ≡ (if ltb (r.p_tail + r.count) size then r.p_tail + r.count else r.p_tail + r.count - size)

advance_lem :
    (size p : ℕ) → p < size → advance size p ≡ (if ltb (p + 1) size then p + 1 else p + 1 - size)
unfolding advance
advance_lem size p h = ground arith

advance_below : (size p : ℕ) → p < size → advance size p < size
unfolding advance
advance_below size p h = ground arith

-- A store outside the entries.
entries-store :
    (size : ℕ) (m : ℕ → ℕ) (a v p n : ℕ)
    → p < size
    → a < size
    → n < size
    → a ≡ (if ltb (p + n) size then p + n else p + n - size)
    → entries size (store m a v) p (suc n) ≡ entries size m p n ++ (v ∷ [])
unfolding entries store
entries-store size m a v p zero hp ha hn e =
    let e2 : a ≡ p = ground arith in let c : (a == p) ≡ true = ground arith in rw c refl
entries-store size m a v p (suc n) hp ha hn e =
    let c : (a == p) ≡ false = ground arith in
    let e1 = advance_lem size p hp in
    let e2 : a ≡ (
        if ltb (advance size p + n) size then advance size p + n else advance size p + n - size) =
      ground arith in
    rw c (
      ap (λ z. m p ∷ z)
        (entries-store size m a v (advance size p) n (advance_below size p hp) ha (omega arith) e2))

-- `put` keeps a well-formed buffer well formed; one with room takes the entry as its newest, and a
-- full one stays as it is.
pub put-Queued :
    (size : ℕ) (r : Ring) (key : ℕ)
    → IsRing size r
    → IsRing size (put size r key)
      × (r.count < size → contents size (put size r key) ≡ contents size r ++ (key ∷ []))
      × (size ≤ r.count → put size r key ≡ r)
unfolding put contents
put-Queued size r key v =
    let h = v.head in
    let t = v.tail in
    let w = v.fits in
    elim (Bool-cases (ltb r.count size)) [
      | inl c ↦
          let k : r.count < size = ltb→lt _ _ c in
          rw c (
            record {
              tail = t;
              fits = omega arith;
              head =
                  let b : r.p_head < size = ground arith in
                  let e = advance_lem size r.p_head b in ground arith;
            },
            (λ z.
                ap (λ n. entries size (store r.buf r.p_head key) r.p_tail n)
                  (let d : r.count + 1 ≡ suc r.count = omega arith in d)
                ∙ entries-store size r.buf r.p_head key r.p_tail r.count t (ground arith) k h),
            (λ z. absurd (omega arith)),
          )
      | inr c ↦ rw c (
        v,
        (λ z. absurd (let k : size ≤ r.count = ltb_false→le _ _ c in omega arith)),
        (λ z. refl),
      )
    ]

-- `get` on a well-formed buffer that is not empty gives its oldest entry, and leaves a well-formed
-- buffer of the others.
pub get-Taken :
    (size : ℕ) (r : Ring)
    → IsRing size r
    → 0 < r.count
    → IsRing size (get size r).1 × (contents size r ≡ (get size r).0 ∷ contents size (get size r).1)
unfolding get contents entries
get-Taken size r v p =
    let h = v.head in
    let t = v.tail in
    let w = v.fits in
    let e = advance_lem size r.p_tail t in
    let d : r.count ≡ suc (r.count - 1) = omega arith in
    (
      record { tail = advance_below size r.p_tail t; fits = omega arith; head = ground arith },
      ap (λ n. entries size r.buf r.p_tail n) d,
    )
