-- ===== src/Libc/Strings/Length.antt =====
-- `strlen`, `strcmp` and `strncmp` on strings that end.
use prettyos.Common.{
  ℕ, zero, suc, ◌+◌, ◌<◌, ◌≡◌, ◌≢◌, refl, sym, ap, ◌∙◌, true, false, some, arith, ◌==◌, ◌↔◌, ◌||◌,
  Bool-cases, inl, inr, ==_iff,
}
use prettyos.Common.Int.{ℤ, pos, neg}
use prettyos.Libc.Strings.{
  Mem, null, strlen_loop, strlen, strcmp_loop, strcmp, compare_loop, bounded_compare, smaller,
  strncmp,
}

-- The string of n characters at the address a.
pub record IsString (m : Mem) (a n : ℕ) : Type 0 where
  pub inside : (i : ℕ) → i < n → m (a + i) ≢ 0
  pub ended : m (a + n) ≡ 0

IsString-next : (m : Mem) (a n : ℕ) → IsString m a (suc n) → IsString m (a + 1) n
IsString-next m a n v = record {
  inside = λ i h e.
      v.inside (i + 1) (omega arith)
        (ap m (let d : a + (i + 1) ≡ a + 1 + i = omega arith in d) ∙ e);
  ended = ap m (let d : a + 1 + n ≡ a + suc n = omega arith in d) ∙ v.ended;
}

first_char : (m : Mem) (a n : ℕ) → IsString m a (suc n) → (m a == 0) ≡ false
first_char m a n v =
    let h = v.inside 0 (omega arith) in
    let d : a + 0 ≡ a = omega arith in let k : m a ≢ 0 = λ e. h (ap m d ∙ e) in ground arith

last_char : (m : Mem) (a : ℕ) → IsString m a 0 → (m a == 0) ≡ true
last_char m a v =
    let d : a + 0 ≡ a = omega arith in let k : m a ≡ 0 = ap m (sym d) ∙ v.ended in ground arith

pub strlen_loop_lem :
    (fuel : ℕ) (m : Mem) (a n i : ℕ)
    → IsString m a n
    → n < fuel
    → strlen_loop fuel m a i ≡ some (i + n)
unfolding strlen_loop
strlen_loop_lem zero m a n i v h = absurd (omega arith)
strlen_loop_lem (suc fuel) m a zero i v h =
    rw (last_char m a v, strlen_loop) (ap some (let d : i ≡ i + 0 = omega arith in d))
strlen_loop_lem (suc fuel) m a (suc n) i v h =
    rw (first_char m a n v, strlen_loop)
      (strlen_loop_lem fuel m (a + 1) n (i + 1) (IsString-next m a n v) (omega arith)
        ∙ ap some (let d : i + 1 + n ≡ i + suc n = omega arith in d))

-- `strlen` of a string of n characters, not at NULL, ends within n + 1 rounds and is n.
pub strlen_lem :
    (fuel : ℕ) (m : Mem) (a n : ℕ)
    → IsString m a n
    → a ≢ null
    → n < fuel
    → strlen fuel m a ≡ some (pos n)
unfolding strlen
strlen_lem fuel m a n v z h =
    let c : (a == null) ≡ false = ground arith in
    rw (c, strlen)
      (rw (strlen_loop_lem fuel m a n 0 v h)
        (ap some (ap pos (let d : 0 + n ≡ n = omega arith in d))))

strcmp_loop_positive :
    (fuel : ℕ) (m : Mem) (a b : ℕ) → a ≢ null → b ≢ null → strcmp_loop fuel m a b ≢ some (pos 0)
unfolding strcmp_loop
strcmp_loop_positive zero m a b p q e = ground arith
strcmp_loop_positive (suc fuel) m a b p q e =
    let c : (a == null || b == null) ≡ false = ground arith in
    elim (Bool-cases (m a == m b)) [
      | inl d ↦
          strcmp_loop_positive fuel m (a + 1) (b + 1) (λ z. omega arith) (λ z. omega arith)
            (rw (c, d, strcmp_loop) at e)
      | inr d ↦ absurd (let k = rw (c, d, strcmp_loop) at e in ground arith)
    ]

-- Whatever the memory and however long it runs, `strcmp` does not return 0.
strcmp_never_equal : (fuel : ℕ) (m : Mem) (a b : ℕ) → strcmp fuel m a b ≢ some (pos 0)
unfolding strcmp
strcmp_never_equal fuel m a b e = elim (Bool-cases (a == null || b == null)) [
  | inl c ↦ absurd (let k = rw (c, strcmp) at e in ground arith)
  | inr c ↦ strcmp_loop_positive fuel m a b (ground arith) (ground arith) (rw (c, strcmp) at e)
]

-- The first n bytes agree.
abbrev pub Agree : Mem → ℕ → ℕ → ℕ → Type 0
Agree m a b n = (i : ℕ) → i < n → m (a + i) ≡ m (b + i)

at_zero : (m : Mem) (a : ℕ) → m (a + 0) ≡ m a
at_zero m a = ap m (let d : a + 0 ≡ a = omega arith in d)

at_suc : (m : Mem) (a i : ℕ) → m (a + suc i) ≡ m (a + 1 + i)
at_suc m a i = ap m (let d : a + suc i ≡ a + 1 + i = omega arith in d)

Agree-cons : (m : Mem) (a b n : ℕ) → m a ≡ m b → Agree m (a + 1) (b + 1) n → Agree m a b (suc n)
Agree-cons m a b n e f zero h = at_zero m a ∙ e ∙ sym (at_zero m b)
Agree-cons m a b n e f (suc i) h = at_suc m a i ∙ f i (omega arith) ∙ sym (at_suc m b i)

compare_loop_iff :
    (d : ℤ) (m : Mem) (a b n : ℕ) → d ≢ pos 0 → (compare_loop d m a b n ≡ pos 0) ↔ Agree m a b n
unfolding compare_loop
compare_loop_iff d m a b zero z = ((λ e i h. absurd (omega arith)), (λ f. refl))
compare_loop_iff d m a b (suc n) z = elim (Bool-cases (m a == m b)) [
  | inl c ↦
      let k = compare_loop_iff d m (a + 1) (b + 1) n z in
      (
        (λ e. Agree-cons m a b n ((==_iff (m a) (m b)).0 c) (k.0 (rw (c, compare_loop) at e))),
        (λ f.
            rw (c, compare_loop)
              (k.1 (λ i h. sym (at_suc m a i) ∙ f (suc i) (omega arith) ∙ at_suc m b i))),
      )
  | inr c ↦ (
    (λ e. absurd (z (rw (c, compare_loop) at e))),
    (λ f.
        let e : m a ≡ m b = sym (at_zero m a) ∙ f 0 (omega arith) ∙ at_zero m b in
        absurd (ground arith)),
  )
]

-- `strncmp` of two strings, with a length of at least one, ends, and returns 0 exactly where the
-- strings agree on the first characters, as many as the length and both strings have: a string and a
-- longer one that begins with it count as equal.
strncmp_iff :
    (fuel : ℕ) (m : Mem) (a b n k len : ℕ)
    → IsString m a n
    → IsString m b k
    → a ≢ null
    → b ≢ null
    → n < fuel
    → k < fuel
    → 0 < len
    → (r : ℤ) × (strncmp fuel m a b (pos len) ≡ some r)
      × ((r ≡ pos 0) ↔ Agree m a b (smaller len (smaller n k)))
unfolding strncmp bounded_compare
strncmp_iff fuel m a b n k len v w p q h1 h2 h3 =
    let c : (len == 0 || a == null || b == null) ≡ false = ground arith in
    (
      compare_loop (neg 1) m a b (smaller len (smaller n k)),
      rw (strlen_lem fuel m a n v p h1, strncmp)
          (rw (strlen_lem fuel m b k w q h2) (rw (c, bounded_compare) refl)),
      compare_loop_iff (neg 1) m a b (smaller len (smaller n k)) (λ e. ground arith),
    )
