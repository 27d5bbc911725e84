-- ===== src/Libc/Math.antt =====
-- lib/math.c
use prettyos.Common.{
  ℕ, zero, suc, ◌+◌, ◌*◌, ◌%◌, ◌^◌, ◌<◌, ◌≤◌, ◌≡◌, refl, ap, ◌∙◌, ◌-◌, true, arith, ◌==◌, ==_iff,
}
use prettyos.Common.Bits.{all_below, all_below_sound}

-- `while(index-- > 0) sum *= 2;` on a 32-bit `sum`. For an index of 0 the loop makes no round, and
-- the code's own test for it returns the same 1.
pub power_loop : ℕ → ℕ → ℕ
power_loop zero sum = sum
power_loop (suc index) sum = power_loop index (sum * 2 % 2 ^ 32)

unfoldable pub power : ℕ → ℕ
unfolding power_loop
power index = power_loop index 1

power_loop_add : (a b sum : ℕ) → power_loop (a + b) sum ≡ power_loop b (power_loop a sum)
unfolding power_loop
power_loop_add zero b sum = let e : 0 + b ≡ b = omega arith in ap (λ n. power_loop n sum) e
power_loop_add (suc a) b sum =
    let e : suc a + b ≡ suc (a + b) = omega arith in
    ap (λ n. power_loop n sum) e ∙ power_loop_add a b (sum * 2 % 2 ^ 32)

power_loop-zero : (n : ℕ) → power_loop n 0 ≡ 0
unfolding power_loop
power_loop-zero zero = refl
power_loop-zero (suc n) = power_loop-zero n

power_table : all_below 32 (λ n. power n == 2 ^ n) ≡ true
unfolding all_below power
power_table = refl

-- Up to the index 31 `power` is the power of two.
pub power_lem : (n : ℕ) → n < 32 → power n ≡ 2 ^ n
power_lem n h = (==_iff _ _).0 (all_below_sound 32 (λ n. power n == 2 ^ n) n power_table h)

-- From 32 on the 32-bit product has lost its only bit: the result is 0.
pub power_overflow : (n : ℕ) → 32 ≤ n → power n ≡ 0
unfolding power
power_overflow n h =
    let e : n ≡ 32 + (n - 32) = omega arith in
    ap (λ k. power_loop k 1) e ∙ power_loop_add 32 (n - 32) 1 ∙ power_loop-zero (n - 32)
