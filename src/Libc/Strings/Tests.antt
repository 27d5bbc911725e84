-- ===== src/Libc/Strings/Tests.antt =====
-- Strings at concrete contents, and the theorems at concrete inputs.
use prettyos.Common.{ℕ, ◌+◌, ◌-◌, ◌<◌, ◌≡◌, ◌≢◌, refl, Option, none, some, arith}
use prettyos.Common.Int.{pos}
use prettyos.Libc.Strings.{
  Mem, store, strlen_loop, strreverse, reverse_loop, itoa, itoa_of, itoa_loop, digit, htoa,
  htoa_loop,
}
use prettyos.Libc.Strings.Length.{IsString}
use prettyos.Libc.Strings.Copy.{Reversed, strreverse-Reversed}

-- `abc` at 16 and `ab` at 32, in a memory of zeros.
abbrev words : Mem
words = store (store (store (store (store (λ i. 0) 16 0x61) 17 0x62) 18 0x63) 32 0x61) 33 0x62

abc-IsString : IsString words 16 3
unfolding store
abc-IsString = record { inside = inside; ended = refl }
  where
    inside : (i : ℕ) → i < 3 → words (16 + i) ≢ 0
    inside i h e = ground arith

ab-IsString : IsString words 32 2
unfolding store
ab-IsString = record { inside = inside; ended = refl }
  where
    inside : (i : ℕ) → i < 2 → words (32 + i) ≢ 0
    inside i h e = ground arith

-- The first byte of the text that `itoa` leaves for 42 is a digit in a memory of zeros, and the byte
-- that followed the digits where that was not 0.
itoa_first : ℕ → Option ℕ
itoa_first stale = elim (itoa 10 (store (λ i. 0) 18 stale) 16 (pos 42)) [
  | none ↦ none
  | some m ↦ some (m 16)
]

itoa_zeros : itoa_first 0 ≡ some 0x34
unfolding itoa_first itoa itoa_of itoa_loop digit strreverse strlen_loop reverse_loop store
itoa_zeros = refl

itoa_stale : itoa_first 0x78 ≡ some 0x78
unfolding itoa_first itoa itoa_of itoa_loop digit strreverse strlen_loop reverse_loop store
itoa_stale = refl

htoa_first : htoa (λ i. 0) 16 0x2f 17 ≡ 0x46
unfolding htoa htoa_loop store
htoa_first = refl

strreverse-Reversed_example :
    (m' : Mem) × (strreverse 4 words 16 ≡ some (pos 0, m')) × Reversed words 16 (16 + 3 - 1) m'
strreverse-Reversed_example =
    strreverse-Reversed 4 words 16 3 abc-IsString (omega arith) (omega arith)
