-- ===== src/Libc/Bitmap/First.antt =====
-- What `set_first_bit` marks, and which number it gives.
use prettyos.Common.{
  ℕ, zero, suc, ◌+◌, ◌-◌, ◌*◌, ◌/◌, ◌%◌, ◌^◌, ◌<◌, ◌≡◌, ◌≢◌, refl, ap, subst, ◌⊎◌, ◌∙◌, Bool, true,
  false, ◌==◌, ◌&&◌, ltb, ◌||◌, Bool-cases, inl, inr, ==_iff, arith,
}
use prettyos.Common.Int.{ℤ, pos, neg}
use prettyos.Common.Bits.{all_below, all_below_sound}
use prettyos.Libc.Bitmap.{
  Bitmap, set_bit, scan_forward, find_first_bit, find_first_zero, set_from, set_first_bit,
  with_byte, get_pidmap,
}

-- Every bit below j is set in the byte, and bit j is not.
byte_holds : ℕ → Bool
byte_holds ch =
    (ch == 0xff)
    || (ltb (find_first_zero ch) 8
        && (ch % 2 ^ find_first_zero ch == 2 ^ find_first_zero ch - 1)
        && (ch / 2 ^ find_first_zero ch % 2 == 0)
        && (set_bit (find_first_zero ch) ch == ch + 2 ^ find_first_zero ch))

bytes_hold : (ch : ℕ) → ch < 0x100 → byte_holds ch ≡ true
unfolding byte_holds all_below find_first_zero find_first_bit scan_forward set_bit
bytes_hold ch h = all_below_sound 0x100 byte_holds ch refl h

-- The first zero bit of a bitmap, bit j of byte i, is set, and no other bit changes; the number is j + i.
pub record Marked (size : ℕ) (m : Bitmap) (out : ℤ × Bitmap) : Type 0 where
  pub i : ℕ
  pub j : ℕ
  pub inside : i < size
  pub small : j < 8
  pub before : (k : ℕ) → k < i → m k ≡ 0xff
  pub ones : m i % 2 ^ j ≡ 2 ^ j - 1
  pub zero_bit : m i / 2 ^ j % 2 ≡ 0
  pub now_set : out.1 i ≡ m i + 2 ^ j
  pub others : (k : ℕ) → k ≢ i → out.1 k ≡ m k
  pub number : out.0 ≡ pos (j + i)

abbrev pub Full : ℕ → Bitmap → ℤ × Bitmap → Type 0
Full size m out = ((k : ℕ) → k < size → m k ≡ 0xff) × (out ≡ (neg 1, m))

byte-Marked :
    (left : ℕ) (m : Bitmap) (i : ℕ)
    → m i < 0x100
    → ((k : ℕ) → k < i → m k ≡ 0xff)
    → (m i == 0xff) ≡ false
    → Marked
        (i + suc left)
        m
        (pos (find_first_zero (m i) + 1 * i), with_byte m i (set_bit (find_first_zero (m i)) (m i)))
unfolding byte_holds
byte-Marked left m i b f c =
    let h = bytes_hold (m i) b in
    let same : (i == i) ≡ true = ground arith in
    record {
      i = i;
      j = find_first_zero (m i);
      inside = omega arith;
      small = ground arith;
      before = f;
      ones = ground arith;
      zero_bit = ground arith;
      now_set = rw same (ground arith);
      others = λ k ne. let d : (i == k) ≡ false = ground arith in rw d refl;
      number = ap pos (omega arith);
    }

set_from-Marked :
    (left : ℕ) (m : Bitmap) (i : ℕ)
    → ((k : ℕ) → m k < 0x100)
    → ((k : ℕ) → k < i → m k ≡ 0xff)
    → Marked (i + left) m (set_from left m i) ⊎ Full (i + left) m (set_from left m i)
unfolding set_from
set_from-Marked zero m i b f = inr ((λ k h. f k (omega arith)), refl)
set_from-Marked (suc left) m i b f = elim (Bool-cases (m i == 0xff)) [
  | inl c ↦
      let e : i + 1 + left ≡ i + suc left = omega arith in
      let fi : m i ≡ 0xff = (==_iff (m i) 0xff).0 c in
      let g : (k : ℕ) → k < i + 1 → m k ≡ 0xff = λ k h. elim (Bool-cases (k == i)) [
        | inl d ↦ ap m ((==_iff k i).0 d) ∙ fi
        | inr d ↦ f k (ground arith)
      ] in
      rw (c, set_from)
        (subst (λ n. Marked n m (set_from left m (i + 1)) ⊎ Full n m (set_from left m (i + 1))) e
          (set_from-Marked left m (i + 1) b g))
  | inr c ↦ rw (c, set_from) (inl (byte-Marked left m i (b i) f c))
]

-- On a bitmap of bytes, `set_first_bit` sets the first zero bit, bit j of byte i, changes no other bit
-- and returns j + i; where there is none below the size it returns -1 and changes nothing.
pub set_first_bit-Marked :
    (size : ℕ) (m : Bitmap)
    → ((k : ℕ) → m k < 0x100)
    → Marked size m (set_first_bit m size) ⊎ Full size m (set_first_bit m size)
unfolding set_first_bit
set_first_bit-Marked size m b =
    subst (λ n. Marked n m (set_from size m 0) ⊎ Full n m (set_from size m 0))
      (let e : 0 + size ≡ size = omega arith in e)
      (set_from-Marked size m 0 b (λ k h. absurd (omega arith)))

even_holds : ℕ → Bool
even_holds ch = (ch % 2 == 1) || (find_first_zero ch == 0)

even_byte : (ch : ℕ) → ch < 0x100 → ch % 2 ≡ 0 → find_first_zero ch ≡ 0
unfolding even_holds all_below find_first_zero find_first_bit scan_forward
even_byte ch h e = let t = all_below_sound 0x100 even_holds ch refl h in ground arith

-- Where the first byte of the bitmap is full and the first bit of the second is free, `get_pidmap`
-- gives the number 1.
get_pidmap_repeats :
    (m : Bitmap) → m 0 ≡ 0xff → m 1 < 0x100 → m 1 % 2 ≡ 0 → (get_pidmap m).0 ≡ pos 1
unfolding get_pidmap set_first_bit set_from
get_pidmap_repeats m h b e =
    let c : (m 0 == 0xff) ≡ true = ground arith in
    let d : (m 1 == 0xff) ≡ false = ground arith in
    let z = even_byte (m 1) b e in rw (c, set_from) (rw (d, set_from) (rw z refl))
