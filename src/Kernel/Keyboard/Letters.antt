-- ===== src/Kernel/Keyboard/Letters.antt =====
-- The key that a scan code names.
use prettyos.Common.{
  ℕ, ◌+◌, ◌-◌, ◌*◌, ◌<◌, ◌≡◌, refl, ap, Bool, true, false, not, arith, leb, ◌==◌, ◌&&◌, ◌||◌,
  if◌then◌else◌, Bool-cases, inl, inr, bit_and,
}
use prettyos.Common.Bits.{all_below, all_below_sound}
use prettyos.Kernel.Keyboard.{Keyboard, Prefix, decode, find_column, break_code, keymap_at}

-- One scan code, with no key known yet.
abbrev pub plain : ℕ → Bool → Prefix
plain b make0 = record { scan_code = b; key = 0; make = make0 }

codes : ℕ → Bool
codes b =
    (bit_and (b + 0x80) 0x7f == b)
    && (bit_and b 0x7f == b)
    && not (break_code b)
    && break_code (b + 0x80)

codes_hold : (b : ℕ) → b < 0x80 → codes b ≡ true
unfolding codes all_below
codes_hold b h = all_below_sound 0x80 codes b refl h

-- The break code of a key, its make code plus 0x80, names the same key, and the two differ in `make`.
pub press_release :
    (k : Keyboard) (b : ℕ) (make0 : Bool)
    → b < 0x80
    → ((decode (plain (b + 0x80) make0) k).0.key ≡ (decode (plain b make0) k).0.key)
      × ((decode (plain b make0) k).0.make ≡ true)
      × ((decode (plain (b + 0x80) make0) k).0.make ≡ false)
unfolding codes decode find_column
press_release k b make0 h =
    let c = codes_hold b h in
    let e1 : bit_and (b + 0x80) 0x7f ≡ b = ground arith in
    let e2 : bit_and b 0x7f ≡ b = ground arith in
    let e3 : break_code b ≡ false = ground arith in
    let e4 : break_code (b + 0x80) ≡ true = ground arith in
    (rw (e1, e2) refl, rw e3 refl, rw e4 refl)

abbrev pub is_letter : ℕ → Bool
is_letter ch = leb 0x61 ch && leb ch 0x7a

upper : ℕ → Bool
upper b = not (is_letter (keymap_at (b * 3))) || (keymap_at (b * 3 + 1) == keymap_at (b * 3) - 0x20)

upper_holds : (b : ℕ) → b < 0x80 → upper b ≡ true
unfolding upper keymap_at all_below
upper_holds b h = all_below_sound 0x80 upper b refl h

-- Whether a letter is a capital.
abbrev pub capital : Keyboard → Bool
capital k = if k.caps_lock then not (k.shift_l || k.shift_r) else k.shift_l || k.shift_r

-- A make code of a letter, with no prefix, names the capital exactly where one of caps lock and shift
-- is on, and the small letter where both or neither are.
letter_case :
    (k : Keyboard) (b : ℕ) (make0 : Bool)
    → b < 0x80
    → k.code_with_E0 ≡ false
    → is_letter (keymap_at (b * 3)) ≡ true
    → (decode (plain b make0) k).0.key
      ≡ (if capital k then keymap_at (b * 3) - 0x20 else keymap_at (b * 3))
unfolding codes upper decode find_column
letter_case k b make0 h e l =
    let c = codes_hold b h in
    let e2 : bit_and b 0x7f ≡ b = ground arith in
    let u = upper_holds b h in
    let v : keymap_at (b * 3 + 1) ≡ keymap_at (b * 3) - 0x20 = ground arith in
    let z : b * 3 + 0 ≡ b * 3 = omega arith in
    let l1 : (leb 0x61 (keymap_at (b * 3)) && leb (keymap_at (b * 3)) 0x7a) ≡ true = l in
    rw (e2, e, l1)
      (elim (Bool-cases k.caps_lock) [
        | inl c1 ↦ elim (Bool-cases (k.shift_l || k.shift_r)) [
          | inl s ↦ rw (c1, s) (ap keymap_at z)
          | inr s ↦ rw (c1, s) v
        ]
        | inr c1 ↦ elim (Bool-cases (k.shift_l || k.shift_r)) [
          | inl s ↦ rw (c1, s) v
          | inr s ↦ rw (c1, s) (ap keymap_at z)
        ]
      ])
