-- ===== src/Kernel/Keyboard/Reads.antt =====
-- What a call of `keyboard_read` takes from the buffer and does to the state.
use prettyos.Common.{
  ℕ, ◌≤◌, ◌<◌, ◌≡◌, refl, Bool, true, false, not, some, arith, ◌==◌, if◌then◌else◌,
}
use prettyos.Kernel.Ring.{get}
use prettyos.Kernel.Tty.{World, in_process}
use prettyos.Kernel.Keyboard.{
  Keyboard, Prefix, kb_in_bytes, keyboard_read, read_prefix, get_byte_from_kb_buf, char_is, decode,
  find_column, state_key, break_code, flagged,
}

-- A `char` is never equal to a number from 0x80 on.
char_is_high : (b n : ℕ) → 0x80 ≤ n → char_is b n ≡ false
unfolding char_is
char_is_high b n h = ground arith

abbrev first_code : Keyboard → ℕ
first_code k = (get kb_in_bytes k.kb_in).0

abbrev taken : Keyboard → Keyboard
taken k = record k { kb_in = (get kb_in_bytes k.kb_in).1; code_with_E0 = false }

get_byte_some :
    (k : Keyboard)
    → 0 < k.kb_in.count
    → get_byte_from_kb_buf (record k { code_with_E0 = false }) ≡ some (first_code k, taken k)
unfolding get_byte_from_kb_buf
get_byte_some k p = let c : (k.kb_in.count == 0) ≡ false = ground arith in rw c refl

-- No byte is taken for a prefix.
read_prefix_one :
    (make0 : Bool) (k : Keyboard)
    → 0 < k.kb_in.count
    → read_prefix make0 k
      ≡ some (record { scan_code = first_code k; key = 0; make = make0 }, taken k)
unfolding read_prefix
read_prefix_one make0 k p =
    rw (get_byte_some k p, read_prefix)
      (rw (char_is_high (first_code k) 0xe1 (omega arith))
        (rw (char_is_high (first_code k) 0xe0 (omega arith)) refl))

-- What no state key changes.
abbrev Keeps : Keyboard → Keyboard → Type 0
Keeps k k' = (k'.kb_in ≡ k.kb_in) × (k'.code_with_E0 ≡ k.code_with_E0) × (k'.alt_r ≡ k.alt_r)

state_key-Keeps : (k : Keyboard) (key : ℕ) (make : Bool) → Keeps k (state_key k key make)
unfolding state_key
state_key-Keeps k key make = (ground arith, ground arith, ground arith)

abbrev decode_first : Keyboard → Bool → Prefix × Keyboard
decode_first k make0 = decode (record { scan_code = first_code k; key = 0; make = make0 }) (taken k)

-- What is left of a call of `keyboard_read`.
pub record ReadOne (w : World) (n : ℕ) (k : Keyboard) (w' : World) (k' : Keyboard) : Type 0 where
  pub buffer : k'.kb_in ≡ (get kb_in_bytes k.kb_in).1
  pub no_prefix : k'.code_with_E0 ≡ false
  pub no_alt_r : k'.alt_r ≡ k.alt_r
  pub released : break_code (first_code k) ≡ true → w' ≡ w

-- On a buffer that is not empty `keyboard_read` returns without waiting, has taken one scan code, has
-- not seen a prefix 0xE0, has not changed `alt_r`, and has passed no key on for a break code.
pub keyboard_read-ReadOne :
    (make0 : Bool) (w : World) (n : ℕ) (k : Keyboard)
    → 0 < k.kb_in.count
    → (w' : World) × (k' : Keyboard) × (keyboard_read make0 w n k ≡ some (w', k'))
      × ReadOne w n k w' k'
unfolding keyboard_read decode
keyboard_read-ReadOne make0 w n k p =
    let c : (k.kb_in.count == 0) ≡ false = ground arith in
    let kept =
      state_key-Keeps (record (taken k) { column = find_column (taken k) (first_code k) })
        (decode_first k make0).0.key (not (break_code (first_code k))) in
    let e = read_prefix_one make0 k p in
    (
      (if not (break_code (first_code k))
          then in_process w n (flagged (decode_first k make0).1 (decode_first k make0).0.key)
          else w),
      (decode_first k make0).1,
      rw (c, keyboard_read) (rw e refl),
      record { buffer = kept.0; no_prefix = kept.1; no_alt_r = kept.2; released = λ h. rw h refl },
    )
