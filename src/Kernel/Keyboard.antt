-- ===== src/Kernel/Keyboard.antt =====
-- The keyboard: kernel/keyboard.c. A scan code is a byte; as the type is `char`, which is signed, a
-- byte from 0x80 on is negative where it is compared with a number. The light-emitting diodes
-- (`set_leds`, `kb_wait`, `kb_ack`) are port output only and are left out.
mod Tests
pub mod Reads
pub mod Letters
use prettyos.Common.{
  ℕ, ◌+◌, ◌-◌, ◌*◌, ◌%◌, Bool, true, false, Option, none, some, List, [], ◌∷◌, ltb, leb, ◌==◌, ◌&&◌,
  ◌||◌, not, if◌then◌else◌, bit_and, bit_or, get_elem?,
}
use prettyos.Kernel.Ring.{Ring, put, get, empty_ring}
use prettyos.Kernel.Keymap
use prettyos.Kernel.Keymap.{keymap}
use prettyos.Kernel.Tty.{World, in_process, is_current_console, tty_do_write}

abbrev pub kb_in_bytes : ℕ
kb_in_bytes = 32

pub record Keyboard : Type 0 where
  pub kb_in : Ring
  pub code_with_E0 : Bool
  pub shift_l : Bool
  pub shift_r : Bool
  pub alt_l : Bool
  pub alt_r : Bool
  pub ctrl_l : Bool
  pub ctrl_r : Bool
  pub caps_lock : Bool
  pub num_lock : Bool
  pub scroll_lock : Bool
  pub column : ℕ

-- `init_keyboard`, with the registers of the interrupt controller and the diodes left out
unfoldable pub init_keyboard : Keyboard → Keyboard
init_keyboard k = record k {
  kb_in = empty_ring (k.kb_in.buf);
  caps_lock = false;
  num_lock = true;
  scroll_lock = false;
}

-- `keyboard_handler`, for the byte that the port gives
unfoldable pub keyboard_handler : Keyboard → ℕ → Keyboard
keyboard_handler k scan_code = record k { kb_in = put kb_in_bytes k.kb_in scan_code }

-- `none` where the loop waits for the next interrupt.
unfoldable pub get_byte_from_kb_buf : Keyboard → Option (ℕ × Keyboard)
get_byte_from_kb_buf k =
    if k.kb_in.count == 0
    then none
    else let (b, r) = get kb_in_bytes k.kb_in in some (b, record k { kb_in = r })

-- `scan_code == n` of a `char` and a number below 0x100
unfoldable pub char_is : ℕ → ℕ → Bool
char_is b n = ltb b 0x80 && b == n

-- Where `keyboard_read` stands after the prefixes: the last byte read, the key if it is known already,
-- and `make`.
pub record Prefix : Type 0 where
  pub scan_code : ℕ
  pub key : ℕ
  pub make : Bool

abbrev with_E0 : Keyboard → Bool → Keyboard
with_E0 k b = record k { code_with_E0 = b }

-- The loop over `pausebreak_scan_code`, from its second byte on.
unfoldable pub is_pausebreak : Keyboard → List ℕ → Option (Bool × Keyboard)
is_pausebreak k [] = some (true, k)
is_pausebreak k (c ∷ cs) = elim (get_byte_from_kb_buf k) [
  | none ↦ none
  | some (b, k') ↦ elim (b == c) [ true ↦ is_pausebreak k' cs | false ↦ some (false, k') ]
]

-- After 0xE0 and the byte `first` or its break code: 0xE0 again and then `second`.
unfoldable pub printscreen : Keyboard → ℕ → Prefix → Bool → Option (Prefix × Keyboard)
printscreen k second p make = elim (get_byte_from_kb_buf (with_E0 k false)) [
  | none ↦ none
  | some (b, k1) ↦
      if char_is b 0xe0
      then elim (get_byte_from_kb_buf (with_E0 k1 true)) [
        | none ↦ none
        | some (d, k2) ↦
            if char_is d second
            then some (record { scan_code = d; key = Keymap.printscreen; make = make }, k2)
            else some (record p { scan_code = d }, k2)
      ]
      else some (record p { scan_code = b }, k1)
]

-- `make0` is what the uninitialised `make` holds.
unfoldable pub read_prefix : Bool → Keyboard → Option (Prefix × Keyboard)
read_prefix make0 k = elim (get_byte_from_kb_buf (with_E0 k false)) [
  | none ↦ none
  | some (b, k1) ↦
      let p : Prefix = record { scan_code = b; key = 0; make = make0 } in
      if char_is b 0xe1
      then elim (is_pausebreak k1 (0x1d ∷ 0x45 ∷ 0xe1 ∷ 0x9d ∷ 0xc5 ∷ [])) [
        | none ↦ none
        | some (true, k2) ↦ some (record p { key = Keymap.pausebreak }, k2)
        | some (false, k2) ↦ some (p, k2)
      ]
      else if char_is b 0xe0
      then elim (get_byte_from_kb_buf (with_E0 k1 true)) [
        | none ↦ none
        | some (d, k2) ↦
            let q = record p { scan_code = d } in
            if char_is d 0x2a
            then printscreen k2 0x37 q true
            else if char_is d 0xb7
            then printscreen k2 0xaa q false
            else some (q, k2)
      ]
      else some (p, k1)
]

-- `keymap[i]`; the index is below the number of entries.
unfoldable pub keymap_at : ℕ → ℕ
keymap_at i = elim (get_elem? keymap i) [ none ↦ 0 | some k ↦ k ]

abbrev pub break_code : ℕ → Bool
break_code b = not (bit_and b 0x80 == 0)

-- The column of the keymap row.
unfoldable pub find_column : Keyboard → ℕ → ℕ
find_column k b =
    let row = bit_and b 0x7f * 3 in
    let letter = leb 0x61 (keymap_at row) && leb (keymap_at row) 0x7a in
    let shift = k.shift_l || k.shift_r in
    let caps = if k.caps_lock && letter then not shift else shift in
    if k.code_with_E0 then 2 else if caps then 1 else 0

-- The `switch` over the keys that change the state.
unfoldable pub state_key : Keyboard → ℕ → Bool → Keyboard
state_key k key make =
    if key == Keymap.shift_l
    then record k { shift_l = make }
    else if key == Keymap.shift_r
    then record k { shift_r = make }
    else if key == Keymap.ctrl_l
    then record k { ctrl_l = make }
    else if key == Keymap.ctrl_r
    then record k { ctrl_r = make }
    else if key == Keymap.alt_l
    then record k { alt_l = make }
    else if key == Keymap.alt_r
    then record k { alt_l = make }
    else if key == Keymap.caps_lock && make
    then record k { caps_lock = not k.caps_lock }
    else if key == Keymap.num_lock && make
    then record k { num_lock = not k.num_lock }
    else if key == Keymap.scroll_lock && make
    then record k { scroll_lock = not k.scroll_lock }
    else k

-- The first two tests of the second part of `keyboard_read`: the key and `make`.
unfoldable pub decode : Prefix → Keyboard → Prefix × Keyboard
decode p k =
    if not (p.key == Keymap.pausebreak) && not (p.key == Keymap.printscreen)
    then (let make = not (break_code p.scan_code) in
        let column = find_column k p.scan_code in
        let key = keymap_at (bit_and p.scan_code 0x7f * 3 + column) in
        (
          record { scan_code = p.scan_code; key = key; make = make },
          state_key (record k { column = column }) key make,
        ))
    else (p, k)

abbrev pub is_pad : ℕ → Bool
is_pad key = leb Keymap.pad_slash key && leb key Keymap.pad_9

-- The `switch` over the keys of the number pad.
unfoldable pub pad_key : Bool → ℕ → ℕ
pad_key num_lock key =
    if key == Keymap.pad_slash
    then 0x2f
    else if key == Keymap.pad_star
    then 0x2a
    else if key == Keymap.pad_minus
    then 0x2d
    else if key == Keymap.pad_plus
    then 0x2b
    else if key == Keymap.pad_enter
    then Keymap.enter
    else if num_lock
    then (if leb Keymap.pad_0 key && leb key Keymap.pad_9
        then key - Keymap.pad_0 + 0x30
        else if key == Keymap.pad_dot
        then 0x2e
        else key)
    else if key == Keymap.pad_home
    then Keymap.home
    else if key == Keymap.pad_end
    then Keymap.end
    else if key == Keymap.pad_pageup
    then Keymap.pageup
    else if key == Keymap.pad_pagedown
    then Keymap.pagedown
    else if key == Keymap.pad_ins
    then Keymap.insert
    else if key == Keymap.pad_up
    then Keymap.up
    else if key == Keymap.pad_down
    then Keymap.down
    else if key == Keymap.pad_left
    then Keymap.left
    else if key == Keymap.pad_right
    then Keymap.right
    else if key == Keymap.pad_dot
    then Keymap.delete
    else key

abbrev pub flag : Bool → ℕ → ℕ
flag b f = if b then f else 0

-- The key with the flags of the state.
unfoldable pub flagged : Keyboard → ℕ → ℕ
flagged k key0 =
    let pad = is_pad key0 in
    let key1 = if pad then pad_key k.num_lock key0 else key0 in
    let key2 = bit_or key1 (flag k.shift_l 0x0200) in
    let key3 = bit_or key2 (flag k.shift_r 0x0400) in
    let key4 = bit_or key3 (flag k.ctrl_l 0x0800) in
    let key5 = bit_or key4 (flag k.ctrl_r 0x1000) in
    let key6 = bit_or key5 (flag k.alt_l 0x2000) in
    let key7 = bit_or key6 (flag k.alt_r 0x4000) in bit_or key7 (flag pad 0x8000)

-- `keyboard_read` for terminal n
unfoldable pub keyboard_read : Bool → World → ℕ → Keyboard → Option (World × Keyboard)
keyboard_read make0 w n k = if k.kb_in.count == 0 then some (w, k) else elim (read_prefix make0 k) [
  | none ↦ none
  | some (p, k1) ↦
      let (q, k2) = decode p k1 in
      some (if q.make then in_process w n (flagged k2 q.key) else w, k2)
]

unfoldable pub tty_do_read : Bool → World → ℕ → Keyboard → Option (World × Keyboard)
tty_do_read make0 w n k = if is_current_console w n then keyboard_read make0 w n k else some (w, k)
