-- ===== src/Kernel/Tty.antt =====
-- Terminals: kernel/tty.c, and `is_current_console` and `select_console` of kernel/console.c.
-- `World` is the state that the terminals and their consoles share; terminal number n has the console
-- number n, as `init_screen` sets it.
pub mod Tests
pub mod Keys
use prettyos.Common.{
  ℕ, ◌+◌, ◌-◌, ◌%◌, ◌^◌, Bool, true, false, Option, none, some, List, [], ◌∷◌, ltb, leb, ◌==◌, ◌&&◌,
  ◌||◌, not, if◌then◌else◌, bit_and,
}
use prettyos.Kernel.Console.{
  Console, Screen, Direction, scroll_screen_up, scroll_screen_down, scroll_screen, flush, out_char,
  nr_consoles,
}
use prettyos.Kernel.Ring.{Ring, put, get, empty_ring}
use prettyos.Kernel.Keymap.{enter, backspace, tab, up, down, f1, f12}

pub record World : Type 0 where
  pub consoles : ℕ → Console
  pub in_bufs : ℕ → Ring
  pub nr_current_console : ℕ
  pub vmem : ℕ → ℕ
  pub out_char_number : ℕ
  pub disp_pos : ℕ
  pub crtc_cursor : ℕ
  pub crtc_start : ℕ

-- What the functions of the console of terminal n reach.
abbrev pub view : World → ℕ → Screen
view w n = record {
  con = w.consoles n;
  vmem = w.vmem;
  out_char_number = w.out_char_number;
  disp_pos = w.disp_pos;
  crtc_cursor = w.crtc_cursor;
  crtc_start = w.crtc_start;
}

abbrev pub with_screen : World → ℕ → Screen → World
with_screen w n s = record w {
  consoles = λ i. if n == i then s.con else w.consoles i;
  vmem = s.vmem;
  out_char_number = s.out_char_number;
  disp_pos = s.disp_pos;
  crtc_cursor = s.crtc_cursor;
  crtc_start = s.crtc_start;
}

abbrev pub with_in_buf : World → ℕ → Ring → World
with_in_buf w n r = record w { in_bufs = λ i. if n == i then r else w.in_bufs i }

abbrev pub tty_in_bytes : ℕ
tty_in_bytes = 256

abbrev pub flag_ext : ℕ
flag_ext = 0x0100

abbrev pub flag_shift_l : ℕ
flag_shift_l = 0x0200

abbrev pub flag_shift_r : ℕ
flag_shift_r = 0x0400

abbrev pub flag_alt_l : ℕ
flag_alt_l = 0x2000

abbrev pub flag_alt_r : ℕ
flag_alt_r = 0x4000

abbrev pub mask_raw : ℕ
mask_raw = 0x01ff

-- A value as a condition.
abbrev pub nonzero : ℕ → Bool
nonzero n = not (n == 0)

unfoldable pub put_key : World → ℕ → ℕ → World
put_key w n key = with_in_buf w n (put tty_in_bytes (w.in_bufs n) key)

unfoldable pub is_current_console : World → ℕ → Bool
is_current_console w n = n == w.nr_current_console

unfoldable pub select_console : World → ℕ → World
select_console w nr =
    if leb nr_consoles nr
    then w
    else with_screen (record w { nr_current_console = nr }) nr (flush (view w nr))

-- `char ch = *p_inbuf_tail` keeps the low byte; `none` where `out_char` does not end.
unfoldable pub tty_do_write : World → ℕ → Option World
tty_do_write w n =
    if nonzero ((w.in_bufs n).count)
    then (let (key, r) = get tty_in_bytes (w.in_bufs n) in
        let w' = with_in_buf w n r in
        elim (out_char (view w' n) (key % 2 ^ 8)) [
          | none ↦ none
          | some s ↦ some (with_screen w' n s)
        ])
    else some w

unfoldable pub in_process : World → ℕ → ℕ → World
in_process w n key =
    if bit_and key flag_ext == 0
    then put_key w n key
    else let raw_code = bit_and key mask_raw in
      let shift = nonzero (bit_and key flag_shift_l) || nonzero (bit_and key flag_shift_r) in
      let alt = nonzero (bit_and key flag_alt_l) || nonzero (bit_and key flag_alt_r) in
      if raw_code == enter
      then put_key w n 0x0a
      else if raw_code == backspace
      then put_key w n 0x08
      else if raw_code == tab
      then put_key w n 0x09
      else if raw_code == up
      then (if shift then with_screen w n (scroll_screen (view w n) scroll_screen_up) else w)
      else if raw_code == down
      then (if shift then with_screen w n (scroll_screen (view w n) scroll_screen_down) else w)
      else if leb f1 raw_code && leb raw_code f12
      then (if alt then select_console w (raw_code - f1) else w)
      else w

-- `tty_write` of the characters of a buffer
unfoldable pub tty_write : World → ℕ → List ℕ → Option World
tty_write w n [] = some w
tty_write w n (ch ∷ chs) = elim (out_char (view w n) ch) [
  | none ↦ none
  | some s ↦ tty_write (with_screen w n s) n chs
]
