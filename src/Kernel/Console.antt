-- ===== src/Kernel/Console.antt =====
-- Consoles on the VGA text memory: kernel/console.c.
-- `Screen` is what the functions reach through `p_con`: the console itself, the video memory (bytes
-- from V_MEM_BASE on), the counters of the file and the two register pairs of the CRT controller.
pub mod Scroll
pub mod Output
pub mod Erase
pub mod Start
mod Tests
use prettyos.Common.{
  ℕ, zero, suc, ◌+◌, ◌-◌, ◌*◌, ◌/◌, ◌%◌, ◌^◌, Bool, true, false, List, [], ◌∷◌, Option, none, some,
  ltb, leb, ◌==◌, ◌&&◌, ◌||◌, if◌then◌else◌,
}

-- `CONSOLE`; the fields are `unsigned int`.
pub record Console : Type 0 where
  pub current_start_addr : ℕ
  pub original_addr : ℕ
  pub current_end_addr : ℕ
  pub v_mem_limit : ℕ
  pub cursor : ℕ

pub record Screen : Type 0 where
  pub con : Console
  pub vmem : ℕ → ℕ
  pub out_char_number : ℕ
  pub disp_pos : ℕ
  pub crtc_cursor : ℕ
  pub crtc_start : ℕ

abbrev pub screen_width : ℕ
screen_width = 80

abbrev pub screen_high : ℕ
screen_high = 25

abbrev pub screen_size : ℕ
screen_size = 2000

abbrev pub default_char_color : ℕ
default_char_color = 0x07

abbrev pub nr_consoles : ℕ
nr_consoles = 3

abbrev pub v_mem_size : ℕ
v_mem_size = 0x8000

-- `unsigned int` arithmetic
abbrev pub add32 : ℕ → ℕ → ℕ
add32 a b = (a + b) % 2 ^ 32

abbrev pub sub32 : ℕ → ℕ → ℕ
sub32 a b = (a + 2 ^ 32 - b) % 2 ^ 32

abbrev pub mul32 : ℕ → ℕ → ℕ
mul32 a b = a * b % 2 ^ 32

-- A byte of the video memory.
unfoldable pub poke : (ℕ → ℕ) → ℕ → ℕ → ℕ → ℕ
poke m a v i = if a == i then v else m i

-- `set_cursor` and `set_video_start_addr`: the controller takes two bytes.
unfoldable pub flush : Screen → Screen
flush s = record s {
  crtc_cursor = s.con.cursor % 2 ^ 16;
  crtc_start = s.con.current_start_addr % 2 ^ 16;
}

-- `rep stosw` of 0x720 over `len` words from byte `from` on
unfoldable pub clean : (ℕ → ℕ) → ℕ → ℕ → ℕ → ℕ
clean m from len i =
    if leb from i && ltb i (from + 2 * len) then if (i - from) % 2 == 0 then 0x20 else 0x07 else m i

unfoldable pub clean_console_screen : Screen → Screen
clean_console_screen s = record s {
  vmem = clean s.vmem (mul32 s.con.original_addr 2) s.con.v_mem_limit;
}

pub data Direction : Type 0 where
  scroll_screen_up scroll_screen_down : Direction

abbrev pub scrolled_up : Console → Console
scrolled_up c = record c {
  current_start_addr = sub32 c.current_start_addr screen_width;
  current_end_addr = sub32 c.current_end_addr screen_width;
  cursor = sub32 c.cursor screen_width;
}

abbrev pub scrolled_down : Console → Console
scrolled_down c = record c {
  current_start_addr = add32 c.current_start_addr screen_width;
  current_end_addr =
      if ltb (add32 c.original_addr c.v_mem_limit) (add32 c.current_end_addr screen_width)
      then add32 c.original_addr c.v_mem_limit
      else add32 c.current_end_addr screen_width;
}

abbrev pub wrapped : Console → Console
wrapped c = record c {
  current_start_addr = c.original_addr;
  current_end_addr = add32 c.current_end_addr (add32 c.original_addr screen_size);
}

unfoldable pub scroll_screen : Screen → Direction → Screen
scroll_screen s scroll_screen_up = flush (
    if ltb s.con.original_addr s.con.current_start_addr
    then record s { con = scrolled_up s.con }
    else s)
scroll_screen s scroll_screen_down = flush (
    if ltb (add32 s.con.current_start_addr screen_size)
      (add32 s.con.original_addr s.con.v_mem_limit)
    then record s { con = scrolled_down s.con }
    else record (clean_console_screen s) { con = wrapped s.con; disp_pos = 0 })

-- `while (cursor >= current_start_addr + SCREEN_SIZE) scroll_screen(p_con, SCROLL_SCREEN_DOWN);`;
-- `none` means that the rounds ran out.
unfoldable pub scroll_loop : ℕ → Screen → Option Screen
scroll_loop zero s = none
scroll_loop (suc fuel) s = elim (leb (add32 s.con.current_start_addr screen_size) s.con.cursor) [
  | true ↦ scroll_loop fuel (scroll_screen s scroll_screen_down)
  | false ↦ some s
]

-- The fuel of the loop above: more rounds than a console has rows.
abbrev pub rounds : ℕ
rounds = 100

abbrev pub finish : Screen → Option Screen
finish s = elim (scroll_loop rounds s) [ none ↦ none | some s' ↦ some (flush s') ]

-- The cases of the `switch` of `out_char`.
unfoldable pub new_line : Screen → Screen
new_line s =
    let c = s.con in
    let s' =
      if ltb c.cursor (sub32 (add32 c.original_addr c.v_mem_limit) screen_width)
      then record s {
        con = record c {
          cursor =
              add32 c.original_addr
                (mul32 screen_width (sub32 c.cursor c.original_addr / screen_width + 1));
        };
      }
      else let t = scroll_screen s scroll_screen_down in
        record t { con = record (t.con) { cursor = t.con.original_addr } } in
    record s' { out_char_number = 0 }

unfoldable pub backspace : Screen → Screen
backspace s =
    let c = s.con in
    if ltb c.original_addr c.cursor && ltb 0 s.out_char_number
    then record s {
      con = record c { cursor = sub32 c.cursor 1 };
      vmem = poke (poke s.vmem (2 * c.cursor - 2) 0x20) (2 * c.cursor - 1) default_char_color;
      out_char_number = s.out_char_number - 1;
    }
    else s

unfoldable pub tab : Screen → Screen
tab s = record s {
  con = record (s.con) { cursor = add32 s.con.cursor 8 };
  out_char_number = s.out_char_number + 8;
}

unfoldable pub put_char : Screen → ℕ → Screen
put_char s ch =
    let c = s.con in
    if ltb c.cursor (sub32 (add32 c.original_addr c.v_mem_limit) 1)
    then record s {
      con = record c { cursor = add32 c.cursor 1 };
      vmem = poke (poke s.vmem (2 * c.cursor) ch) (2 * c.cursor + 1) default_char_color;
      out_char_number = s.out_char_number + 1;
    }
    else s

-- The `switch` of `out_char`.
unfoldable pub out_case : Screen → ℕ → Screen
out_case s ch =
    if ch == 0x0a
    then new_line s
    else if ch == 0x08
    then backspace s
    else if ch == 0x09
    then tab s
    else put_char s ch

unfoldable pub out_char : Screen → ℕ → Option Screen
out_char s ch = finish (out_case s ch)

-- The console of `nr_tty` as `init_screen` sets it up, before the test for the first console.
unfoldable pub init_console : ℕ → Console
init_console nr_tty =
    let size = v_mem_size / 2 / nr_consoles in
    let start = nr_tty * size in
    record {
      current_start_addr = start;
      original_addr = start;
      current_end_addr = start + screen_size;
      v_mem_limit = size / screen_width * screen_width;
      cursor = start;
    }

-- `set_cursor` for the cursor of the console
unfoldable pub set_cursor : Screen → Screen
set_cursor s = record s { crtc_cursor = s.con.cursor % 2 ^ 16 }

abbrev with_cursor_at : Screen → ℕ → Screen
with_cursor_at s k = record s { con = record (s.con) { cursor = k } }

-- `while(i < SCREEN_HIGH)`
unfoldable pub scroll_rows : ℕ → Screen → Screen
scroll_rows zero s = s
scroll_rows (suc n) s = scroll_rows n (scroll_screen s scroll_screen_down)

-- `init_screen`, without the delay that leaves time to read the first console
unfoldable pub init_screen : Screen → ℕ → Screen
init_screen s nr_tty =
    let s1 = record s { con = init_console nr_tty } in
    set_cursor (
      if nr_tty == 0
      then with_cursor_at
          (record (scroll_rows screen_high (set_cursor (with_cursor_at s1 screen_size))) {
            disp_pos = screen_size * 2;
          })
          screen_size
      else s1)
