-- ===== src/Kernel/Console/Tests.antt =====
-- A console at concrete contents, and the theorems at concrete inputs.
use prettyos.Common.{ℕ, ◌≡◌, ◌+◌, refl, some, arith}
use prettyos.Kernel.Console.{Screen, init_console, out_char, out_case, tab}
use prettyos.Kernel.Console.Scroll.{IsConsole}
use prettyos.Kernel.Console.Output.{Valid, Shown, out_char-Shown}
use prettyos.Kernel.Console.Erase.{Erased, cell, out_char_erase}

-- The second console, right after `init_screen`.
abbrev second : Screen
second = record {
  con = init_console 1;
  vmem = λ i. 0;
  out_char_number = 0;
  disp_pos = 0;
  crtc_cursor = 0;
  crtc_start = 0;
}

second-IsConsole : IsConsole second.con
unfolding init_console
second-IsConsole = record {
  rows = 0;
  start = refl;
  window = omega arith;
  small = omega arith;
  whole_rows = refl;
  room = omega arith;
}

second-Valid : Valid second
unfolding init_console
second-Valid = (second-IsConsole, (omega arith, omega arith))

out_char-Shown_example :
    (t : Screen) × (out_char second 0x0a ≡ some t) × Shown (out_case second 0x0a) t
out_char-Shown_example = out_char-Shown second 0x0a (λ e. omega arith) second-Valid

out_char_erase_example :
    (t : Screen) × (out_char second 0x41 ≡ some t)
    × (t.con.cursor ≡ second.con.cursor + 1)
    × ((i : ℕ) → t.vmem i ≡ cell second 0x41 i)
    × ((u : Screen) × (out_char t 0x08 ≡ some u) × Erased second u)
unfolding init_console
out_char_erase_example = out_char_erase second 0x41 refl second-Valid (omega arith)

-- The cursor five cells before the end of the console, and then a tab.
abbrev nearly_full : Screen
nearly_full = record second { con = record (second.con) { cursor = 5461 + 5435 } }

tabbed-IsConsole : IsConsole (tab nearly_full).con
unfolding init_console tab
tabbed-IsConsole = record {
  rows = 0;
  start = refl;
  window = omega arith;
  small = omega arith;
  whole_rows = refl;
  room = omega arith;
}
