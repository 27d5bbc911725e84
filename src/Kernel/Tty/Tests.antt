-- ===== src/Kernel/Tty/Tests.antt =====
-- Three terminals after `init_tty`, and the theorems at concrete inputs.
use prettyos.Common.{ℕ, ◌<◌, ◌≡◌, refl, some, if◌then◌else◌, ltb, arith}
use prettyos.Kernel.Console.{init_console}
use prettyos.Kernel.Console.Start.{init_console-IsConsole}
use prettyos.Kernel.Ring.{empty_ring, put, get, store, advance}
use prettyos.Kernel.Tty.{World, in_process, tty_do_write}
use prettyos.Kernel.Tty.Keys.{IsWorld, Written, oldest, in_process-IsWorld, tty_do_write-Written}

-- The numbers from three on stand for no terminal, and are given the first one's console.
abbrev pub started : World
started = record {
  consoles = λ i. init_console (if ltb i 3 then i else 0);
  in_bufs = λ i. empty_ring (λ j. 0);
  nr_current_console = 0;
  vmem = λ i. 0;
  out_char_number = 0;
  disp_pos = 0;
  crtc_cursor = 0;
  crtc_start = 0;
}

below_three : (i : ℕ) → (if ltb i 3 then i else 0) < 3
below_three i = ground arith

pub started-IsWorld : IsWorld started
unfolding empty_ring
started-IsWorld = record {
  rings = λ i. record { tail = omega arith; fits = omega arith; head = refl };
  screens = λ i. init_console-IsConsole (if ltb i 3 then i else 0) (below_three i);
  current = omega arith;
}

-- `F2` with the left Alt key.
in_process-IsWorld_example : IsWorld (in_process started 0 0x2112)
in_process-IsWorld_example = in_process-IsWorld started 0 0x2112 started-IsWorld

abbrev typed : World
typed = in_process started 1 0x41

typed-IsWorld : IsWorld typed
typed-IsWorld = in_process-IsWorld started 1 0x41 started-IsWorld

tty_do_write-Written_example :
    (w' : World) × (tty_do_write typed 1 ≡ some w') × Written typed 1 (oldest typed 1) w'
unfolding in_process prettyos.Kernel.Tty.put_key put get empty_ring store advance init_console
tty_do_write-Written_example =
    tty_do_write-Written typed 1 typed-IsWorld (omega arith) (omega arith, omega arith)
      (λ e. omega arith)
