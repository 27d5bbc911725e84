-- ===== src/Kernel/Console/Start.antt =====
-- The consoles after `init_screen`.
use prettyos.Common.{
  ℕ, zero, suc, ◌%◌, ◌^◌, ◌<◌, ◌≡◌, refl, ◌∙◌, ◌==◌, Bool-cases, inl, inr, ==_iff, arith,
}
use prettyos.Kernel.Console.{
  Screen, init_console, init_screen, scroll_rows, set_cursor, scroll_screen, scroll_screen_down,
  screen_high, screen_size,
}
use prettyos.Kernel.Console.Scroll.{IsConsole}
use prettyos.Kernel.Console.Output.{
  Valid, scroll_screen-IsConsole, scroll_screen_stays, with_cursor,
}

pub init_console-IsConsole : (n : ℕ) → n < 3 → IsConsole (init_console n)
unfolding init_console
init_console-IsConsole n h = record {
  rows = 0;
  start = omega arith;
  window = omega arith;
  small = omega arith;
  whole_rows = refl;
  room = omega arith;
}

scroll_rows-IsConsole : (n : ℕ) (s : Screen) → IsConsole s.con → IsConsole (scroll_rows n s).con
unfolding scroll_rows
scroll_rows-IsConsole zero s v = v
scroll_rows-IsConsole (suc n) s v =
    scroll_rows-IsConsole n (scroll_screen s scroll_screen_down)
      (scroll_screen-IsConsole s scroll_screen_down v)

scroll_rows_stays :
    (n : ℕ) (s : Screen)
    → ((scroll_rows n s).con.original_addr ≡ s.con.original_addr)
      × ((scroll_rows n s).con.v_mem_limit ≡ s.con.v_mem_limit)
unfolding scroll_rows
scroll_rows_stays zero s = (refl, refl)
scroll_rows_stays (suc n) s =
    let (p, q) = scroll_rows_stays n (scroll_screen s scroll_screen_down) in
    let (e, f) = scroll_screen_stays s in (p ∙ e, q ∙ f)

-- `init_screen` of one of the three terminals makes its console valid, with the cursor on it, whatever the
-- state before, and tells the controller the cursor.
init_screen-Valid :
    (s : Screen) (n : ℕ)
    → n < 3
    → Valid (init_screen s n)
      × ((init_screen s n).crtc_cursor ≡ (init_screen s n).con.cursor % 2 ^ 16)
unfolding init_screen set_cursor init_console
init_screen-Valid s n h =
    let v = init_console-IsConsole n h in
    elim (Bool-cases (n == 0)) [
      | inl c ↦
          let t : Screen =
            set_cursor (record s { con = record (init_console n) { cursor = screen_size } }) in
          let w : IsConsole t.con = with_cursor (init_console n) screen_size v in
          let (p, q) = scroll_rows_stays screen_high t in
          let z : n ≡ 0 = (==_iff n 0).0 c in
          rw c (
            (with_cursor _ _ (scroll_rows-IsConsole screen_high t w), (omega arith, omega arith)),
            refl,
          )
      | inr c ↦ rw c ((v, (omega arith, omega arith)), refl)
    ]
