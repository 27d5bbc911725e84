-- ===== src/Kernel/Console/Scroll.antt =====
-- The window of a console follows its cursor.
use prettyos.Common.{
  ℕ, zero, suc, ◌+◌, ◌*◌, ◌%◌, ◌^◌, ◌≤◌, ◌<◌, ◌≡◌, refl, true, false, some, arith, ltb, leb,
  Bool-cases, inl, inr, leb→le, leb_false→lt,
}
use prettyos.Kernel.Console.{
  Console, Screen, screen_size, add32, scroll_screen_down, scroll_screen, scroll_loop,
  scrolled_down, flush,
}

-- The fields that stay, and the window inside the console's part of the memory.
pub record IsConsole (c : Console) : Type 0 where
  pub rows : ℕ
  pub start : c.current_start_addr ≡ c.original_addr + 80 * rows
  pub window : 80 * rows + screen_size ≤ c.v_mem_limit
  pub small : c.v_mem_limit ≤ 8000
  pub whole_rows : c.v_mem_limit % 80 ≡ 0
  pub room : c.original_addr + c.v_mem_limit + 8000 ≤ 2 ^ 32

-- The cursor stands on the console.
abbrev pub CursorOn : Console → Type 0
CursorOn c = (c.original_addr ≤ c.cursor) × (c.cursor < c.original_addr + c.v_mem_limit)

-- The outcome of the loop: the cursor in the window, nothing but the window moved.
pub record Followed (s t : Screen) : Type 0 where
  pub console : IsConsole t.con
  pub cursor : t.con.cursor ≡ s.con.cursor
  pub original : t.con.original_addr ≡ s.con.original_addr
  pub limit : t.con.v_mem_limit ≡ s.con.v_mem_limit
  pub visible : t.con.cursor < t.con.current_start_addr + screen_size
  pub forward : s.con.current_start_addr ≤ t.con.current_start_addr
  pub memory : (i : ℕ) → t.vmem i ≡ s.vmem i
  pub counted : t.out_char_number ≡ s.out_char_number

module _ (s : Screen) (v : IsConsole s.con) (on : CursorOn s.con) where
  step_down :
      s.con.current_start_addr + screen_size ≤ s.con.cursor
      → scroll_screen s scroll_screen_down ≡ flush (record s { con = scrolled_down s.con })
  unfolding scroll_screen
  step_down h =
      let r = v.rows in
      let e1 = v.start in
      let e2 = v.window in
      let e3 = v.small in
      let e4 = v.room in
      let t : ltb (add32 s.con.current_start_addr screen_size)
            (add32 s.con.original_addr s.con.v_mem_limit)
          ≡ true =
        ground arith in
      rw t

  -- One round leaves a console, 80 further on.
  down-IsConsole :
      s.con.current_start_addr + screen_size ≤ s.con.cursor
      → IsConsole (scrolled_down s.con)
        × ((scrolled_down s.con).current_start_addr ≡ s.con.current_start_addr + 80)
  down-IsConsole h =
      let r = v.rows in
      let e1 = v.start in
      let e2 = v.window in
      let e3 = v.small in
      let e4 = v.room in
      let e5 = v.whole_rows in
      let e : (scrolled_down s.con).current_start_addr ≡ s.con.current_start_addr + 80 =
        omega arith in
      (
        record {
          rows = v.rows + 1;
          start = omega arith;
          window = omega arith;
          small = v.small;
          whole_rows = v.whole_rows;
          room = v.room;
        },
        e,
      )

Followed-refl :
    (s : Screen)
    → IsConsole s.con
    → s.con.cursor < s.con.current_start_addr + screen_size
    → Followed s s
Followed-refl s v h = record {
  console = v;
  cursor = refl;
  original = refl;
  limit = refl;
  visible = h;
  forward = omega arith;
  memory = λ i. refl;
  counted = refl;
}

start_plus :
    (c : Console)
    → IsConsole c
    → add32 c.current_start_addr screen_size ≡ c.current_start_addr + screen_size
start_plus c v = let e1 = v.start in let e2 = v.window in let e4 = v.room in omega arith

abbrev pub Ends : ℕ → Screen → Type 0
Ends fuel s = (t : Screen) × (scroll_loop fuel s ≡ some t) × Followed s t

stay :
    (fuel : ℕ) (s : Screen)
    → IsConsole s.con
    → leb (add32 s.con.current_start_addr screen_size) s.con.cursor ≡ false
    → Ends (suc fuel) s
unfolding scroll_loop
stay fuel s v c =
    (s, rw (c, scroll_loop), Followed-refl s v (rw (start_plus s.con v) at (leb_false→lt _ _ c)))

round_forward :
    (fuel : ℕ) (s : Screen)
    → IsConsole s.con
    → CursorOn s.con
    → leb (add32 s.con.current_start_addr screen_size) s.con.cursor ≡ true
    → s.con.current_start_addr + screen_size ≤ s.con.cursor
    → Ends fuel (flush (record s { con = scrolled_down s.con }))
    → Ends (suc fuel) s
unfolding scroll_loop flush
round_forward fuel s v on c k (t, e, f) =
    let (d, g) = down-IsConsole s v on k in
    (
      t,
      rw (c, scroll_loop) (rw (step_down s v on k) e),
      record {
        console = f.console;
        cursor = f.cursor;
        original = f.original;
        limit = f.limit;
        visible = f.visible;
        forward = let w = f.forward in omega arith;
        memory = f.memory;
        counted = f.counted;
      },
    )

-- The loop ends: each round moves the window by a row, and the cursor is at most so many rows away.
pub scroll_loop-Followed :
    (fuel : ℕ) (s : Screen)
    → IsConsole s.con
    → CursorOn s.con
    → s.con.cursor < s.con.current_start_addr + screen_size + 80 * fuel
    → Ends (suc fuel) s
unfolding flush
scroll_loop-Followed zero s v on m =
    elim (Bool-cases (leb (add32 s.con.current_start_addr screen_size) s.con.cursor)) [
      | inr c ↦ stay zero s v c
      | inl c ↦
          let k : s.con.current_start_addr + screen_size ≤ s.con.cursor =
            rw (start_plus s.con v) at (leb→le _ _ c) in
          absurd (omega arith)
    ]
scroll_loop-Followed (suc fuel) s v on m =
    elim (Bool-cases (leb (add32 s.con.current_start_addr screen_size) s.con.cursor)) [
      | inr c ↦ stay (suc fuel) s v c
      | inl c ↦
          let k : s.con.current_start_addr + screen_size ≤ s.con.cursor =
            rw (start_plus s.con v) at (leb→le _ _ c) in
          let (d, g) = down-IsConsole s v on k in
          round_forward (suc fuel) s v on c k (
            scroll_loop-Followed fuel (flush (record s { con = scrolled_down s.con })) d on
              (omega arith))
    ]
