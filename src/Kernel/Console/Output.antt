-- ===== src/Kernel/Console/Output.antt =====
-- `out_char` on a console: it ends, and leaves a console with its cursor on it.
use prettyos.Common.{
  ℕ, zero, suc, ◌+◌, ◌-◌, ◌*◌, ◌/◌, ◌%◌, ◌^◌, ◌≤◌, ◌<◌, ◌≡◌, ◌≢◌, refl, true, none, some, arith,
  ltb, leb, ◌==◌, ◌&&◌, Bool-cases, inl, inr, ltb→lt, ==_iff,
}
use prettyos.Kernel.Console.{
  Console, Screen, screen_width, screen_size, add32, sub32, mul32, Direction, scroll_screen_up,
  scroll_screen_down, scroll_screen, scroll_loop, scrolled_down, scrolled_up, wrapped, flush,
  clean_console_screen, new_line, backspace, put_char, out_case, out_char, finish,
}
use prettyos.Kernel.Console.Scroll.{IsConsole, CursorOn, scroll_loop-Followed}

-- A console with its cursor on it.
abbrev pub Valid : Screen → Type 0
Valid s = IsConsole s.con × CursorOn s.con

wrapped-IsConsole : (c : Console) → IsConsole c → IsConsole (wrapped c)
wrapped-IsConsole c v =
    let r = v.rows in
    let e2 = v.window in
    record {
      rows = 0;
      start = omega arith;
      window = omega arith;
      small = v.small;
      whole_rows = v.whole_rows;
      room = v.room;
    }

scrolled_down-IsConsole :
    (c : Console)
    → IsConsole c
    → add32 c.current_start_addr screen_size < add32 c.original_addr c.v_mem_limit
    → IsConsole (scrolled_down c)
scrolled_down-IsConsole c v h =
    let r = v.rows in
    let e1 = v.start in
    let e2 = v.window in
    let e3 = v.small in
    let e4 = v.room in
    let e5 = v.whole_rows in
    record {
      rows = v.rows + 1;
      start = omega arith;
      window = omega arith;
      small = v.small;
      whole_rows = v.whole_rows;
      room = v.room;
    }

scrolled_up-IsConsole :
    (c : Console) → IsConsole c → c.original_addr < c.current_start_addr → IsConsole (scrolled_up c)
scrolled_up-IsConsole c v h =
    let r = v.rows in
    let e1 = v.start in
    let e2 = v.window in
    let e3 = v.small in
    let e4 = v.room in
    record {
      rows = v.rows - 1;
      start = omega arith;
      window = omega arith;
      small = v.small;
      whole_rows = v.whole_rows;
      room = v.room;
    }

-- Scrolling a console up or down, at the ends of its memory too, leaves its window at a whole
-- number of rows inside its part of the video memory.
pub scroll_screen-IsConsole :
    (s : Screen) (d : Direction) → IsConsole s.con → IsConsole (scroll_screen s d).con
unfolding scroll_screen flush
scroll_screen-IsConsole s scroll_screen_up v =
    elim (Bool-cases (ltb s.con.original_addr s.con.current_start_addr)) [
      | inl c ↦ rw c (scrolled_up-IsConsole s.con v (ltb→lt _ _ c))
      | inr c ↦ rw c v
    ]
scroll_screen-IsConsole s scroll_screen_down v =
    elim (Bool-cases (
      ltb (add32 s.con.current_start_addr screen_size)
        (add32 s.con.original_addr s.con.v_mem_limit))) [
          | inl c ↦ rw c (scrolled_down-IsConsole s.con v (ltb→lt _ _ c))
          | inr c ↦ rw c (wrapped-IsConsole s.con v)
        ]

pub scroll_screen_stays :
    (s : Screen)
    → ((scroll_screen s scroll_screen_down).con.original_addr ≡ s.con.original_addr)
      × ((scroll_screen s scroll_screen_down).con.v_mem_limit ≡ s.con.v_mem_limit)
unfolding scroll_screen flush clean_console_screen
scroll_screen_stays s =
    elim (Bool-cases (
      ltb (add32 s.con.current_start_addr screen_size)
        (add32 s.con.original_addr s.con.v_mem_limit))) [
          | inl c ↦ (rw c refl, rw c refl)
          | inr c ↦ (rw c refl, rw c refl)
        ]

scroll_screen_cursor : (s : Screen) → (scroll_screen s scroll_screen_down).con.cursor ≡ s.con.cursor
unfolding scroll_screen flush clean_console_screen
scroll_screen_cursor s =
    elim (Bool-cases (
      ltb (add32 s.con.current_start_addr screen_size)
        (add32 s.con.original_addr s.con.v_mem_limit))) [ inl c ↦ rw c refl | inr c ↦ rw c refl ]

-- A cursor moved within the console.
pub with_cursor : (c : Console) (k : ℕ) → IsConsole c → IsConsole (record c { cursor = k })
with_cursor c k v = record {
  rows = v.rows;
  start = v.start;
  window = v.window;
  small = v.small;
  whole_rows = v.whole_rows;
  room = v.room;
}

next_row :
    (o l k : ℕ)
    → l ≤ 8000
    → l % 80 ≡ 0
    → o + l + 8000 ≤ 2 ^ 32
    → o ≤ k
    → 2000 ≤ l
    → k < sub32 (add32 o l) 80
    → (o ≤ add32 o (mul32 80 (sub32 k o / 80 + 1)))
      × (add32 o (mul32 80 (sub32 k o / 80 + 1)) < o + l)
next_row o l k a b c d e f =
    let q = (k - o) / 80 in
    let e1 : sub32 k o ≡ k - o = omega arith in
    let e3 : 80 * q + 160 ≤ l = omega arith in
    let e2 : add32 o (mul32 80 (q + 1)) ≡ o + 80 * (q + 1) = omega arith in
    rw e1 (rw e2 (omega arith, omega arith))

new_line-Valid : (s : Screen) → Valid s → Valid (new_line s)
unfolding new_line
new_line-Valid s (v, on) =
    let r = v.rows in
    let e1 = v.start in
    let e2 = v.window in
    let e3 = v.small in
    let e4 = v.room in
    let e5 = v.whole_rows in
    elim (Bool-cases
      (ltb s.con.cursor (sub32 (add32 s.con.original_addr s.con.v_mem_limit) screen_width))) [
        | inl c ↦ rw c (
          with_cursor _ _ v,
          next_row s.con.original_addr s.con.v_mem_limit s.con.cursor e3 e5 e4 on.0 (omega arith)
              (ltb→lt _ _ c),
        )
        | inr c ↦
            let (p, q) = scroll_screen_stays s in
            rw c (
              with_cursor _ _ (scroll_screen-IsConsole s scroll_screen_down v),
              (omega arith, omega arith),
            )
      ]

backspace-Valid : (s : Screen) → Valid s → Valid (backspace s)
unfolding backspace
backspace-Valid s (v, on) =
    let e4 = v.room in
    elim (Bool-cases (ltb s.con.original_addr s.con.cursor && ltb 0 s.out_char_number)) [
      | inl c ↦
          let k : s.con.original_addr < s.con.cursor = ground arith in
          rw c (with_cursor _ _ v, (omega arith, omega arith))
      | inr c ↦ rw c (v, on)
    ]

put_char-Valid : (s : Screen) (ch : ℕ) → Valid s → Valid (put_char s ch)
unfolding put_char
put_char-Valid s ch (v, on) =
    let e4 = v.room in
    elim (Bool-cases (ltb s.con.cursor (sub32 (add32 s.con.original_addr s.con.v_mem_limit) 1))) [
      | inl c ↦
          let k = ltb→lt s.con.cursor (sub32 (add32 s.con.original_addr s.con.v_mem_limit) 1) c in
          rw c (with_cursor _ _ v, (omega arith, omega arith))
      | inr c ↦ rw c (v, on)
    ]

pub out_case-Valid : (s : Screen) (ch : ℕ) → ch ≢ 9 → Valid s → Valid (out_case s ch)
unfolding out_case
out_case-Valid s ch n v = elim (Bool-cases (ch == 0x0a)) [
  | inl c ↦ rw c (new_line-Valid s v)
  | inr c ↦ elim (Bool-cases (ch == 0x08)) [
    | inl d ↦ rw (c, d) (backspace-Valid s v)
    | inr d ↦ elim (Bool-cases (ch == 0x09)) [
      | inl e ↦ absurd (n ((==_iff ch 9).0 e))
      | inr e ↦ rw (c, d, e) (put_char-Valid s ch v)
    ]
  ]
]

-- The outcome of `out_char`: a console whose cursor stands on it and above the window's end, which the
-- CRT controller was told of.
pub record Shown (s t : Screen) : Type 0 where
  pub valid : Valid t
  pub visible : t.con.cursor < t.con.current_start_addr + screen_size
  pub cursor : t.con.cursor ≡ s.con.cursor
  pub original : t.con.original_addr ≡ s.con.original_addr
  pub memory : (i : ℕ) → t.vmem i ≡ s.vmem i
  pub counted : t.out_char_number ≡ s.out_char_number
  pub told : t.crtc_cursor ≡ t.con.cursor % 2 ^ 16
  pub shown : t.crtc_start ≡ t.con.current_start_addr % 2 ^ 16

finish-Shown : (s : Screen) → Valid s → (t : Screen) × (finish s ≡ some t) × Shown s t
unfolding flush
finish-Shown s (v, on) =
    let r = v.rows in
    let e1 = v.start in
    let e3 = v.small in
    let (t, e, f) = scroll_loop-Followed 99 s v on (omega arith) in
    let e5 = f.cursor in
    let e6 = f.original in
    let e7 = f.limit in
    (
      flush t,
      rw (e, finish) refl,
      record {
        valid = (f.console, (omega arith, omega arith));
        visible = f.visible;
        cursor = f.cursor;
        original = f.original;
        memory = f.memory;
        counted = f.counted;
        told = refl;
        shown = refl;
      },
    )

-- On a valid console `out_char` of any character but a tab ends, and leaves a valid console whose
-- cursor is above the end of the window, with the cursor, the video memory and the counter that the
-- character's case leaves, and the controller told of the cursor and of the window.
pub out_char-Shown :
    (s : Screen) (ch : ℕ)
    → ch ≢ 9
    → Valid s
    → (t : Screen) × (out_char s ch ≡ some t) × Shown (out_case s ch) t
unfolding out_char
out_char-Shown s ch n v = finish-Shown (out_case s ch) (out_case-Valid s ch n v)

-- Once the cursor of a console is past its part of the video memory, the loop at the end of `out_char`
-- never ends: no number of rounds is enough.
scroll_loop_stuck :
    (fuel : ℕ) (s : Screen)
    → IsConsole s.con
    → s.con.original_addr + s.con.v_mem_limit ≤ s.con.cursor
    → scroll_loop fuel s ≡ none
unfolding scroll_loop
scroll_loop_stuck zero s v h = refl
scroll_loop_stuck (suc fuel) s v h =
    let r = v.rows in
    let e1 = v.start in
    let e2 = v.window in
    let e4 = v.room in
    let c : leb (add32 s.con.current_start_addr screen_size) s.con.cursor ≡ true = ground arith in
    let (p, q) = scroll_screen_stays s in
    let k = scroll_screen_cursor s in
    rw (c, scroll_loop)
      (scroll_loop_stuck fuel (scroll_screen s scroll_screen_down)
        (scroll_screen-IsConsole s scroll_screen_down v) (omega arith))

-- On a console with the cursor on it and the window not at its end, scrolling down and up again puts
-- the window back but not the cursor: it ends 80 cells before its place, in 32-bit arithmetic.
scroll_down_up_cursor :
    (s : Screen)
    → IsConsole s.con
    → CursorOn s.con
    → s.con.current_start_addr + screen_size < s.con.original_addr + s.con.v_mem_limit
    → ((scroll_screen (scroll_screen s scroll_screen_down) scroll_screen_up).con.current_start_addr
        ≡ s.con.current_start_addr)
      × ((scroll_screen (scroll_screen s scroll_screen_down) scroll_screen_up).con.cursor
          ≡ sub32 s.con.cursor screen_width)
unfolding scroll_screen flush
scroll_down_up_cursor s v on h =
    let r = v.rows in
    let e1 = v.start in
    let e2 = v.window in
    let e3 = v.small in
    let e4 = v.room in
    let c : ltb (add32 s.con.current_start_addr screen_size)
          (add32 s.con.original_addr s.con.v_mem_limit)
        ≡ true =
      ground arith in
    let d : ltb s.con.original_addr (add32 s.con.current_start_addr screen_width) ≡ true =
      ground arith in
    (rw (c, d) (omega arith), rw (c, d) refl)
