-- ===== src/Kernel/Tty/Keys.antt =====
-- The terminals under the keys and the task: buffers and consoles stay well formed, and a terminal's
-- task writes the oldest key.
use prettyos.Common.{
  ℕ, ◌-◌, ◌%◌, ◌^◌, ◌<◌, ◌≡◌, ◌≢◌, refl, Bool, true, false, some, ◌∷◌, arith, leb, ◌==◌, ◌&&◌, ◌||◌,
  if◌then◌else◌, Bool-cases, inl, inr, leb_false→lt, bit_and,
}
use prettyos.Kernel.Console.{
  Screen, Direction, scroll_screen_up, scroll_screen_down, scroll_screen, flush, out_case,
  nr_consoles,
}
use prettyos.Kernel.Console.Scroll.{IsConsole, CursorOn}
use prettyos.Kernel.Console.Output.{Shown, out_char-Shown, scroll_screen-IsConsole}
use prettyos.Kernel.Ring.{Ring, get}
use prettyos.Kernel.Ring.Contents.{IsRing, contents, put-Queued, get-Taken}
use prettyos.Kernel.Keymap.{enter, backspace, tab, up, down, f1, f12}
use prettyos.Kernel.Tty.{
  World, view, with_screen, with_in_buf, tty_in_bytes, put_key, in_process, select_console,
  tty_do_write, flag_ext, flag_shift_l, flag_shift_r, flag_alt_l, flag_alt_r, mask_raw, nonzero,
}

-- Every buffer and every console is well formed, and the console on the screen is one of them.
pub record IsWorld (w : World) : Type 0 where
  pub rings : (i : ℕ) → IsRing tty_in_bytes (w.in_bufs i)
  pub screens : (i : ℕ) → IsConsole (w.consoles i)
  pub current : w.nr_current_console < nr_consoles

with_screen-IsWorld :
    (w : World) (n : ℕ) (s : Screen) → IsWorld w → IsConsole s.con → IsWorld (with_screen w n s)
with_screen-IsWorld w n s v c = record {
  rings = v.rings;
  screens = λ i. elim (Bool-cases (n == i)) [ inl e ↦ rw e c | inr e ↦ rw e (v.screens i) ];
  current = v.current;
}

with_in_buf-IsWorld :
    (w : World) (n : ℕ) (r : Ring) → IsWorld w → IsRing tty_in_bytes r → IsWorld (with_in_buf w n r)
with_in_buf-IsWorld w n r v c = record {
  rings = λ i. elim (Bool-cases (n == i)) [ inl e ↦ rw e c | inr e ↦ rw e (v.rings i) ];
  screens = v.screens;
  current = v.current;
}

put_key-IsWorld : (w : World) (n key : ℕ) → IsWorld w → IsWorld (put_key w n key)
unfolding put_key
put_key-IsWorld w n key v =
    with_in_buf-IsWorld w n _ v (put-Queued tty_in_bytes (w.in_bufs n) key (v.rings n)).0

scrolled-IsWorld :
    (w : World) (n : ℕ) (d : Direction) (b : Bool)
    → IsWorld w
    → IsWorld (if b then with_screen w n (scroll_screen (view w n) d) else w)
scrolled-IsWorld w n d true v =
    with_screen-IsWorld w n _ v (scroll_screen-IsConsole (view w n) d (v.screens n))
scrolled-IsWorld w n d false v = v

select_console-IsWorld : (w : World) (nr : ℕ) → IsWorld w → IsWorld (select_console w nr)
unfolding select_console flush
select_console-IsWorld w nr v = elim (Bool-cases (leb nr_consoles nr)) [
  | inl e ↦ rw e v
  | inr e ↦ rw e (
      with_screen-IsWorld (record w { nr_current_console = nr }) nr (flush (view w nr))
        (record { rings = v.rings; screens = v.screens; current = leb_false→lt _ _ e })
        (v.screens nr))
]

selected-IsWorld :
    (w : World) (nr : ℕ) (b : Bool) → IsWorld w → IsWorld (if b then select_console w nr else w)
selected-IsWorld w nr true v = select_console-IsWorld w nr v
selected-IsWorld w nr false v = v

if-IsWorld : (b : Bool) (x y : World) → IsWorld x → IsWorld y → IsWorld (if b then x else y)
if-IsWorld true x y p q = p
if-IsWorld false x y p q = q

-- Where the buffers and the consoles are well formed, they stay so whatever key is pressed, with
-- whatever flags, and the console on the screen stays one of the three.
pub in_process-IsWorld : (w : World) (n key : ℕ) → IsWorld w → IsWorld (in_process w n key)
unfolding in_process
in_process-IsWorld w n key v =
    let raw = bit_and key mask_raw in
    let shift = nonzero (bit_and key flag_shift_l) || nonzero (bit_and key flag_shift_r) in
    let alt = nonzero (bit_and key flag_alt_l) || nonzero (bit_and key flag_alt_r) in
    let put_ok = λ (c : ℕ). put_key-IsWorld w n c v in
    let fn = if-IsWorld (leb f1 raw && leb raw f12) _ w (selected-IsWorld w (raw - f1) alt v) v in
    let dn = if-IsWorld (raw == down) _ _ (scrolled-IsWorld w n scroll_screen_down shift v) fn in
    let u = if-IsWorld (raw == up) _ _ (scrolled-IsWorld w n scroll_screen_up shift v) dn in
    let t = if-IsWorld (raw == tab) _ _ (put_ok 0x09) u in
    let b = if-IsWorld (raw == backspace) _ _ (put_ok 0x08) t in
    let e = if-IsWorld (raw == enter) _ _ (put_ok 0x0a) b in
    if-IsWorld (bit_and key flag_ext == 0) _ _ (put_ok key) e

-- The outcome of `tty_do_write` on a buffer whose oldest key is c.
pub record Written (w : World) (n c : ℕ) (w' : World) : Type 0 where
  pub taken : contents tty_in_bytes (w.in_bufs n) ≡ c ∷ contents tty_in_bytes (w'.in_bufs n)
  pub printed : Shown (out_case (view w n) (c % 2 ^ 8)) (view w' n)
  pub world : IsWorld w'
  pub others : (i : ℕ) → i ≢ n → (w'.in_bufs i ≡ w.in_bufs i) × (w'.consoles i ≡ w.consoles i)

abbrev pub oldest : World → ℕ → ℕ
oldest w n = (get tty_in_bytes (w.in_bufs n)).0

-- Where the buffers and the consoles are well formed, on a terminal with a key in its buffer and its
-- cursor on its console, `tty_do_write` ends, unless the low byte of the oldest key is a tab: the
-- oldest key leaves the buffer, its low byte is printed on the terminal's own console, the buffers
-- and consoles of the other terminals stay as they are, and all stay well formed.
pub tty_do_write-Written :
    (w : World) (n : ℕ)
    → IsWorld w
    → 0 < (w.in_bufs n).count
    → CursorOn (w.consoles n)
    → oldest w n % 2 ^ 8 ≢ 9
    → (w' : World) × (tty_do_write w n ≡ some w') × Written w n (oldest w n) w'
unfolding tty_do_write
tty_do_write-Written w n v p on k =
    let c : (w.in_bufs n).count == 0 ≡ false = ground arith in
    let (r, e) = get-Taken tty_in_bytes (w.in_bufs n) (v.rings n) p in
    let w1 = with_in_buf w n (get tty_in_bytes (w.in_bufs n)).1 in
    let same : (n == n) ≡ true = ground arith in
    let (t, f, g) = out_char-Shown (view w n) (oldest w n % 2 ^ 8) k (v.screens n, on) in
    (
      with_screen w1 n t,
      rw (c, tty_do_write) (rw f refl),
      record {
        taken = rw same e;
        printed = rw same g;
        world = with_screen-IsWorld w1 n t (with_in_buf-IsWorld w n _ v r) g.valid.0;
        others = λ i ne. let d : (n == i) ≡ false = ground arith in (rw d refl, rw d refl);
      },
    )
