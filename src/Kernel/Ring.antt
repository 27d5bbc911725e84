-- ===== src/Kernel/Ring.antt =====
-- The input buffers of a terminal and of the keyboard: `in_buf` of struct s_tty (256 keys,
-- include/asm-i386/tty.h, filled and emptied by kernel/tty.c) and `buf` of struct s_kb (32 scan codes,
-- include/asm-i386/keyboard.h, kernel/keyboard.c). Both are the same code on the two types, so the
-- functions here take the size. A pointer into the buffer is its index.
mod Tests
pub mod Contents
use prettyos.Common.{ℕ, ◌+◌, ◌-◌, Bool, true, false, if◌then◌else◌, ltb, ◌==◌}

pub record Ring : Type 0 where
  pub buf : ℕ → ℕ
  pub p_head : ℕ
  pub p_tail : ℕ
  pub count : ℕ

unfoldable pub store : (ℕ → ℕ) → ℕ → ℕ → ℕ → ℕ
store m a v i = if a == i then v else m i

-- `p++; if (p == buf + SIZE) p = buf;`
unfoldable pub advance : ℕ → ℕ → ℕ
advance size p = if p + 1 == size then 0 else p + 1

unfoldable pub empty_ring : (ℕ → ℕ) → Ring
empty_ring m = record { buf = m; p_head = 0; p_tail = 0; count = 0 }

-- `put_key`, and the body of `keyboard_handler`
unfoldable pub put : ℕ → Ring → ℕ → Ring
put size r key =
    if ltb r.count size
    then record {
      buf = store r.buf r.p_head key;
      p_head = advance size r.p_head;
      p_tail = r.p_tail;
      count = r.count + 1;
    }
    else r

-- The entry at the tail, and the buffer without it: `tty_do_write` and `get_byte_from_kb_buf` where
-- the count is not 0.
unfoldable pub get : ℕ → Ring → ℕ × Ring
get size r = (r.buf r.p_tail, record r { p_tail = advance size r.p_tail; count = r.count - 1 })
