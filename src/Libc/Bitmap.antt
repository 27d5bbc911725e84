-- ===== src/Libc/Bitmap.antt =====
-- Bitmaps of bytes, lib/bitmap.c, and the process numbers taken from one, kernel/pid.c. A bitmap gives
-- a byte at each index.
mod Tests
pub mod First
use prettyos.Common.{
  ℕ, zero, suc, ◌+◌, ◌-◌, ◌*◌, ◌/◌, ◌%◌, ◌^◌, Bool, true, false, ◌==◌, if◌then◌else◌, bit_and,
  bit_or,
}
use prettyos.Common.Int.{ℤ, pos, neg}

abbrev pub Bitmap : Type 0
Bitmap = ℕ → ℕ

-- `__set_bit`: `*ch |= (1<<nr & 0xFF)`
unfoldable pub set_bit : ℕ → ℕ → ℕ
set_bit nr ch = bit_or ch (2 ^ nr % 0x100)

-- `__clear_bit`: `*ch &= (~(1<<nr) & 0xFF)`
unfoldable pub clear_bit : ℕ → ℕ → ℕ
clear_bit nr ch = bit_and ch (0xff - 2 ^ nr % 0x100)

-- The processor's `bsf` on the low byte, with the result 0 where no bit is set: the index of the lowest bit, of `left`
-- bits from i on.
unfoldable pub scan_forward : ℕ → ℕ → ℕ → ℕ
scan_forward zero i ch = 0
scan_forward (suc left) i ch = elim (ch / 2 ^ i % 2 == 1) [
  | true ↦ i
  | false ↦ scan_forward left (i + 1) ch
]

unfoldable pub find_first_bit : ℕ → ℕ
find_first_bit ch = scan_forward 8 0 ch

-- `~ch & 0xFF` of a byte
unfoldable pub find_first_zero : ℕ → ℕ
find_first_zero ch = find_first_bit (0xff - ch)

unfoldable pub get_from : ℕ → Bitmap → ℕ → ℤ
get_from zero bitmap i = neg 1
get_from (suc left) bitmap i = elim (bitmap i == 0xff) [
  | true ↦ get_from left bitmap (i + 1)
  | false ↦ pos (find_first_zero (bitmap i) + 1 * i)
]

unfoldable pub get_first_bit : Bitmap → ℕ → ℤ
get_first_bit bitmap size = get_from size bitmap 0

abbrev pub with_byte : Bitmap → ℕ → ℕ → Bitmap
with_byte bitmap i ch k = if i == k then ch else bitmap k

-- The result is `first + sizeof(unsigned char) * i`.
unfoldable pub set_from : ℕ → Bitmap → ℕ → ℤ × Bitmap
set_from zero bitmap i = (neg 1, bitmap)
set_from (suc left) bitmap i = elim (bitmap i == 0xff) [
  | true ↦ set_from left bitmap (i + 1)
  | false ↦ (
    pos (find_first_zero (bitmap i) + 1 * i),
    with_byte bitmap i (set_bit (find_first_zero (bitmap i)) (bitmap i)),
  )
]

unfoldable pub set_first_bit : Bitmap → ℕ → ℤ × Bitmap
set_first_bit bitmap size = set_from size bitmap 0

-- `MAX_PIDNUM/8`
abbrev pub pidmap_size : ℕ
pidmap_size = 128

unfoldable pub init_pidmap : Bitmap
init_pidmap i = if 0 == i then bit_or 0 0x01 else 0

unfoldable pub get_pidmap : Bitmap → ℤ × Bitmap
get_pidmap pidmap = set_first_bit pidmap pidmap_size
