-- ===== src/Libc/Bitmap/Tests.antt =====
-- Bitmaps at concrete contents, and the theorems at concrete inputs.
use prettyos.Common.{ℕ, ◌<◌, ◌⊎◌, arith, ◌==◌, if◌then◌else◌}
use prettyos.Libc.Bitmap.{Bitmap, set_first_bit}
use prettyos.Libc.Bitmap.First.{Marked, Full, set_first_bit-Marked}

-- The first eight numbers are taken.
abbrev eight : Bitmap
eight k = if 0 == k then 0xff else 0

eight_bytes : (k : ℕ) → eight k < 0x100
eight_bytes k = ground arith

set_first_bit-Marked_example :
    Marked 4 eight (set_first_bit eight 4) ⊎ Full 4 eight (set_first_bit eight 4)
set_first_bit-Marked_example = set_first_bit-Marked 4 eight eight_bytes
