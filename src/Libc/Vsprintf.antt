-- ===== src/Libc/Vsprintf.antt =====
-- Formatted output: `vsprintf` of lib/vsprintf.c. `args` is the address of the first argument, each of which takes
-- four bytes, the low one first; `tmp` is the address of the 32 bytes of its local array. It does not end its output.
mod Tests
use prettyos.Common.{
  ℕ, zero, suc, ◌+◌, ◌-◌, ◌*◌, ◌^◌, Bool, true, false, ◌||◌, Option, none, some, ◌==◌, ltb,
  if◌then◌else◌,
}
use prettyos.Common.Int.{ℤ, pos, negsuc}
use prettyos.Libc.Strings.{Mem, store, memset, strlen, strcpy, itoa, htoa}

-- `*((int *)next_arg)`, as the number of its bits
unfoldable pub word_at : Mem → ℕ → ℕ
word_at m a = m a + m (a + 1) * 2 ^ 8 + m (a + 2) * 2 ^ 16 + m (a + 3) * 2 ^ 24

-- `-value` of a negative value, which the least one keeps
unfoldable pub negated : ℕ → ℤ
negated value = if value == 2 ^ 31 then negsuc (2 ^ 31 - 1) else pos (2 ^ 32 - value)

-- The length of NULL is -1.
unfoldable pub moved : ℕ → ℤ → ℕ
moved p (pos n) = p + n
moved p (negsuc n) = p - (n + 1)

-- `strcpy` of a string, and `p` moved on by its length
unfoldable pub after_copy : ℕ → ℕ → Option (ℤ × Mem) → Option ℤ → Option (Mem × ℕ)
after_copy src p none length = none
after_copy src p (some (code, m)) none = none
after_copy src p (some (code, m)) (some length) = some (m, moved p length)

-- `strlen` reads the memory that `strcpy` left.
unfoldable pub memory_of : Mem → Option (ℤ × Mem) → Mem
memory_of m none = m
memory_of m (some (code, copied)) = copied

unfoldable pub put_string : ℕ → Mem → ℕ → ℕ → Option (Mem × ℕ)
put_string fuel m p src =
    let copied = strcpy fuel m p src in
    after_copy src p copied (strlen fuel (memory_of m copied) src)

unfoldable pub put_digits : ℕ → ℕ → ℕ → Option Mem → Option (Mem × ℕ)
put_digits fuel p tmp none = none
put_digits fuel p tmp (some m) = put_string fuel m p tmp

unfoldable pub put_decimal : ℕ → Mem → ℕ → ℕ → ℕ → Option (Mem × ℕ)
put_decimal fuel m p tmp value =
    if ltb value (2 ^ 31)
    then put_digits fuel p tmp (itoa fuel m tmp (pos value))
    else put_digits fuel (p + 1) tmp (itoa fuel (store m p 0x2d) tmp (negated value))

-- The cases of the letter after '%': the memory, `p` and `next_arg`. The letters are s, c, d, and p or x.
unfoldable pub with_next : ℕ → Option (Mem × ℕ) → Option (Mem × ℕ × ℕ)
with_next arg none = none
with_next arg (some (m, p)) = some (m, p, arg)

unfoldable pub converted : ℕ → Mem → ℕ → ℕ → ℕ → ℕ → Option (Mem × ℕ × ℕ)
converted fuel m p tmp arg letter =
    if letter == 0x73
    then with_next (arg + 4) (put_string fuel m p (word_at m arg))
    else if letter == 0x63
    then some (store m p (m arg), p + 1, arg + 4)
    else if letter == 0x64
    then with_next (arg + 4) (put_decimal fuel m p tmp (word_at m arg))
    else if (letter == 0x70) || (letter == 0x78)
    then with_next (arg + 4) (put_string fuel (htoa m tmp (word_at m arg)) p tmp)
    else some (m, p, arg)

-- One round: a character, or a conversion, and what it leaves of the format
unfoldable pub format_round : ℕ → Mem → ℕ → ℕ → ℕ → ℕ → Option (Mem × ℕ × ℕ)
format_round fuel m fmt p tmp arg =
    if m fmt == 0x25
    then converted fuel m p tmp arg (m (fmt + 1))
    else some (store m p (m fmt), p + 1, arg)

unfoldable pub next_format : Mem → ℕ → ℕ
next_format m fmt = if m fmt == 0x25 then fmt + 2 else fmt + 1

-- `none` means that the fuel ran out. A '%' at the end of the format takes the loop past it.
unfoldable pub format_loop : ℕ → ℕ → Mem → ℕ → ℕ → ℕ → ℕ → Option (Mem × ℕ)
format_loop zero fuel m fmt p tmp arg = none
format_loop (suc rounds) fuel m fmt p tmp arg = elim (m fmt == 0) [
  | true ↦ some (m, p)
  | false ↦ elim (format_round fuel m fmt p tmp arg) [
    | none ↦ none
    | some (after, q, next) ↦ format_loop rounds fuel after (next_format m fmt) q tmp next
  ]
]

unfoldable pub written_to : ℕ → Option (Mem × ℕ) → Option (ℕ × Mem)
written_to buf none = none
written_to buf (some (m, p)) = some (p - buf, m)

unfoldable pub vsprintf : ℕ → Mem → ℕ → ℕ → ℕ → ℕ → Option (ℕ × Mem)
vsprintf fuel m buf fmt args tmp =
    written_to buf (format_loop fuel fuel (memset m tmp 0 (pos 32)).1 fmt buf tmp args)
