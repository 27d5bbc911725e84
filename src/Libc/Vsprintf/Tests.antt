-- ===== src/Libc/Vsprintf/Tests.antt =====
-- A run of `vsprintf`.
use prettyos.Common.{◌≡◌, refl, none, some, [], ◌∷◌, ◌==◌, if◌then◌else◌}
use prettyos.Libc.Strings.{
  Mem, store, memset, memset_loop, strlen, strlen_loop, strcpy, strcpy_loop, itoa, itoa_of,
  itoa_loop, digit, strreverse, reverse_loop,
}
use prettyos.Libc.Vsprintf.{
  word_at, moved, after_copy, memory_of, put_string, put_digits, put_decimal, with_next, converted,
  format_round, next_format, format_loop, written_to, vsprintf,
}

-- "a%d%c" at 100, and the arguments 42 and 'z' at 200
abbrev memory : Mem
memory i =
    if i == 100
    then 0x61
    else if i == 101
    then 0x25
    else if i == 102
    then 0x64
    else if i == 103
    then 0x25
    else if i == 104
    then 0x63
    else if i == 200
    then 42
    else if i == 204
    then 0x7a
    else 0

-- "a42z"
output :
    (elim (vsprintf 40 memory 300 100 200 400) [
      | none ↦ []
      | some (n, m) ↦ n ∷ m 300 ∷ m 301 ∷ m 302 ∷ m 303 ∷ []
    ])
    ≡ 4 ∷ 0x61 ∷ 0x34 ∷ 0x32 ∷ 0x7a ∷ []
unfolding vsprintf format_loop format_round next_format converted with_next put_decimal put_digits
    put_string after_copy memory_of moved word_at written_to memset memset_loop store strlen
    strlen_loop strcpy strcpy_loop itoa itoa_of itoa_loop digit strreverse reverse_loop
output = refl
