-- ===== src/Libc/Strings.antt =====
-- Strings and memory: lib/string.c. A pointer is an address, NULL is 0, and the memory gives a byte at
-- each address; a `char` is its byte. A loop over a string takes fuel, and `none` means that it ran out.
mod Tests
pub mod Length
pub mod Copy
use prettyos.Common.{
  ℕ, zero, suc, ◌+◌, ◌-◌, ◌*◌, ◌/◌, ◌%◌, ◌^◌, Bool, true, false, not, Option, none, some, ltb, leb,
  ◌==◌, ◌&&◌, ◌||◌, if◌then◌else◌,
}
use prettyos.Common.Int.{ℤ, pos, negsuc, neg, magnitude}

abbrev pub Mem : Type 0
Mem = ℕ → ℕ

abbrev pub null : ℕ
null = 0

unfoldable pub store : Mem → ℕ → ℕ → Mem
store m a v i = if a == i then v else m i

-- `(ch >= ' ') && (ch <= '~')`: no negative `char` passes.
unfoldable pub is_alphanumeric : ℕ → Bool
is_alphanumeric ch = leb 0x20 ch && leb ch 0x7e

-- `while(*str++ != '\0' && ++i);`
unfoldable pub strlen_loop : ℕ → Mem → ℕ → ℕ → Option ℕ
strlen_loop zero m str i = none
strlen_loop (suc fuel) m str i = elim (m str == 0) [
  | true ↦ some i
  | false ↦ strlen_loop fuel m (str + 1) (i + 1)
]

unfoldable pub strlen : ℕ → Mem → ℕ → Option ℤ
strlen fuel m str =
    if str == null
    then some (neg 1)
    else elim (strlen_loop fuel m str 0) [ none ↦ none | some n ↦ some (pos n) ]

-- `while(ptr < p)`; the fuel is the length, and every round takes two from the distance.
unfoldable pub reverse_loop : ℕ → Mem → ℕ → ℕ → Mem
reverse_loop zero m ptr p = m
reverse_loop (suc fuel) m ptr p = elim (ltb ptr p) [
  | true ↦ reverse_loop fuel (store (store m ptr (m p)) p (m ptr)) (ptr + 1) (p - 1)
  | false ↦ m
]

unfoldable pub strreverse : ℕ → Mem → ℕ → Option (ℤ × Mem)
strreverse fuel m ptr = if ptr == null then some (neg 1, m) else elim (strlen_loop fuel m ptr 0) [
  | none ↦ none
  | some n ↦ some (pos 0, reverse_loop n m ptr (ptr + n - 1))
]

-- The decimal digits of a value, the lowest first: the memory and the address after them. The digit of
-- a negative value is negative, and `'0' + bit` wraps in a byte.
unfoldable pub digit : Bool → ℕ → ℕ
digit minus n = if minus then (0x30 + (0x100 - n % 10) % 0x100) % 0x100 else 0x30 + n % 10

unfoldable pub itoa_loop : ℕ → Mem → ℕ → Bool → ℕ → Mem × ℕ
itoa_loop zero m p minus n = (m, p)
itoa_loop (suc fuel) m p minus n = elim (n == 0) [
  | true ↦ (m, p)
  | false ↦ itoa_loop fuel (store m p (digit minus n)) (p + 1) minus (n / 10)
]

-- Ten rounds for the digits of an `int`. `strreverse` runs before the string is ended.
unfoldable pub itoa_of : ℕ → Mem → ℕ → Bool → ℕ → Option Mem
itoa_of fuel m str minus n =
    if str == null
    then some m
    else if n == 0
    then some (store (store m str 0x30) (str + 1) 0)
    else (let (m1, p) = itoa_loop 10 m str minus n in
        elim (strreverse fuel m1 str) [ none ↦ none | some (r, m2) ↦ some (store m2 p 0) ])

unfoldable pub itoa : ℕ → Mem → ℕ → ℤ → Option Mem
itoa fuel m str (pos n) = itoa_of fuel m str false n
itoa fuel m str (negsuc n) = itoa_of fuel m str true (n + 1)

-- The hexadecimal digits of a 32-bit value from the bit i on, `rounds` of them; `flag` says that a
-- digit other than 0 was met.
unfoldable pub htoa_loop : ℕ → Mem → ℕ → Bool → ℕ → Mem × ℕ
htoa_loop zero m p flag value = (m, p)
htoa_loop (suc rounds) m p flag value =
    let ch = value / 2 ^ (4 * rounds) % 0x10 in
    elim (flag || ltb 0 ch) [
      | true ↦
          htoa_loop rounds (store m p (if ltb 0x39 (ch + 0x30) then ch + 0x37 else ch + 0x30))
            (p + 1) true value
      | false ↦ htoa_loop rounds m p false value
    ]

-- The value is the 32-bit pattern of the `int`.
unfoldable pub htoa : Mem → ℕ → ℕ → Mem
htoa m str value =
    if str == null
    then m
    else if value == 0
    then store (store m str 0x30) (str + 1) 0
    else let (m1, p) = htoa_loop 8 m str false value in store m1 p 0

-- `for(i = 0;i < len; …)` of `strncmp`, and the loop of `memcmp`, with what a difference returns
unfoldable pub compare_loop : ℤ → Mem → ℕ → ℕ → ℕ → ℤ
compare_loop differ m str1 str2 zero = pos 0
compare_loop differ m str1 str2 (suc len) = elim (m str1 == m str2) [
  | true ↦ compare_loop differ m (str1 + 1) (str2 + 1) len
  | false ↦ differ
]

abbrev pub smaller : ℕ → ℕ → ℕ
smaller x y = if ltb y x then y else x

-- After the two lengths: where neither pointer is NULL they are not negative.
unfoldable pub bounded_compare : Mem → ℕ → ℕ → ℤ → ℕ → ℕ → ℤ
bounded_compare m str1 str2 (negsuc n) l1 l2 = neg 1
bounded_compare m str1 str2 (pos len) l1 l2 =
    if len == 0 || str1 == null || str2 == null
    then neg 1
    else compare_loop (neg 1) m str1 str2 (smaller len (smaller l1 l2))

unfoldable pub strncmp : ℕ → Mem → ℕ → ℕ → ℤ → Option ℤ
strncmp fuel m str1 str2 len = elim (strlen fuel m str1) [
  | none ↦ none
  | some l1 ↦ elim (strlen fuel m str2) [
    | none ↦ none
    | some l2 ↦ some (bounded_compare m str1 str2 len (magnitude l1) (magnitude l2))
  ]
]

unfoldable pub memcmp : ℕ → Mem → ℕ → ℕ → ℤ → Option ℤ
memcmp fuel m dst src (negsuc n) = some (neg 1)
memcmp fuel m dst src (pos len) =
    if dst == null || src == null || len == 0
    then some (neg 1)
    else elim (strlen_loop fuel m dst 0) [
      | none ↦ none
      | some l1 ↦ elim (strlen_loop fuel m src 0) [
        | none ↦ none
        | some l2 ↦
            if not (l1 == l2)
            then some (neg 2)
            else if ltb l1 len
            then some (neg 3)
            else some (compare_loop (neg 4) m dst src len)
      ]
    ]

-- `while(str1 && str2)`
unfoldable pub strcmp_loop : ℕ → Mem → ℕ → ℕ → Option ℤ
strcmp_loop zero m str1 str2 = none
strcmp_loop (suc fuel) m str1 str2 = elim (str1 == null || str2 == null) [
  | true ↦ some (pos 0)
  | false ↦ elim (m str1 == m str2) [
    | true ↦ strcmp_loop fuel m (str1 + 1) (str2 + 1)
    | false ↦ some (neg 1)
  ]
]

unfoldable pub strcmp : ℕ → Mem → ℕ → ℕ → Option ℤ
strcmp fuel m str1 str2 =
    if str1 == null || str2 == null then some (neg 1) else strcmp_loop fuel m str1 str2

-- `while(((*dst++ = *src++) != '\0') && ((++i) < size));` with i already counted: `left` further bytes
unfoldable pub strncpy_loop : ℕ → Mem → ℕ → ℕ → Mem
strncpy_loop zero m dst src = store m dst (m src)
strncpy_loop (suc left) m dst src = elim (m src == 0) [
  | true ↦ store m dst (m src)
  | false ↦ strncpy_loop left (store m dst (m src)) (dst + 1) (src + 1)
]

-- The size is an `int` that is not negative: the first byte is copied whatever the size.
unfoldable pub strncpy : Mem → ℕ → ℕ → ℤ → ℤ × Mem
strncpy m dst src (negsuc n) = (neg 1, m)
strncpy m dst src (pos size) =
    if dst == null || src == null then (neg 1, m) else (pos 0, strncpy_loop (size - 1) m dst src)

-- `while((*dst++ = *src++) != '\0');`
unfoldable pub strcpy_loop : ℕ → Mem → ℕ → ℕ → Option Mem
strcpy_loop zero m dst src = none
strcpy_loop (suc fuel) m dst src = elim (m src == 0) [
  | true ↦ some (store m dst (m src))
  | false ↦ strcpy_loop fuel (store m dst (m src)) (dst + 1) (src + 1)
]

unfoldable pub strcpy : ℕ → Mem → ℕ → ℕ → Option (ℤ × Mem)
strcpy fuel m dst src =
    if dst == null || src == null
    then some (neg 1, m)
    else elim (strcpy_loop fuel m dst src) [ none ↦ none | some m' ↦ some (pos 0, m') ]

unfoldable pub memset_loop : ℕ → Mem → ℕ → ℕ → Mem
memset_loop zero m dst ch = m
memset_loop (suc left) m dst ch = memset_loop left (store m dst ch) (dst + 1) ch

unfoldable pub memset : Mem → ℕ → ℕ → ℤ → ℤ × Mem
memset m dst ch (negsuc n) = (neg 1, m)
memset m dst ch (pos size) =
    if dst == null || size == 0 then (neg 1, m) else (pos 0, memset_loop size m dst ch)

unfoldable pub bzero : Mem → ℕ → ℤ → ℤ × Mem
bzero m dst size = memset m dst 0 size
