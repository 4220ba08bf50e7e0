-- ===== src/Cstring/Memory.antt =====
-- lib/string/mem.c. The memory is a function from addresses to bytes, and a null pointer is none.
use nulix.Common.{ℕ, zero, suc, ◌+◌, ◌-◌, ◌%◌, ◌^◌, ◌==◌, ltb, if◌then◌else◌, Option, none, some}

abbrev pub Mem : Type 0
Mem = ℕ → ℕ

abbrev pub put : Mem → ℕ → ℕ → Mem
put m p b q = if q == p then b else m q

-- The difference of two ints, as a word.
abbrev pub difference : ℕ → ℕ → ℕ
difference a b = (a + 2 ^ 32 - b) % 2 ^ 32

unfoldable pub memchr : Mem → ℕ → ℕ → ℕ → Option ℕ
memchr m s c zero = none
memchr m s c (suc n) = let rest = memchr m (s + 1) c n in if m s == c then some s else rest

-- Downwards from `sc`.
unfoldable pub memrchr_from : Mem → ℕ → ℕ → ℕ → Option ℕ
memrchr_from m sc c zero = none
memrchr_from m sc c (suc n) =
    let rest = memrchr_from m (sc - 1) c n in if m sc == c then some sc else rest

unfoldable pub memrchr : Mem → ℕ → ℕ → ℕ → Option ℕ
memrchr m s c n = memrchr_from m (s + n) c n

unfoldable pub memcmp : Mem → ℕ → ℕ → ℕ → ℕ
memcmp m s1 s2 zero = 0
memcmp m s1 s2 (suc n) =
    let rest = memcmp m (s1 + 1) (s2 + 1) n in
    if m s1 == m s2 then rest else difference (m s1) (m s2)

unfoldable pub memcpy : Mem → ℕ → ℕ → ℕ → Mem
memcpy m dst src zero = m
memcpy m dst src (suc n) = memcpy (put m dst (m src)) (dst + 1) (src + 1) n

unfoldable pub memmove : Mem → ℕ → ℕ → ℕ → Mem
memmove m dstc srcc zero = m
memmove m dstc srcc (suc n) =
    let back = memmove (put m (dstc + n) (m (srcc + n))) dstc srcc n in
    let ahead = memmove (put m dstc (m srcc)) (dstc + 1) (srcc + 1) n in
    if ltb srcc dstc then back else ahead

-- `c` is cut to a byte.
unfoldable pub memset : Mem → ℕ → ℕ → ℕ → Mem
memset m sc c zero = m
memset m sc c (suc n) = memset (put m sc (c % 256)) (sc + 1) c n
