-- ===== src/Cstring/Text.antt =====
-- lib/string/str.c. A loop to the end of a string runs on fuel, of which a round for each byte of the
-- string, and one more, are enough.
use nulix.Common.{
  ℕ, zero, suc, ◌+◌, ◌-◌, ◌==◌, ltb, Bool, true, false, ◌&&◌, ◌||◌, not, if◌then◌else◌, Option,
  none, some, List, [], ◌∷◌,
}
use nulix.Cstring.Memory.{Mem, put, difference}

unfoldable pub isof : ℕ → Mem → ℕ → ℕ → Bool
isof zero m c charset = false
isof (suc fuel) m c charset =
    let rest = isof fuel m c (charset + 1) in not (m charset == 0) && (c == m charset || rest)

-- `while (*s && test(*s)) s++`
unfoldable pub walk : ℕ → Mem → (ℕ → Bool) → ℕ → ℕ
walk zero m test s = s
walk (suc fuel) m test s =
    let rest = walk fuel m test (s + 1) in if not (m s == 0) && test (m s) then rest else s

-- How far two strings agree: `while (*s1 && *s2 && *s1 == *s2) s1++, s2++`
unfoldable pub agree : ℕ → Mem → ℕ → ℕ → ℕ
agree zero m s1 s2 = 0
agree (suc fuel) m s1 s2 =
    let rest = agree fuel m (s1 + 1) (s2 + 1) in
    if not (m s1 == 0) && not (m s2 == 0) && m s1 == m s2 then rest + 1 else 0

-- A char is signed.
abbrev pub sign_extend : ℕ → ℕ
sign_extend c = if ltb c 128 then c else c + 0xffffff00

module _ (fuel : ℕ) where
  unfoldable pub strlen : Mem → ℕ → ℕ
  strlen m s = walk fuel m (λ b. true) s - s

  unfoldable pub strchr : Mem → ℕ → ℕ → Option ℕ
  strchr m s c = let p = walk fuel m (λ b. not (b == c)) s in if m p == c then some p else none

  unfoldable pub strcmp : Mem → ℕ → ℕ → ℕ
  strcmp m s1 s2 =
      let k = agree fuel m s1 s2 in difference (sign_extend (m (s1 + k))) (sign_extend (m (s2 + k)))

  unfoldable pub strspn : Mem → ℕ → ℕ → ℕ
  strspn m s accept = walk fuel m (λ b. isof fuel m b accept) s - s

  unfoldable pub strcspn : Mem → ℕ → ℕ → ℕ
  strcspn m s reject = walk fuel m (λ b. not (isof fuel m b reject)) s - s

  unfoldable pub strpbrk : Mem → ℕ → ℕ → Option ℕ
  strpbrk m s accept =
      let p = walk fuel m (λ b. not (isof fuel m b accept)) s in if m p == 0 then none else some p

-- `while (len-- && *s != c) s--`
unfoldable pub walk_back : ℕ → Mem → ℕ → ℕ → ℕ
walk_back zero m c s = s
walk_back (suc len) m c s = let rest = walk_back len m c (s - 1) in if m s == c then s else rest

unfoldable pub strrchr : ℕ → Mem → ℕ → ℕ → Option ℕ
strrchr fuel m s c =
    let len = strlen fuel m s in
    let p = walk_back len m c (s + len) in if m p == c then some p else none

-- The loop of strncmp leaves `n`, which is 2 ^ 32 - 1 once it has been used up, and its two pointers.
unfoldable pub strncmp : Mem → ℕ → ℕ → ℕ → ℕ
strncmp m s1 s2 zero = difference (sign_extend (m s1)) (sign_extend (m s2))
strncmp m s1 s2 (suc n) =
    let rest = strncmp m (s1 + 1) (s2 + 1) n in
    if not (m s1 == 0) && not (m s2 == 0) && m s1 == m s2
    then rest
    else if n == 0
    then 0
    else difference (sign_extend (m s1)) (sign_extend (m s2))

unfoldable pub strcpy : ℕ → Mem → ℕ → ℕ → Mem
strcpy zero m dst src = m
strcpy (suc fuel) m dst src =
    let rest = strcpy fuel (put m dst (m src)) (dst + 1) (src + 1) in
    if m src == 0 then put m dst 0 else rest

unfoldable pub strncpy : Mem → ℕ → ℕ → ℕ → Mem
strncpy m dst src zero = m
strncpy m dst src (suc n) = strncpy (put m dst (m src)) (dst + 1) (src + 1) n

-- The loop of strstr; the inner loop has as much fuel.
unfoldable pub strstr_from : ℕ → ℕ → Mem → ℕ → ℕ → ℕ
strstr_from zero inner m haystack needle = haystack
strstr_from (suc fuel) inner m haystack needle =
    let rest = strstr_from fuel inner m (haystack + 1) needle in
    if m haystack == 0
    then haystack
    else if m (needle + agree inner m haystack needle) == 0
    then haystack
    else rest

unfoldable pub strstr : ℕ → Mem → ℕ → ℕ → ℕ
strstr fuel m haystack needle = strstr_from fuel fuel m haystack needle

-- The static pointer of strtok, which is also what it returns, and the memory.
pub record Token : Type 0 where
  pub ptr : ℕ
  pub mem : Mem

abbrev pub token_start : Option ℕ → ℕ → ℕ
token_start none ptr = ptr
token_start (some str) ptr = str

unfoldable pub strtok : ℕ → Mem → ℕ → Option ℕ → ℕ → Token
strtok fuel m ptr str delim =
    let first = walk fuel m (λ b. isof fuel m b delim) (token_start str ptr) in
    let tmp = walk fuel m (λ b. not (isof fuel m b delim)) first in
    record { ptr = first; mem = put m tmp 0 }

-- `while (*dst++)` leaves `dst` past the end.
unfoldable pub past_end : ℕ → Mem → ℕ → ℕ
past_end fuel m dst = walk fuel m (λ b. true) dst + 1

unfoldable pub strcat : ℕ → Mem → ℕ → ℕ → Mem
strcat fuel m dst src = strcpy fuel m (past_end fuel m dst) src

unfoldable pub strncat : ℕ → Mem → ℕ → ℕ → ℕ → Mem
strncat fuel m dst src n = let end = past_end fuel m dst in put (strncpy m end src n) (end + n) 0

-- The text at a pointer, of `fuel` bytes at most.
unfoldable pub text_at : ℕ → Mem → ℕ → List ℕ
text_at zero m p = []
text_at (suc fuel) m p = let rest = text_at fuel m (p + 1) in if m p == 0 then [] else m p ∷ rest
