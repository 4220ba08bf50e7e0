-- ===== src/Cstring/Tests.antt =====
-- Runs of the string library, and instances of its theorems.
use nulix.Common.{
  ℕ, ◌+◌, ◌≤◌, ◌<◌, ◌≡◌, ◌≢◌, ◌↔◌, refl, some, none, List, [], ◌∷◌, get_or, arith, zero, suc, Bool,
  true, ◌&&◌, not, ltb, ◌==◌, holds_below, holds_below-at,
}
use nulix.Cstring.Memory.{Mem, memmove, memrchr, memrchr_from}
use nulix.Cstring.Text.{
  walk, agree, walk_back, strlen, strchr, strrchr, strcmp, strncmp, strcpy, strstr, strstr_from,
  strcat, past_end,
}
use nulix.Cstring.Moves.{Moved, memmove-Moved}
use nulix.Cstring.Compares.{IsString, strcmp-zero_iff}

-- "ab", "abc" and zeros.
abbrev words : Mem
words q = get_or (97 ∷ 98 ∷ 0 ∷ 97 ∷ 98 ∷ 99 ∷ 0 ∷ []) q 0

ab_length : strlen 9 words 3 ≡ 3
unfolding strlen walk
ab_length = refl

ab_chr : strchr 9 words 3 98 ≡ some 4
unfolding strchr walk
ab_chr = refl

ab_rchr : strrchr 9 words 3 97 ≡ some 3
unfolding strrchr strlen walk walk_back
ab_rchr = refl

-- The search from the end looks at the byte past the area, and misses the first one.
ab_memrchr : memrchr words 0 97 2 ≡ none
unfolding memrchr memrchr_from
ab_memrchr = refl

-- A missing needle gives the end of the haystack.
ab_str : strstr 9 words 0 3 ≡ 2
unfolding strstr strstr_from agree
ab_str = refl

-- The appended bytes stand after the NUL.
ab_cat : strlen 9 (strcat 9 words 3 0) 3 ≡ 3
unfolding strcat strcpy past_end strlen walk
ab_cat = refl

-- Two strings that agree in all of the `n` bytes compare by the bytes after them.
ab_ncmp : strncmp words 0 3 2 ≢ 0
unfolding strncmp
ab_ncmp e = omega arith

ab_moved : memmove words 1 0 3 3 ≡ 0
unfolding memmove
ab_moved = refl

memmove-Moved_example : Moved words 1 0 3 (memmove words 1 0 3)
memmove-Moved_example = memmove-Moved words 1 0 3

abc_table : holds_below 3 (λ k. not (words (3 + k) == 0)) ≡ true
unfolding holds_below
abc_table = refl

abc-IsString : IsString words 3 3
abc-IsString = record {
  body = λ k h e. ground (arith, holds_below-at 3 (λ k. not (words (3 + k) == 0)) k abc_table h);
  end = refl;
}

abbrev all_bytes : List ℕ → Bool
all_bytes [] = true
all_bytes (b ∷ bs) = ltb b 256 && all_bytes bs

get_or-bytes : (bs : List ℕ) → all_bytes bs ≡ true → (q : ℕ) → get_or bs q 0 < 256
get_or-bytes [] h q = omega arith
get_or-bytes (b ∷ bs) h zero = ground arith
get_or-bytes (b ∷ bs) h (suc q) = get_or-bytes bs (ground arith) q

words_bytes : (q : ℕ) → words q < 256
words_bytes q = get_or-bytes (97 ∷ 98 ∷ 0 ∷ 97 ∷ 98 ∷ 99 ∷ 0 ∷ []) refl q

strcmp-zero_iff_example :
    (strcmp 9 words 3 0 ≡ 0) ↔ ((j : ℕ) → j ≤ 3 → words (3 + j) ≡ words (0 + j))
strcmp-zero_iff_example = strcmp-zero_iff 9 words 3 0 3 words_bytes abc-IsString (omega arith)
