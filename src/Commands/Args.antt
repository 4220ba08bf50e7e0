-- ===== src/Commands/Args.antt =====
-- The arguments of a command of kernel/nsh/builtins/, and what it replies. `argv` gives the bytes of a
-- word, up to its NUL.
use nulix.Common.{
  ℕ, ◌^◌, ◌==◌, Bool, true, false, ◌&&◌, not, leb, List, [], ◌∷◌, get_or, if◌then◌else◌, Option,
  none, some, suc,
}
use mathlib.Core.Option
use nulix.Stdlib.Strtol.{Converted}

abbrev pub Argv : Type 0
Argv = ℕ → List ℕ

-- The usage, a message, or none; all but `done` and `failed` return -1, `silent` without a message of
-- failure.
pub data Reply : Type 0 where
  usage : Reply
  badly_formatted : Reply
  unknown : Reply
  silent : Reply
  failed : Reply
  done : Reply

-- `*ptr != 0`, after strtol of the word.
abbrev pub has_rest : List ℕ → Converted → Bool
has_rest word c = not (get_or word c.end 0 == 0)

-- An int32_t below 0.
abbrev pub is_negative_int : ℕ → Bool
is_negative_int value = leb (2 ^ 31) value

-- `!strcmp(word, text)`
abbrev pub is_word : List ℕ → List ℕ → Bool
is_word [] [] = true
is_word [] (d ∷ ds) = false
is_word (c ∷ cs) [] = false
is_word (c ∷ cs) (d ∷ ds) = c == d && is_word cs ds

-- The first of some words that a word is.
unfoldable pub find_word : List ℕ → List (List ℕ) → Option ℕ
find_word word [] = none
find_word word (w ∷ ws) =
    let rest = Option.map suc (find_word word ws) in if is_word w word then some 0 else rest
