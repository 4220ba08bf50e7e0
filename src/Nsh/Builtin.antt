-- ===== src/Nsh/Builtin.antt =====
-- The table of commands of kernel/nsh/nsh.c, by name: a text is the list of its bytes, without the NUL.
use nulix.Common.{ℕ, List, [], ◌∷◌, Bool, ◌&&◌, ◌==◌, ◌+◌}
use nulix.Cstring.Memory.{Mem}

-- `builtin`, but for its last entry, the null pointers: reboot, poweroff, exit, keymap, color, alloc,
-- free, info, clear, hexdump, next, prev, help and interrupt.
abbrev pub builtin : List (List ℕ)
builtin =
    (114 ∷ 101 ∷ 98 ∷ 111 ∷ 111 ∷ 116 ∷ [])
    ∷ (112 ∷ 111 ∷ 119 ∷ 101 ∷ 114 ∷ 111 ∷ 102 ∷ 102 ∷ [])
    ∷ (101 ∷ 120 ∷ 105 ∷ 116 ∷ [])
    ∷ (107 ∷ 101 ∷ 121 ∷ 109 ∷ 97 ∷ 112 ∷ [])
    ∷ (99 ∷ 111 ∷ 108 ∷ 111 ∷ 114 ∷ [])
    ∷ (97 ∷ 108 ∷ 108 ∷ 111 ∷ 99 ∷ [])
    ∷ (102 ∷ 114 ∷ 101 ∷ 101 ∷ [])
    ∷ (105 ∷ 110 ∷ 102 ∷ 111 ∷ [])
    ∷ (99 ∷ 108 ∷ 101 ∷ 97 ∷ 114 ∷ [])
    ∷ (104 ∷ 101 ∷ 120 ∷ 100 ∷ 117 ∷ 109 ∷ 112 ∷ [])
    ∷ (110 ∷ 101 ∷ 120 ∷ 116 ∷ [])
    ∷ (112 ∷ 114 ∷ 101 ∷ 118 ∷ [])
    ∷ (104 ∷ 101 ∷ 108 ∷ 112 ∷ [])
    ∷ (105 ∷ 110 ∷ 116 ∷ 101 ∷ 114 ∷ 114 ∷ 117 ∷ 112 ∷ 116 ∷ [])
    ∷ []

-- Whether a text stands in the memory, with its NUL.
unfoldable pub is_text : Mem → ℕ → List ℕ → Bool
is_text m p [] = m p == 0
is_text m p (c ∷ cs) = m p == c && is_text m (p + 1) cs
