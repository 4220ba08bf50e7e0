-- ===== src/OldShell/Tests.antt =====
-- Hashes of kernel/shell.c.
use nulix.Common.{◌≡◌, refl, [], ◌∷◌}
use nulix.OldShell.{dj2b_hash, hash_from}

-- "clear", "help" and "alloc" have the hashes of their entries.
hashes :
    dj2b_hash (99 ∷ 108 ∷ 101 ∷ 97 ∷ 114 ∷ [])
      ∷ dj2b_hash (104 ∷ 101 ∷ 108 ∷ 112 ∷ [])
      ∷ dj2b_hash (97 ∷ 108 ∷ 108 ∷ 111 ∷ 99 ∷ [])
      ∷ []
    ≡ 52 ∷ 60 ∷ 61 ∷ []
unfolding dj2b_hash hash_from
hashes = refl

-- "hekr" is no command's name, and has the hash of "help".
same_hash : dj2b_hash (104 ∷ 101 ∷ 108 ∷ 112 ∷ []) ≡ dj2b_hash (104 ∷ 101 ∷ 107 ∷ 114 ∷ [])
unfolding dj2b_hash hash_from
same_hash = refl
