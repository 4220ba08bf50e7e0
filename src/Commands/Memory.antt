-- ===== src/Commands/Memory.antt =====
-- kernel/nsh/builtins/alloc.c and free.c. The chunks that alloc has printed are a list, the last one
-- first; the colours of its output are left out.
use nulix.Common.{
  ℕ, zero, suc, ◌+◌, ◌-◌, ◌/◌, ◌==◌, ltb, leb, ◌||◌, if◌then◌else◌, Option, none, some, List, [],
  ◌∷◌, get_or,
}
use nulix.Stdlib.Strtol.{strtol}
use nulix.Kpm.Align.{page_size}
use nulix.Kpm.Buddy.{Buddy}
use nulix.Kpm.Alloc.{Chunk, kpm_alloc, kpm_free}
use nulix.Commands.Args.{
  Argv, Reply, usage, badly_formatted, failed, done, has_rest, is_negative_int,
}

pub record Allocation : Type 0 where
  pub reply : Reply
  pub buddy : Buddy
  pub granted : List Chunk

-- What follows a call of kpm_alloc, `again` being the rounds after it.
abbrev pub on_chunk :
    (ℕ → Buddy → List Chunk → Option Allocation)
    → ℕ
    → Buddy
    → List Chunk
    → Option (Chunk × Buddy)
    → Option Allocation
on_chunk again size b got none = some (record { reply = failed; buddy = b; granted = got })
on_chunk again size b got (some (chunk, b')) =
    if leb size chunk.size
    then some (record { reply = done; buddy = b'; granted = chunk ∷ got })
    else again (size - chunk.size) b' (chunk ∷ got)

-- The loop, none if it has not ended.
unfoldable pub alloc_loop : ℕ → ℕ → Buddy → List Chunk → Option Allocation
alloc_loop zero size b got = none
alloc_loop (suc fuel) size b got =
    let round = on_chunk (alloc_loop fuel) size b got (kpm_alloc size b) in
    if size == 0 then some (record { reply = done; buddy = b; granted = got }) else round

-- A round for each page, and one to end.
abbrev pub alloc_rounds : ℕ → ℕ
alloc_rounds size = size / page_size + 2

unfoldable pub alloc : ℕ → Argv → Buddy → Option Allocation
alloc argc argv b =
    let c = strtol (argv 1) 0 in
    let loop = alloc_loop (alloc_rounds c.value) c.value b [] in
    if ltb argc 2
    then some (record { reply = usage; buddy = b; granted = [] })
    else if has_rest (argv 1) c || is_negative_int c.value
    then some (record { reply = badly_formatted; buddy = b; granted = [] })
    else loop

pub record Freeing : Type 0 where
  pub reply : Reply
  pub buddy : Buddy

-- The second word is read without a test that there is one.
unfoldable pub free : ℕ → Argv → Buddy → Freeing
free argc argv b =
    let addr = strtol (argv 1) 0 in
    let size = strtol (argv 2) 0 in
    if ltb argc 2
    then record { reply = usage; buddy = b }
    else if has_rest (argv 1) addr || get_or (argv 1) 0 0 == 45
    then record { reply = badly_formatted; buddy = b }
    else if has_rest (argv 2) size || is_negative_int size.value
    then record { reply = badly_formatted; buddy = b }
    else record {
      reply = done;
      buddy = kpm_free (record { addr = addr.value; size = size.value }) b;
    }
