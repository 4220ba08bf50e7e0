-- ===== src/OldShell.antt =====
-- kernel/shell.c, the shell before kernel/nsh/nsh.c: its buffer, and its commands by the hash of their
-- names.
mod Tests
use nulix.Common.{
  ℕ, zero, suc, ◌+◌, ◌-◌, ◌*◌, ◌%◌, ◌^◌, ◌≤◌, ◌<◌, ◌≡◌, ◌≢◌, refl, ap, ◌∙◌, ◌==◌, ltb, Bool, true,
  false, ◌&&◌, ◌||◌, not, if◌then◌else◌, List, [], ◌∷◌, arith, Bool-cases, inl, inr,
}
use nulix.Cstring.Memory.{Mem, put, memset}
use nulix.Cstring.Text.{sign_extend, text_at}

abbrev pub hash_value : ℕ
hash_value = 5381

abbrev pub hash_mod : ℕ
hash_mod = 100

abbrev pub command_size : ℕ
command_size = 32

-- `f_ptr[hash]` is not null.
abbrev pub is_command : ℕ → Bool
is_command hash =
    hash == 14
    || hash == 20
    || hash == 21
    || hash == 29
    || hash == 30
    || hash == 37
    || hash == 52
    || hash == 60
    || hash == 61
    || hash == 62
    || hash == 71
    || hash == 88
    || hash == 90
    || hash == 98

-- The loop of dj2b_hash over a string, whose chars are signed.
unfoldable pub hash_from : ℕ → List ℕ → ℕ
hash_from hash [] = hash
hash_from hash (c ∷ cs) = hash_from ((sign_extend c + hash * 2) % 2 ^ 32) cs

unfoldable pub dj2b_hash : List ℕ → ℕ
dj2b_hash to_hash = hash_from hash_value to_hash % hash_mod

-- What the shell calls: VGA_putchar, a command by its index, the message for an unknown one, the prompt.
pub data Call : Type 0 where
  vga_putchar : ℕ → Call
  run : ℕ → Call
  error_cmd : List ℕ → Call
  print_prompt : Call

pub record OldShell : Type 0 where
  pub buffer : Mem
  pub i : ℕ
  pub calls : List Call

unfoldable pub handle_command : OldShell → OldShell
handle_command s =
    let name = text_at command_size s.buffer 0 in
    let hash = dj2b_hash name in
    record s {
      calls =
          (if ltb hash_mod hash || not (is_command hash) then error_cmd name else run hash)
          ∷ s.calls;
    }

unfoldable pub fill_buffer : ℕ → ℕ → Mem → Mem
fill_buffer c i m = if ltb i (command_size - 1) then put m i c else m

unfoldable pub new_command : OldShell → OldShell
new_command s = record {
  buffer = memset s.buffer 0 0 command_size;
  i = 0;
  calls = print_prompt ∷ s.calls;
}

-- What the loop does with a character.
unfoldable pub take_char : ℕ → OldShell → OldShell
take_char c s =
    let shown : OldShell = record s { calls = vga_putchar c ∷ s.calls } in
    let ran = handle_command shown in
    if c == 10
    then new_command (if ltb 0 s.i then ran else shown)
    else if c == 8
    then (if ltb 0 s.i then record shown { buffer = put s.buffer (s.i - 1) 0; i = s.i - 1 } else s)
    else if ltb s.i (command_size - 1)
    then record shown { buffer = fill_buffer c s.i s.buffer; i = s.i + 1 }
    else s

-- The table has an entry for every hash.
pub dj2b_hash-mod : (name : List ℕ) → dj2b_hash name < hash_mod
unfolding dj2b_hash
dj2b_hash-mod name = omega arith

-- The command is shorter than its buffer, and followed by zeros.
pub record IsCommand (s : OldShell) : Type 0 where
  pub room : s.i < command_size
  pub body : (q : ℕ) → q < s.i → s.buffer q ≢ 0
  pub zeros : (q : ℕ) → s.i ≤ q → q < command_size → s.buffer q ≡ 0

cleared : (q : ℕ) (m : Mem) → q < command_size → memset m 0 0 command_size q ≡ 0
unfolding memset
cleared q m h = ground (arith, h)

IsCommand-if :
    (b : Bool) (s t : OldShell)
    → (b ≡ true → IsCommand s)
    → (b ≡ false → IsCommand t)
    → IsCommand (if b then s else t)
IsCommand-if true s t f g = f refl
IsCommand-if false s t f g = g refl

-- A character keeps the command in its buffer.
pub take_char-IsCommand : (c : ℕ) (s : OldShell) → IsCommand s → c ≢ 0 → IsCommand (take_char c s)
unfolding take_char new_command fill_buffer
take_char-IsCommand c s v h =
    IsCommand-if (c == 10) _ _
      (λ e. record {
        room = omega arith;
        body = λ q lt. absurd (omega arith);
        zeros = λ q lo hi. cleared q _ hi;
      })
      (λ e.
        IsCommand-if (c == 8) _ _
          (λ e.
            IsCommand-if (ltb 0 s.i) _ _
              (λ some_left. record {
                room = omega (arith, v.room);
                body = λ q lt. ground (arith, v.body q, lt);
                zeros = λ q lo hi. ground (arith, v.zeros q, lo, hi);
              })
              (λ empty. v))
          (λ e.
            IsCommand-if (ltb s.i (command_size - 1)) _ _
              (λ room. record {
                room = ground (arith, room);
                body = λ q lt. ground (arith, v.body q, lt, h, room);
                zeros = λ q lo hi. ground (arith, v.zeros q, lo, hi, room);
              })
              (λ full. v)))
