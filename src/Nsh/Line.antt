-- ===== src/Nsh/Line.antt =====
-- The line of kernel/nsh/nsh.c: `nsh_buf` is a memory of its own, with pointers into it as offsets,
-- and `nsh_cmd` a function from its indices to pointers, none for a null pointer. `fuel` bounds the
-- loops over the line.
use nulix.Common.{
  ℕ, zero, suc, ◌+◌, ◌-◌, ◌/◌, ◌==◌, ltb, ◌&&◌, not, if◌then◌else◌, Option, none, some, List, [],
  ◌∷◌,
}
use mathlib.Core.Option
use nulix.Cstring.Memory.{Mem, put, memset}
use nulix.Cstring.Text.{walk}
use nulix.Nsh.Builtin.{is_text}

abbrev pub nsh_bufsize : ℕ
nsh_bufsize = 1024

-- What the shell calls, over a state of the rest of the kernel. `exec` is given the index of the
-- builtin, its `argc` and `argv`, and the memory of the line. sb_scroll by -1 is `scroll_up`, and by 1
-- `scroll_one_down`.
pub record Console {ℓ} (W : Type ℓ) : Type ℓ where
  pub print : List ℕ → W → W
  pub get_color : W → ℕ
  pub set_fg : ℕ → W → W
  pub set_color : ℕ → W → W
  pub scroll_up : W → W
  pub scroll_one_down : W → W
  pub scroll_down : W → W
  pub scroll_top : W → W
  pub exec : ℕ → ℕ → (ℕ → Option ℕ) → Mem → W → W

pub record Line : Type 0 where
  pub nsh_buf : Mem
  pub nsh_cmd : ℕ → Option ℕ
  pub nsh_cmdnarg : ℕ
  pub nsh_bufindex : ℕ

pub record Shell {ℓ} (W : Type ℓ) : Type ℓ where
  pub line : Line
  pub world : W

abbrev pub set_cmd : (ℕ → Option ℕ) → ℕ → Option ℕ → ℕ → Option ℕ
set_cmd cmd i p j = if j == i then p else cmd j

-- The memset of `nsh_cmd` clears NSH_BUFSIZE / 2 bytes, of pointers of 4 bytes.
abbrev pub clear_cmd : (ℕ → Option ℕ) → ℕ → Option ℕ
clear_cmd cmd i = if ltb i (nsh_bufsize / 2 / 4) then none else cmd i

unfoldable pub clear_line : Line → Line
clear_line l = record {
  nsh_buf = memset l.nsh_buf 0 0 nsh_bufsize;
  nsh_cmd = clear_cmd l.nsh_cmd;
  nsh_cmdnarg = 0;
  nsh_bufindex = 0;
}

-- The variables of nsh_createcmd's loop.
pub record Cursor : Type 0 where
  pub buf : Mem
  pub cmd : ℕ → Option ℕ
  pub ibuf : ℕ
  pub icmd : ℕ

-- One round of the loop. A zero in the line is left in place, for ever.
unfoldable pub split_step : ℕ → Cursor → Cursor
split_step fuel s =
    let c = s.buf s.ibuf in
    let cut = put s.buf s.ibuf 0 in
    let word : Cursor = record s {
      cmd = set_cmd s.cmd s.icmd (some s.ibuf);
      ibuf = walk fuel s.buf (λ b. not (b == 32)) s.ibuf;
      icmd = s.icmd + 1;
    } in
    let space : Cursor = record s { buf = cut; ibuf = walk fuel cut (λ b. b == 32) (s.ibuf + 1) } in
    if not (c == 32) && not (c == 0) then word else if c == 32 then space else s

unfoldable pub split_loop : ℕ → ℕ → ℕ → Cursor → Cursor
split_loop zero fuel bufindex s = s
split_loop (suc rounds) fuel bufindex s =
    let rest = split_loop rounds fuel bufindex (split_step fuel s) in
    if ltb s.ibuf bufindex then rest else s

unfoldable pub nsh_createcmd : ℕ → Line → Line
nsh_createcmd fuel l =
    let s =
      split_loop fuel fuel l.nsh_bufindex
        (record { buf = l.nsh_buf; cmd = l.nsh_cmd; ibuf = 0; icmd = 0 }) in
    record l { nsh_buf = s.buf; nsh_cmd = s.cmd; nsh_cmdnarg = s.icmd }

-- The first of some names that stands at `p`.
unfoldable pub find_name : Mem → ℕ → List (List ℕ) → Option ℕ
find_name m p [] = none
find_name m p (name ∷ names) =
    let rest = Option.map suc (find_name m p names) in if is_text m p name then some 0 else rest

-- `while (*p && *q && *p == *q) p++, q++;`, with what is left of the name.
pub record Match : Type 0 where
  pub p : ℕ
  pub q : List ℕ

unfoldable pub match_name : Mem → ℕ → List ℕ → Match
match_name m p [] = record { p = p; q = [] }
match_name m p (c ∷ cs) =
    let rest = match_name m (p + 1) cs in
    if not (m p == 0) && m p == c then rest else record { p = p; q = c ∷ cs }

-- `while (*q && nsh_bufindex < NSH_BUFSIZE) nsh_buf[nsh_bufindex++] = *q++;`
unfoldable pub append : Line → List ℕ → Line
append l [] = l
append l (c ∷ cs) =
    let rest =
      append
        (record l { nsh_buf = put l.nsh_buf l.nsh_bufindex c; nsh_bufindex = l.nsh_bufindex + 1 })
        cs in
    if ltb l.nsh_bufindex nsh_bufsize then rest else l

unfoldable pub backspace : Line → Line
backspace l = record l {
  nsh_buf = put l.nsh_buf (l.nsh_bufindex - 1) 0;
  nsh_bufindex = l.nsh_bufindex - 1;
}

unfoldable pub type_char : Line → ℕ → Line
type_char l c = record l {
  nsh_buf = put l.nsh_buf l.nsh_bufindex c;
  nsh_bufindex = l.nsh_bufindex + 1;
}
