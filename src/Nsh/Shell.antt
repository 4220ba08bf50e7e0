-- ===== src/Nsh/Shell.antt =====
-- kernel/nsh/nsh.c: what the shell does with a key. `fuel` bounds the loops over the line, and `low`
-- is the string at address 0, where the name of the last entry of `builtin` points.
use nulix.Common.{ℕ, ◌-◌, ◌==◌, ltb, not, if◌then◌else◌, Option, none, some, List, [], ◌∷◌, ◌++◌}
use nulix.Cstring.Text.{text_at}
use nulix.Nsh.Builtin.{builtin}
use nulix.Nsh.Line.{
  nsh_bufsize, Console, Line, Shell, clear_line, nsh_createcmd, find_name, match_name, append,
  backspace, type_char,
}
use nulix.Keyboard.State.{Event, Keyboard, kbd_getchar}
use nulix.Keyboard.Keycode.{same_key, key_cursor_up, key_cursor_down, key_page_up, key_page_down}

-- "nsh$ "
abbrev pub prompt : List ℕ
prompt = 110 ∷ 115 ∷ 104 ∷ 36 ∷ 32 ∷ []

-- "nsh: %s: command not found\n"
abbrev pub not_found : List ℕ → List ℕ
not_found name =
    (110 ∷ 115 ∷ 104 ∷ 58 ∷ 32 ∷ [])
    ++ name
    ++ (58 ∷ 32 ∷ 99 ∷ 111 ∷ 109 ∷ 109 ∷ 97 ∷ 110 ∷ 100 ∷ 32 ∷ 110 ∷ 111 ∷ 116 ∷ 32 ∷ 102 ∷ 111
        ∷ 117 ∷ 110 ∷ 100 ∷ 10 ∷ [])

abbrev pub sb_color_light_blue : ℕ
sb_color_light_blue = 9

-- An event of KBD_geteventbytype, and the keyboard after it.
pub record Pressed : Type 0 where
  pub keyboard : Keyboard
  pub event : Event

module _ {ℓ} {W : Type ℓ} (console : Console W) (fuel : ℕ) (low : List ℕ) where
  unfoldable pub nsh_prompt : W → W
  nsh_prompt w =
      let oldcolor = console.get_color w in
      console.set_color oldcolor (console.print prompt (console.set_fg sb_color_light_blue w))

  unfoldable pub nsh_newline : Shell W → Shell W
  nsh_newline s = record { line = clear_line s.line; world = nsh_prompt s.world }

  abbrev pub exec_found : Line → ℕ → Option ℕ → W → W
  exec_found l p none w = console.print (not_found (text_at fuel l.nsh_buf p)) w
  exec_found l p (some i) w = console.exec i l.nsh_cmdnarg l.nsh_cmd l.nsh_buf w

  abbrev pub exec_first : Line → Option ℕ → W → W
  exec_first l none w = w
  exec_first l (some p) w = exec_found l p (find_name l.nsh_buf p (builtin ++ (low ∷ []))) w

  unfoldable pub nsh_execcmd : Shell W → Shell W
  nsh_execcmd s = record s { world = exec_first s.line (s.line.nsh_cmd 0) s.world }

  -- A round of the completion, with the pointers that its inner loop leaves.
  abbrev pub complete_with : Shell W → ℕ → List ℕ → Shell W
  complete_with s p [] = s
  complete_with s p (c ∷ cs) =
      if s.line.nsh_buf p == 0
      then record { line = append s.line (c ∷ cs); world = console.print (c ∷ cs) s.world }
      else s

  unfoldable pub complete : List (List ℕ) → Shell W → Shell W
  complete [] s = s
  complete (name ∷ names) s =
      let m = match_name s.line.nsh_buf 0 name in complete names (complete_with s m.p m.q)

  unfoldable pub enter : Shell W → Shell W
  enter s =
      let shown : Shell W = record s { world = console.print (10 ∷ []) s.world } in
      nsh_newline (
        if s.line.nsh_bufindex == 0
        then shown
        else nsh_execcmd (record shown { line = nsh_createcmd fuel s.line }))

  unfoldable pub nsh_addchar : ℕ → Shell W → Shell W
  nsh_addchar c s =
      let at : Shell W = record s { world = console.scroll_down s.world } in
      if c == 10
      then enter at
      else if c == 8
      then (if ltb 0 at.line.nsh_bufindex
          then record { line = backspace at.line; world = console.print (8 ∷ []) at.world }
          else at)
      else if c == 9
      then (if at.line.nsh_bufindex == 0 then at else complete builtin at)
      else if ltb at.line.nsh_bufindex (nsh_bufsize - 1)
      then record { line = type_char at.line c; world = console.print (c ∷ []) at.world }
      else at

  unfoldable pub nsh_shortcut : Event → Shell W → Shell W
  nsh_shortcut evt s = record s {
    world =
        if same_key evt.key key_cursor_up
        then console.scroll_up s.world
        else if same_key evt.key key_cursor_down
        then console.scroll_one_down s.world
        else if same_key evt.key key_page_down
        then console.scroll_down s.world
        else if same_key evt.key key_page_up
        then console.scroll_top s.world
        else s.world;
  }

  -- A round of the loop of nsh, once the keyboard has given an event.
  unfoldable pub on_event : Keyboard → Event → Shell W → Shell W
  on_event kbd evt s =
      let c = kbd_getchar kbd evt in if not (c == 0) then nsh_addchar c s else nsh_shortcut evt s

  -- nsh, for as many rounds as there are events.
  unfoldable pub nsh_rounds : List Pressed → Shell W → Shell W
  nsh_rounds [] s = s
  nsh_rounds (e ∷ es) s = nsh_rounds es (on_event e.keyboard e.event s)

  unfoldable pub nsh : List Pressed → Shell W → Shell W
  nsh es s = nsh_rounds es (nsh_newline s)
