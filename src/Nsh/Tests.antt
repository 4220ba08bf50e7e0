-- ===== src/Nsh/Tests.antt =====
-- A run of the shell of kernel/nsh/nsh.c, and instances of its theorems.
use nulix.Common.{
  ℕ, ◌≤◌, ◌≡◌, refl, false, none, some, List, [], ◌∷◌, ◌++◌, arith, length, ltb, ◌==◌,
  if◌then◌else◌,
}
use nulix.Cstring.Text.{walk}
use nulix.Keyboard.Keycode.{
  Keycode, key_h, key_e, key_l, key_tab, key_space, key_x, key_enter, key_backspace, key_page_up,
}
use nulix.Keyboard.State.{Keyboard, key_pressed, kbd_getchar, entry_char}
use nulix.Keyboard.Us104.{us104_getkeymapentry}
use nulix.Nsh.Builtin.{is_text}
use nulix.Nsh.Line.{
  Console, Line, Shell, split_step, split_loop, nsh_createcmd, find_name, match_name, append,
  backspace, type_char,
}
use nulix.Nsh.Shell.{
  Pressed, nsh_prompt, nsh_newline, nsh_execcmd, complete, enter, nsh_addchar, nsh_shortcut,
  on_event, nsh_rounds, nsh,
}
use nulix.Nsh.Words.{words, cut, Argv, IsTyped}
use nulix.Nsh.Split.{nsh_createcmd-words}
use nulix.Nsh.Typed.{IsLine, text}
use nulix.Nsh.Complete.{remaining, complete_text}
use nulix.Nsh.Edit.{edit, edit_all, Holds, nsh_addchar-edit, nsh-edit_all}
use nulix.Nsh.Dispatch.{Ran, nsh_addchar-Ran}
use nulix.Cstring.Stored.{stored}

-- What has been printed, each text by itself, and the commands that ran.
pub record Log : Type 0 where
  pub printed : List (List ℕ)
  pub ran : List (ℕ × ℕ)

abbrev log_console : Console Log
log_console = record {
  print = λ t w. record w { printed = t ∷ w.printed };
  get_color = λ w. 7;
  set_fg = λ c w. w;
  set_color = λ c w. w;
  scroll_up = λ w. w;
  scroll_one_down = λ w. w;
  scroll_down = λ w. w;
  scroll_top = λ w. w;
  exec = λ i argc argv buf w. record w { ran = (i, argc) ∷ w.ran };
}

abbrev us_keyboard : Keyboard
us_keyboard = record {
  getkeymapentry = some us104_getkeymapentry;
  modifiers = record {
    lshift = false;
    rshift = false;
    capslock = false;
    lctrl = false;
    rctrl = false;
    lalt = false;
    ralt = false;
    numlock = false;
  };
  ext = false;
}

abbrev press : Keycode → Pressed
press k = record { keyboard = us_keyboard; event = record { type = key_pressed; key = k } }

-- hel, a tabulation, a space and x.
abbrev help_x : List Pressed
help_x =
    press key_h
    ∷ press key_e
    ∷ press key_page_up
    ∷ press key_l
    ∷ press key_x
    ∷ press key_backspace
    ∷ press key_tab
    ∷ press key_space
    ∷ press key_x
    ∷ []

abbrev empty_line : Line
empty_line = record { nsh_buf = λ q. 0; nsh_cmd = λ k. none; nsh_cmdnarg = 0; nsh_bufindex = 0 }

abbrev empty_shell : Shell Log
empty_shell = record { line = empty_line; world = record { printed = []; ran = [] } }

-- "help x"
abbrev help_x_text : List ℕ
help_x_text = 104 ∷ 101 ∷ 108 ∷ 112 ∷ 32 ∷ 120 ∷ []

help_x_typed : edit_all help_x [] ≡ help_x_text
unfolding edit_all edit kbd_getchar entry_char complete_text remaining us104_getkeymapentry
help_x_typed = refl

help_x_run :
    (nsh_rounds log_console 12 [] (help_x ++ (press key_enter ∷ [])) empty_shell).world.ran
    ≡ (12, 2) ∷ []
unfolding nsh_rounds on_event kbd_getchar entry_char nsh_addchar nsh_shortcut enter complete
    match_name append backspace type_char nsh_createcmd split_loop split_step walk nsh_execcmd
    find_name is_text nsh_newline nsh_prompt us104_getkeymapentry
help_x_run = refl

-- "xx x"
abbrev xx_x : Line
xx_x = record {
  nsh_buf = λ q. if q == 2 then 32 else if ltb q 4 then 120 else 0;
  nsh_cmd = λ k. none;
  nsh_cmdnarg = 0;
  nsh_bufindex = 4;
}

abbrev xx_x_shell : Shell Log
xx_x_shell = record { line = xx_x; world = record { printed = []; ran = [] } }

typed_words : words (stored 4 xx_x.nsh_buf 0) ≡ (120 ∷ 120 ∷ []) ∷ (120 ∷ []) ∷ []
unfolding words cut stored
typed_words = refl

xx_x-IsLine : IsLine xx_x
xx_x-IsLine = record {
  room = omega arith;
  body = λ q h. ground (arith, h);
  unsplit = refl;
  zeros = λ q lo hi. ground (arith, lo);
}

xx_x-IsTyped : IsTyped xx_x.nsh_buf 0 4
xx_x-IsTyped = record { body = λ q lo hi. ground (arith, hi); end = refl }

nsh_createcmd-words_example :
    (let typed = words (stored 4 xx_x.nsh_buf 0) in
      let l' = nsh_createcmd 5 xx_x in
      Argv l'.nsh_buf l'.nsh_cmd 0 typed
      × (l'.nsh_cmdnarg ≡ length typed)
      × ((k : ℕ) → length typed ≤ k → l'.nsh_cmd k ≡ none))
nsh_createcmd-words_example = nsh_createcmd-words 5 xx_x xx_x-IsTyped (omega arith)

nsh_addchar-edit_example :
    Holds (nsh_addchar log_console 9 [] 120 xx_x_shell).line (edit 120 (text xx_x))
nsh_addchar-edit_example =
    nsh_addchar-edit log_console 9 [] 120 xx_x_shell xx_x-IsLine (omega arith)

nsh-edit_all_example : Holds (nsh log_console 9 [] help_x xx_x_shell).line (edit_all help_x [])
nsh-edit_all_example = nsh-edit_all log_console 9 [] help_x xx_x_shell

nsh_addchar-Ran_example :
    (after : Log) × Ran log_console 1024 []
      (words (text xx_x))
      (record { printed = (10 ∷ []) ∷ []; ran = [] })
      after
    × ((nsh_addchar log_console 1024 [] 10 xx_x_shell).world ≡ nsh_prompt log_console 1024 [] after)
nsh_addchar-Ran_example =
    nsh_addchar-Ran log_console 1024 [] xx_x_shell xx_x-IsLine (omega arith) refl
