-- ===== src/Nsh/Edit.antt =====
-- The line of kernel/nsh/nsh.c over the keys of a run.
use nulix.Common.{
  ℕ, ◌-◌, ◌≡◌, ◌≢◌, refl, ap, ◌∙◌, sym, ◌==◌, ltb, Bool, true, false, if◌then◌else◌, not, List, [],
  ◌∷◌, ◌++◌, length, arith, Bool-cases, inl, inr,
}
use nulix.Nsh.Builtin.{builtin}
use nulix.Nsh.Line.{nsh_bufsize, Console, Line, Shell, clear_line, backspace, type_char}
use nulix.Nsh.Shell.{
  Pressed, enter, nsh_newline, nsh_addchar, nsh_shortcut, on_event, nsh_rounds, nsh, complete,
}
use nulix.Nsh.Typed.{
  IsLine, text, clear_line-IsLine, type_char-text, type_char-IsLine, drop_last, backspace-text,
  backspace-IsLine,
}
use nulix.Nsh.Complete.{complete_text, complete-complete_text}
use nulix.Keyboard.State.{kbd_getchar}
use nulix.Cstring.Stored.{length-stored, stored}

-- An empty line is not completed.
abbrev pub completion : List ℕ → List ℕ
completion [] = []
completion (c ∷ cs) = complete_text builtin (c ∷ cs)

-- What a character does to the text.
unfoldable pub edit : ℕ → List ℕ → List ℕ
edit c t =
    if c == 10
    then []
    else if c == 8
    then drop_last t
    else if c == 9
    then completion t
    else if ltb (length t) (nsh_bufsize - 1)
    then t ++ (c ∷ [])
    else t

unfoldable pub edit_all : List Pressed → List ℕ → List ℕ
edit_all [] t = t
edit_all (e ∷ es) t =
    let c = kbd_getchar e.keyboard e.event in edit_all es (if not (c == 0) then edit c t else t)

-- The line holds a text.
pub record Holds (l : Line) (t : List ℕ) : Type 0 where
  pub is_line : IsLine l
  pub shown : text l ≡ t

cleared : (l : Line) → Holds (clear_line l) []
unfolding text clear_line stored
cleared l = record { is_line = clear_line-IsLine l; shown = refl }

size : (l : Line) → length (text l) ≡ l.nsh_bufindex
unfolding text
size l = length-stored l.nsh_bufindex l.nsh_buf 0

some_text : (t : List ℕ) → length t ≢ 0 → completion t ≡ complete_text builtin t
some_text [] h = absurd (h refl)
some_text (c ∷ cs) h = refl

no_text : (t : List ℕ) → length t ≡ 0 → t ≡ []
no_text [] h = refl
no_text (c ∷ cs) h = absurd (omega (arith, h))

module _ {ℓ} {W : Type ℓ} (console : Console W) (fuel : ℕ) (low : List ℕ) where
  line-if : (b : Bool) (x y : Shell W) → (if b then x else y).line ≡ (if b then x.line else y.line)
  line-if true x y = refl
  line-if false x y = refl

  enter-Holds : (s : Shell W) → Holds (enter console fuel low s).line []
  unfolding enter nsh_newline
  enter-Holds s = cleared _

  backspace-Holds :
      (l : Line)
      → IsLine l
      → Holds (if ltb 0 l.nsh_bufindex then backspace l else l) (drop_last (text l))
  backspace-Holds l v = elim (Bool-cases (ltb 0 l.nsh_bufindex)) [
    | inl some_left ↦ rw some_left (record {
      is_line = backspace-IsLine l v (ground (arith, some_left));
      shown = backspace-text l (ground (arith, some_left));
    })
    | inr empty ↦
        let nothing : text l ≡ [] = no_text (text l) (ground (arith, size l, empty)) in
        rw empty (record { is_line = v; shown = nothing ∙ ap drop_last (sym nothing) })
  ]

  tab-Holds :
      (s : Shell W)
      → IsLine s.line
      → Holds
          (if s.line.nsh_bufindex == 0 then s else complete console fuel low builtin s).line
          (completion (text s.line))
  tab-Holds s v = elim (Bool-cases (s.line.nsh_bufindex == 0)) [
    | inl empty ↦
        let nothing : text s.line ≡ [] =
          no_text (text s.line) (ground (arith, size s.line, empty)) in
        rw empty (record { is_line = v; shown = nothing ∙ ap completion (sym nothing) })
    | inr some_left ↦
        let (is_line, shown) = complete-complete_text console fuel low builtin s v refl in
        let same = some_text (text s.line) (ground (arith, size s.line, some_left)) in
        rw some_left (record { is_line = is_line; shown = shown ∙ sym same })
  ]

  type-Holds :
      (l : Line) (c : ℕ)
      → IsLine l
      → c ≢ 0
      → Holds
          (if ltb l.nsh_bufindex (nsh_bufsize - 1) then type_char l c else l)
          (if ltb (length (text l)) (nsh_bufsize - 1) then text l ++ (c ∷ []) else text l)
  type-Holds l c v h = rw (size l) (elim (Bool-cases (ltb l.nsh_bufindex (nsh_bufsize - 1))) [
    | inl room ↦ rw room (record {
      is_line = type_char-IsLine l c v h (ground (arith, room));
      shown = type_char-text l c;
    })
    | inr full ↦ rw full (record { is_line = v; shown = refl })
  ])

  -- A character edits the text.
  pub nsh_addchar-edit :
      (c : ℕ) (s : Shell W)
      → IsLine s.line
      → c ≢ 0
      → Holds (nsh_addchar console fuel low c s).line (edit c (text s.line))
  unfolding nsh_addchar edit
  nsh_addchar-edit c s v h = elim (Bool-cases (c == 10)) [
    | inl newline ↦ rw newline (enter-Holds _)
    | inr n ↦ elim (Bool-cases (c == 8)) [
      | inl back ↦ rw (n, back, line-if (ltb 0 s.line.nsh_bufindex) _ _) (backspace-Holds s.line v)
      | inr b ↦ elim (Bool-cases (c == 9)) [
        | inl tab ↦ rw (n, b, tab) (tab-Holds (record s { world = console.scroll_down s.world }) v)
        | inr t ↦
            rw (n, b, t, line-if (ltb s.line.nsh_bufindex (nsh_bufsize - 1)) _ _)
              (type-Holds s.line c v h)
      ]
    ]
  ]

  on_event-edit :
      (e : Pressed) (s : Shell W)
      → IsLine s.line
      → (let c = kbd_getchar e.keyboard e.event in
          Holds
            (on_event console fuel low e.keyboard e.event s).line
            (if not (c == 0) then edit c (text s.line) else text s.line))
  unfolding on_event nsh_shortcut
  on_event-edit e s v =
      let c = kbd_getchar e.keyboard e.event in
      elim (Bool-cases (c == 0)) [
        | inl nul ↦ rw nul (record { is_line = v; shown = refl })
        | inr char ↦ rw char (nsh_addchar-edit c s v (λ z. absurd (ground (arith, z, char))))
      ]

  nsh_rounds-edit_all :
      (es : List Pressed) (s : Shell W)
      → IsLine s.line
      → Holds (nsh_rounds console fuel low es s).line (edit_all es (text s.line))
  unfolding nsh_rounds edit_all
  nsh_rounds-edit_all [] s v = record { is_line = v; shown = refl }
  nsh_rounds-edit_all (e ∷ es) s v =
      let next = on_event-edit e s v in
      let rest =
        nsh_rounds-edit_all es (on_event console fuel low e.keyboard e.event s) next.is_line in
      let c = kbd_getchar e.keyboard e.event in
      record { is_line = rest.is_line; shown = rest.shown ∙ ap (edit_all es) next.shown }

  -- Whatever keys the keyboard gives, and whatever the shell's variables held before, the line
  -- stays shorter than its buffer, without zeros before its end and with zeros after it, and is
  -- the text that a list would be after the same keys: characters are put at its end, a backspace
  -- drops the last one, a newline empties it, and a tabulation completes it by the names of the
  -- builtins.
  pub nsh-edit_all :
      (es : List Pressed) (s : Shell W) → Holds (nsh console fuel low es s).line (edit_all es [])
  unfolding nsh nsh_newline
  nsh-edit_all es s =
      let start = cleared s.line in
      let run = nsh_rounds-edit_all es (nsh_newline console fuel low s) start.is_line in
      record { is_line = run.is_line; shown = run.shown ∙ ap (edit_all es) start.shown }
