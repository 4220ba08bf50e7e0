-- ===== src/Nsh/Dispatch.antt =====
-- What kernel/nsh/nsh.c does at the end of a line: the command that it runs, and with what arguments.
use mathlib.Core.Option
use nulix.Common.{
  ℕ, zero, suc, ◌+◌, ◌≤◌, ◌<◌, ◌≡◌, ◌≢◌, refl, ap, ◌∙◌, ◌==◌, Bool, true, false, ◌&&◌, not,
  if◌then◌else◌, Option, none, some, List, [], ◌∷◌, ◌++◌, length, arith, Bool-cases, inl, inr,
}
use nulix.Cstring.Memory.{Mem}
use nulix.Cstring.Text.{text_at}
use nulix.Nsh.Builtin.{builtin, is_text}
use nulix.Nsh.Line.{nsh_bufsize, Console, Line, Shell, nsh_createcmd, find_name}
use nulix.Nsh.Shell.{
  not_found, nsh_prompt, nsh_newline, nsh_execcmd, exec_first, exec_found, enter, nsh_addchar,
}
use nulix.Nsh.Words.{words, cut, push, Argv, IsTyped}
use nulix.Nsh.Split.{nsh_createcmd-words}
use nulix.Nsh.Typed.{IsLine, text}
use nulix.Nsh.Complete.{has_zero}
use nulix.Cstring.Stored.{length-stored, stored}

-- Equal texts.
abbrev pub same_text : List ℕ → List ℕ → Bool
same_text [] [] = true
same_text [] (d ∷ ds) = false
same_text (c ∷ cs) [] = false
same_text (c ∷ cs) (d ∷ ds) = c == d && same_text cs ds

-- The first of some names that a word is.
unfoldable pub first_named : List ℕ → List (List ℕ) → Option ℕ
first_named w [] = none
first_named w (name ∷ names) =
    let rest = Option.map suc (first_named w names) in if same_text w name then some 0 else rest

abbrev pub none_zero : List (List ℕ) → Bool
none_zero [] = true
none_zero (name ∷ names) = not (has_zero name) && none_zero names

is_text-same_text :
    (m : Mem) (p : ℕ) (w name : List ℕ)
    → is_text m p w ≡ true
    → has_zero w ≡ false
    → has_zero name ≡ false
    → is_text m p name ≡ same_text w name
unfolding is_text
is_text-same_text m p [] [] t h k = t
is_text-same_text m p [] (d ∷ ds) t h k = ground (arith, t, k)
is_text-same_text m p (c ∷ cs) [] t h k = ground (arith, t, h)
is_text-same_text m p (c ∷ cs) (d ∷ ds) t h k = ground (
  arith,
  is_text-same_text m (p + 1) cs ds (ground (arith, t)) (ground (arith, h)) (ground (arith, k)),
  t,
)

find_name-first_named :
    (m : Mem) (p : ℕ) (w : List ℕ) (names : List (List ℕ))
    → is_text m p w ≡ true
    → has_zero w ≡ false
    → none_zero names ≡ true
    → find_name m p names ≡ first_named w names
unfolding find_name first_named
find_name-first_named m p w [] t h k = refl
find_name-first_named m p w (name ∷ names) t h k =
    let rest = find_name-first_named m p w names t h (ground (arith, k)) in
    rw (is_text-same_text m p w name t h (ground (arith, k)), rest) refl

-- The text of a word, read back.
text_at-is_text :
    (fuel : ℕ) (m : Mem) (p : ℕ) (w : List ℕ)
    → is_text m p w ≡ true
    → has_zero w ≡ false
    → length w < fuel
    → text_at fuel m p ≡ w
unfolding is_text text_at
text_at-is_text zero m p w t h k = absurd (omega (arith, k))
text_at-is_text (suc fuel) m p [] t h k = ground (arith, t)
text_at-is_text (suc fuel) m p (c ∷ cs) t h k =
    let rest =
      text_at-is_text fuel m (p + 1) cs (ground (arith, t)) (ground (arith, h)) (omega arith) in
    ground (arith, rest, t, h)

-- Words that are no longer than the text, and have no zeros.
abbrev Fits : ℕ → List ℕ → Type 0
Fits n w = (has_zero w ≡ false) × (length w ≤ n)

abbrev AllFit : ℕ → List (List ℕ) → Type 0
AllFit n [] = Unit
AllFit n (w ∷ ws) = Fits n w × AllFit n ws

push-AllFit :
    (n : ℕ) (w : List ℕ) (ws : List (List ℕ)) → Fits n w → AllFit n ws → AllFit n (push w ws)
push-AllFit n [] ws f a = a
push-AllFit n (c ∷ cs) ws f a = (f, a)

cut-Fits :
    (n : ℕ) (t : List ℕ)
    → has_zero t ≡ false
    → length t ≤ n
    → Fits (length t) (cut t).first × AllFit n (cut t).later
unfolding cut
cut-Fits n [] h k = ((refl, omega arith), tt)
cut-Fits n (c ∷ cs) h k =
    let (first, later) = cut-Fits n cs (ground (arith, h)) (omega arith) in
    let (first_zero, first_length) = first in
    elim (Bool-cases (c == 32)) [
      | inl space ↦ rw space (
        (refl, omega arith),
        push-AllFit n (cut cs).first (cut cs).later (first_zero, omega arith) later,
      )
      | inr char ↦ rw char ((ground (arith, first_zero, h), omega arith), later)
    ]

words-AllFit : (t : List ℕ) → has_zero t ≡ false → AllFit (length t) (words t)
unfolding words
words-AllFit t h =
    let (first, later) = cut-Fits (length t) t h (omega arith) in
    push-AllFit (length t) (cut t).first (cut t).later first later

has_zero-stored :
    (n : ℕ) (m : Mem) (i : ℕ)
    → ((q : ℕ) → i ≤ q → q < i + n → m q ≢ 0)
    → has_zero (stored n m i) ≡ false
unfolding stored
has_zero-stored zero m i h = refl
has_zero-stored (suc n) m i h =
    let rest = has_zero-stored n m (i + 1) (λ q lo hi. h q (omega arith) (omega arith)) in
    ground (arith, rest, h i (omega arith) (omega arith))

module _ {ℓ} {W : Type ℓ} (console : Console W) (fuel : ℕ) (low : List ℕ) where
  -- What the words of a line have done: the builtin that the first one names has run, with the words
  -- as its arguments, or a message tells that there is none.
  abbrev pub RanAs : Option ℕ → List ℕ → List (List ℕ) → W → W → Type ℓ
  RanAs none w ws before after = after ≡ console.print (not_found w) before
  RanAs (some i) w ws before after =
      (argv : ℕ → Option ℕ) × (buf : Mem) × Argv buf argv 0 (w ∷ ws)
      × (after ≡ console.exec i (suc (length ws)) argv buf before)

  abbrev pub Ran : List (List ℕ) → W → W → Type ℓ
  Ran [] before after = after ≡ before
  Ran (w ∷ ws) before after = RanAs (first_named w (builtin ++ (low ∷ []))) w ws before after

  found-RanAs :
      (l : Line) (p : ℕ) (found : Option ℕ) (w : List ℕ) (ws : List (List ℕ)) (before : W)
      → Argv l.nsh_buf l.nsh_cmd 0 (w ∷ ws)
      → l.nsh_cmdnarg ≡ suc (length ws)
      → text_at fuel l.nsh_buf p ≡ w
      → RanAs found w ws before (exec_found console fuel low l p found before)
  found-RanAs l p none w ws before a n t = ap (λ x. console.print (not_found x) before) t
  found-RanAs l p (some i) w ws before a n t =
      (l.nsh_cmd, l.nsh_buf, a, ap (λ k. console.exec i k l.nsh_cmd l.nsh_buf before) n)

  exec-Ran :
      (n : ℕ) (l : Line) (ws : List (List ℕ)) (before : W)
      → Argv l.nsh_buf l.nsh_cmd 0 ws
      → l.nsh_cmdnarg ≡ length ws
      → (length ws ≤ 0 → l.nsh_cmd 0 ≡ none)
      → AllFit n ws
      → n < fuel
      → has_zero low ≡ false
      → Ran ws before (exec_first console fuel low l (l.nsh_cmd 0) before)
  exec-Ran n l [] before a c e f h z = rw (e (omega arith)) refl
  exec-Ran n l (w ∷ ws) before a c e f h z =
      let ((p, at, here), rest) = a in
      let ((zero_free, short), _) = f in
      let found =
        find_name-first_named l.nsh_buf p w (builtin ++ (low ∷ [])) here zero_free
          (ground (arith, z)) in
      rw (at, found)
        (found-RanAs l p _ w ws before a c
          (text_at-is_text fuel l.nsh_buf p w here zero_free (omega arith)))

  -- At a newline on a well formed line, with fuel for its buffer, the shell runs the first
  -- builtin that the first word of the line names, with all the words, in order, as its arguments
  -- and their number as argc; it prints a message if there is none, does nothing if the line has
  -- no word, and then gives a prompt.
  pub nsh_addchar-Ran :
      (s : Shell W)
      → IsLine s.line
      → nsh_bufsize ≤ fuel
      → has_zero low ≡ false
      → (after : W) × Ran
          (words (text s.line))
          (console.print (10 ∷ []) (console.scroll_down s.world))
          after
        × ((nsh_addchar console fuel low 10 s).world ≡ nsh_prompt console fuel low after)
  unfolding nsh_addchar enter nsh_newline nsh_execcmd text words cut stored
  nsh_addchar-Ran s v h z =
      let l = s.line in
      let start = console.print (10 ∷ []) (console.scroll_down s.world) in
      let l' = nsh_createcmd fuel l in
      elim (Bool-cases (l.nsh_bufindex == 0)) [
        | inl empty ↦
            let zero_long : l.nsh_bufindex ≡ 0 = ground (arith, empty) in
            let no_words : words (text l) ≡ [] = ap (λ k. words (stored k l.nsh_buf 0)) zero_long in
            (start, rw no_words refl, ground (arith, empty))
        | inr some_left ↦
            let typed : IsTyped l.nsh_buf 0 l.nsh_bufindex = record {
              body = λ q lo hi. v.body q hi;
              end = v.zeros l.nsh_bufindex (omega arith) v.room;
            } in
            let (argv, count, later) = nsh_createcmd-words fuel l typed (omega (arith, v.room)) in
            let no_zero =
              has_zero-stored l.nsh_bufindex l.nsh_buf 0 (λ q lo hi. v.body q (omega arith)) in
            let size = length-stored l.nsh_bufindex l.nsh_buf 0 in
            let ran =
              exec-Ran (length (text l)) l' (words (text l)) start argv count
                (λ none_left. later 0 none_left ∙ v.unsplit) (words-AllFit (text l) no_zero)
                (omega (arith, size, v.room)) z in
            (exec_first console fuel low l' (l'.nsh_cmd 0) start, ran, ground (arith, some_left))
      ]
