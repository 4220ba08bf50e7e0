-- ===== src/Nsh/Complete.antt =====
-- The completion of kernel/nsh/nsh.c, on a tabulation.
use nulix.Common.{
  ℕ, zero, suc, ◌+◌, ◌≤◌, ◌<◌, ◌≡◌, ◌≢◌, refl, ap, ◌∙◌, sym, ◌==◌, ltb, Bool, true, false, ◌&&◌,
  not, if◌then◌else◌, List, [], ◌∷◌, ◌++◌, length, arith, Bool-cases, inl, inr, ◌⊎◌,
}
use mathlib.Core.List.{append_assoc, append-nil}
use nulix.Cstring.Memory.{Mem}
use nulix.Nsh.Line.{nsh_bufsize, Console, Line, Shell, match_name, append, type_char}
use nulix.Nsh.Shell.{complete_with, complete}
use nulix.Nsh.Typed.{IsLine, text, type_char-text, type_char-IsLine}
use nulix.Cstring.Stored.{length-stored, stored}

-- What a name has after a text that it begins with, and nothing for another text.
unfoldable pub remaining : List ℕ → List ℕ → List ℕ
remaining [] name = name
remaining (x ∷ t) [] = []
remaining (x ∷ t) (c ∷ cs) = let rest = remaining t cs in if x == c then rest else []

-- Each name in turn completes the text.
unfoldable pub complete_text : List (List ℕ) → List ℕ → List ℕ
complete_text [] t = t
complete_text (name ∷ names) t = complete_text names (t ++ remaining t name)

-- A text without zeros that leaves room in the line.
abbrev pub has_zero : List ℕ → Bool
has_zero [] = false
has_zero (c ∷ cs) = if c == 0 then true else has_zero cs

abbrev pub is_name : List ℕ → Bool
is_name name = not (has_zero name) && ltb (length name) nsh_bufsize

abbrev pub all_names : List (List ℕ) → Bool
all_names [] = true
all_names (name ∷ names) = is_name name && all_names names

-- What a round adds to the line.
abbrev added : Mem → ℕ → List ℕ → List ℕ
added m p [] = []
added m p (c ∷ cs) = if m p == 0 then c ∷ cs else []

match_name-remaining :
    (n : ℕ) (m : Mem) (p : ℕ) (name : List ℕ)
    → ((q : ℕ) → p ≤ q → q < p + n → m q ≢ 0)
    → m (p + n) ≡ 0
    → added m (match_name m p name).p (match_name m p name).q ≡ remaining (stored n m p) name
unfolding match_name remaining stored
match_name-remaining zero m p [] body end = refl
match_name-remaining (suc n) m p [] body end = refl
match_name-remaining zero m p (c ∷ cs) body end =
    let here : m p ≡ 0 = ap m (omega arith) ∙ end in ground (arith, here)
match_name-remaining (suc n) m p (c ∷ cs) body end =
    let rest =
      match_name-remaining n m (p + 1) cs (λ q lo hi. body q (omega arith) (omega arith))
        (ap m (omega arith) ∙ end) in
    ground (arith, rest, body p (omega arith) (omega arith))

length-remaining :
    (t name : List ℕ)
    → (remaining t name ≡ []) ⊎ (length t + length (remaining t name) ≡ length name)
unfolding remaining
length-remaining [] name = inr (omega arith)
length-remaining (x ∷ t) [] = inl refl
length-remaining (x ∷ t) (c ∷ cs) = elim (length-remaining t cs) [
  | inl nothing ↦ inl (ground (arith, nothing))
  | inr sum ↦ elim (Bool-cases (x == c)) [
    | inl same ↦ inr (ground (arith, sum, same))
    | inr other ↦ inl (ground (arith, other))
  ]
]

has_zero-remaining : (t name : List ℕ) → has_zero name ≡ false → has_zero (remaining t name) ≡ false
unfolding remaining
has_zero-remaining [] name h = h
has_zero-remaining (x ∷ t) [] h = refl
has_zero-remaining (x ∷ t) (c ∷ cs) h = ground (arith, h, has_zero-remaining t cs)

-- Appending in room enough.
record Appended (l : Line) (cs : List ℕ) : Type 0 where
  is_line : IsLine (append l cs)
  shown : text (append l cs) ≡ text l ++ cs

append-Appended :
    (l : Line) (cs : List ℕ)
    → IsLine l
    → has_zero cs ≡ false
    → l.nsh_bufindex + length cs < nsh_bufsize
    → Appended l cs
unfolding append type_char
append-Appended l [] v h k = record { is_line = v; shown = sym (append-nil (text l)) }
append-Appended l (c ∷ cs) v h k =
    let next = type_char l c in
    let rest =
      append-Appended next cs (type_char-IsLine l c v (ground (arith, h)) (omega arith))
        (ground (arith, h)) (omega arith) in
    let step : append l (c ∷ cs) ≡ append next cs = ground (arith, v.room) in
    record {
      is_line = rw step rest.is_line;
      shown =
          ap text step
          ∙ rest.shown
          ∙ ap (λ (xs : List ℕ). xs ++ cs) (type_char-text l c)
          ∙ append_assoc (text l) (c ∷ []) cs;
    }

-- A completion leaves the line shorter than its name.
room_for-remaining :
    (l : Line) (name : List ℕ)
    → IsLine l
    → is_name name ≡ true
    → l.nsh_bufindex + length (remaining (text l) name) < nsh_bufsize
unfolding text
room_for-remaining l name v h =
    let size = length-stored l.nsh_bufindex l.nsh_buf 0 in
    elim (length-remaining (text l) name) [
      | inl nothing ↦ rw nothing (omega (arith, v.room))
      | inr sum ↦ ground (arith, sum, size, h)
    ]

module _ {ℓ} {W : Type ℓ} (console : Console W) (fuel : ℕ) (low : List ℕ) where
  line_after :
      (s : Shell W) (p : ℕ) (q : List ℕ)
      → (complete_with console fuel low s p q).line ≡ append s.line (added s.line.nsh_buf p q)
  unfolding append
  line_after s p [] = refl
  line_after s p (c ∷ cs) = elim (Bool-cases (s.line.nsh_buf p == 0)) [
    | inl here ↦ rw here refl
    | inr other ↦ rw other refl
  ]

  -- A round for one name.
  completed :
      (s : Shell W) (name : List ℕ)
      → IsLine s.line
      → is_name name ≡ true
      → (let m = match_name s.line.nsh_buf 0 name in
          let l' = (complete_with console fuel low s m.p m.q).line in
          IsLine l' × (text l' ≡ text s.line ++ remaining (text s.line) name))
  unfolding text
  completed s name v h =
      let l = s.line in
      let m = match_name l.nsh_buf 0 name in
      let rest = remaining (text l) name in
      let same : added l.nsh_buf m.p m.q ≡ rest =
        match_name-remaining l.nsh_bufindex l.nsh_buf 0 name (λ q lo hi. v.body q (omega arith))
          (v.zeros (0 + l.nsh_bufindex) (omega arith) (omega (arith, v.room))) in
      let a =
        append-Appended l rest v (has_zero-remaining (text l) name (ground (arith, h)))
          (room_for-remaining l name v h) in
      rw (line_after s m.p m.q, same) (a.is_line, a.shown)

  pub complete-complete_text :
      (names : List (List ℕ)) (s : Shell W)
      → IsLine s.line
      → all_names names ≡ true
      → (let l' = (complete console fuel low names s).line in
          IsLine l' × (text l' ≡ complete_text names (text s.line)))
  unfolding complete complete_text
  complete-complete_text [] s v h = (v, refl)
  complete-complete_text (name ∷ names) s v h =
      let m = match_name s.line.nsh_buf 0 name in
      let next = complete_with console fuel low s m.p m.q in
      let (one, shown) = completed s name v (ground (arith, h)) in
      let (all, done) = complete-complete_text names next one (ground (arith, h)) in
      (all, done ∙ ap (complete_text names) shown)
