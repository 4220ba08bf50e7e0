-- ===== src/Nsh/Typed.antt =====
-- The line of kernel/nsh/nsh.c as a text, and what the operations on it do to that text.
use nulix.Common.{
  ℕ, zero, suc, ◌+◌, ◌-◌, ◌≤◌, ◌<◌, ◌≡◌, ◌≢◌, refl, ap, ◌∙◌, sym, List, [], ◌∷◌, ◌++◌, none, arith,
  ℕ_discrete, ◌%◌,
}
use nulix.Cstring.Memory.{Mem, put, memset}
use nulix.Nsh.Line.{nsh_bufsize, Line, clear_line, backspace, type_char}
use nulix.Cstring.Stored.{stored-congr, stored-snoc, stored}

-- The bytes before `nsh_bufindex` are not zero, the others are, and the line has not been split.
pub record IsLine (l : Line) : Type 0 where
  pub room : l.nsh_bufindex < nsh_bufsize
  pub body : (q : ℕ) → q < l.nsh_bufindex → l.nsh_buf q ≢ 0
  pub unsplit : l.nsh_cmd 0 ≡ none
  pub zeros : (q : ℕ) → l.nsh_bufindex ≤ q → q < nsh_bufsize → l.nsh_buf q ≡ 0

unfoldable pub text : Line → List ℕ
text l = stored l.nsh_bufindex l.nsh_buf 0

memset-below : (n : ℕ) (m : Mem) (s c q : ℕ) → q < s → memset m s c n q ≡ m q
unfolding memset
memset-below zero m s c q h = refl
memset-below (suc n) m s c q h =
    memset-below n (put m s (c % 256)) (s + 1) c q (omega arith) ∙ ground arith

memset-within : (n : ℕ) (m : Mem) (s c q : ℕ) → s ≤ q → q < s + n → memset m s c n q ≡ c % 256
unfolding memset
memset-within zero m s c q lo hi = absurd (omega arith)
memset-within (suc n) m s c q lo hi = elim (ℕ_discrete q s) [
  | yes e ↦ memset-below n (put m s (c % 256)) (s + 1) c q (omega arith) ∙ ground (arith, e)
  | no ne ↦ memset-within n (put m s (c % 256)) (s + 1) c q (omega arith) (omega arith)
]

pub clear_line-IsLine : (l : Line) → IsLine (clear_line l)
unfolding clear_line
clear_line-IsLine l = record {
  room = omega arith;
  body = λ q h. absurd (omega arith);
  unsplit = refl;
  zeros = λ q lo hi. memset-within nsh_bufsize l.nsh_buf 0 0 q (omega arith) (omega arith);
}

-- The text of a line with one more byte.
pub type_char-text : (l : Line) (c : ℕ) → text (type_char l c) ≡ text l ++ (c ∷ [])
unfolding text type_char
type_char-text l c =
    let n = l.nsh_bufindex in
    let m = put l.nsh_buf n c in
    let one_more : n + 1 ≡ suc n = omega arith in
    let last : m (0 + n) ≡ c = ground arith in
    ap (λ k. stored k m 0) one_more
    ∙ stored-snoc n m 0
    ∙ ap (λ b. stored n m 0 ++ (b ∷ [])) last
    ∙ ap (λ (xs : List ℕ). xs ++ (c ∷ []))
        (stored-congr n l.nsh_buf m 0 (λ q lo hi. ground (arith, hi)))

pub type_char-IsLine :
    (l : Line) (c : ℕ)
    → IsLine l
    → c ≢ 0
    → l.nsh_bufindex + 1 < nsh_bufsize
    → IsLine (type_char l c)
unfolding type_char
type_char-IsLine l c v h k = record {
  room = k;
  body = λ q lt. ground (arith, v.body q, h, lt);
  unsplit = v.unsplit;
  zeros = λ q lo hi. ground (arith, v.zeros q, lo, hi);
}

abbrev pub drop_last : List ℕ → List ℕ
drop_last [] = []
drop_last (x ∷ []) = []
drop_last (x ∷ y ∷ ys) = x ∷ drop_last (y ∷ ys)

drop_last-snoc : (xs : List ℕ) (x : ℕ) → drop_last (xs ++ (x ∷ [])) ≡ xs
drop_last-snoc [] x = refl
drop_last-snoc (y ∷ []) x = refl
drop_last-snoc (y ∷ z ∷ zs) x = ap (λ (xs : List ℕ). y ∷ xs) (drop_last-snoc (z ∷ zs) x)

pub backspace-text : (l : Line) → 0 < l.nsh_bufindex → text (backspace l) ≡ drop_last (text l)
unfolding text backspace
backspace-text l h =
    let n = l.nsh_bufindex - 1 in
    let whole : l.nsh_bufindex ≡ suc n = omega arith in
    stored-congr n l.nsh_buf (put l.nsh_buf n 0) 0 (λ q lo hi. ground (arith, hi))
    ∙ sym (
        ap (λ k. drop_last (stored k l.nsh_buf 0)) whole
        ∙ ap drop_last (stored-snoc n l.nsh_buf 0)
        ∙ drop_last-snoc (stored n l.nsh_buf 0) (l.nsh_buf (0 + n)))

pub backspace-IsLine : (l : Line) → IsLine l → 0 < l.nsh_bufindex → IsLine (backspace l)
unfolding backspace
backspace-IsLine l v h = record {
  room = omega (arith, v.room);
  body = λ q lt. ground (arith, v.body q, lt);
  unsplit = v.unsplit;
  zeros = λ q lo hi. ground (arith, v.zeros q, lo, hi);
}
