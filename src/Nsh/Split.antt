-- ===== src/Nsh/Split.antt =====
-- nsh_createcmd of kernel/nsh/nsh.c against the words of the line.
use nulix.Common.{
  ℕ, zero, suc, ◌+◌, ◌-◌, ◌≤◌, ◌<◌, ◌≡◌, ◌≢◌, refl, ap, ◌∙◌, sym, ◌==◌, ==_iff, false, not, some,
  List, [], ◌∷◌, length, arith, Bool-cases, inl, inr, dec_lt, ℕ_discrete,
}
use nulix.Cstring.Memory.{put}
use nulix.Cstring.Text.{walk}
use nulix.Nsh.Line.{Line, Cursor, set_cmd, split_step, split_loop, nsh_createcmd}
use nulix.Nsh.Words.{
  words, cut, Argv, IsTyped, IsTyped-later, Walked, walk-Walked, words-spaces, words-word,
  is_text-stored,
}
use nulix.Cstring.Stored.{stored-congr, stored}

-- The words from the cursor on.
abbrev words_left : ℕ → Cursor → List (List ℕ)
words_left n s = words (stored (n - s.ibuf) s.buf s.ibuf)

-- What the loop makes of the rest of the line.
record Split (n : ℕ) (s s' : Cursor) : Type 0 where
  kept_cmd : (k : ℕ) → k < s.icmd → s'.cmd k ≡ s.cmd k
  kept_later : (k : ℕ) → s'.icmd ≤ k → s'.cmd k ≡ s.cmd k
  kept_before : (q : ℕ) → q < s.ibuf → s'.buf q ≡ s.buf q
  kept_words : (q : ℕ) → s.buf q ≢ 32 → s'.buf q ≡ s.buf q
  space_cut : s.ibuf < n → s.buf s.ibuf ≡ 32 → s'.buf s.ibuf ≡ 0
  argv : Argv s'.buf s'.cmd s.icmd (words_left n s)
  count : s'.icmd ≡ s.icmd + length (words_left n s)

at_end : (n : ℕ) (s : Cursor) → s.ibuf ≡ n → Split n s s
unfolding words stored cut
at_end n s e =
    let nothing : n - s.ibuf ≡ 0 = omega arith in
    let no_words : words_left n s ≡ [] = rw nothing refl in
    record {
      kept_cmd = λ k h. refl;
      kept_later = λ k h. refl;
      kept_before = λ q h. refl;
      kept_words = λ q h. refl;
      space_cut = λ h k. absurd (omega arith);
      argv = rw no_words tt;
      count = rw no_words (omega arith);
    }

-- The round of a word, which ends at `j`.
abbrev past_word : Cursor → ℕ → Cursor
past_word s j = record s { cmd = set_cmd s.cmd s.icmd (some s.ibuf); ibuf = j; icmd = s.icmd + 1 }

some_bytes :
    (n j : ℕ) (s : Cursor)
    → s.ibuf < n
    → (s.buf s.ibuf == 32) ≡ false
    → Walked s.buf (λ b. not (b == 32)) s.ibuf n j
    → s.ibuf < j
some_bytes n j s lt c w = elim (ℕ_discrete s.ibuf j) [
  | yes e ↦ absurd (ground (arith, w.stopped (omega arith), c, e, ap s.buf e))
  | no ne ↦ omega (arith, w.least)
]

module _ (n j : ℕ) (s s' : Cursor) (t : IsTyped s.buf s.ibuf n) (lt : s.ibuf < n)
    (c : (s.buf s.ibuf == 32) ≡ false) (w : Walked s.buf (λ b. not (b == 32)) s.ibuf n j)
    (r : Split n (past_word s j) s') where
  space_after : j < n → s.buf j ≡ 32
  space_after h = ground (arith, w.stopped h)

  zero_after : s'.buf j ≡ 0
  zero_after = elim (dec_lt j n) [
    | yes h ↦ r.space_cut h (space_after h)
    | no h ↦
        let last : j ≡ n = omega (arith, w.most) in
        let at : s.buf j ≡ 0 = ap s.buf last ∙ t.end in
        r.kept_words j (λ e. absurd (ground (arith, at, e))) ∙ at
  ]

  first_word : words_left n s ≡ stored (j - s.ibuf) s.buf s.ibuf ∷ words_left n (past_word s j)
  first_word =
      let all : n - s.ibuf ≡ (j - s.ibuf) + (n - j) = omega (arith, w.most, w.least) in
      let there : s.ibuf + (j - s.ibuf) ≡ j = omega (arith, w.least) in
      ap (λ k. words (stored k s.buf s.ibuf)) all
      ∙ words-word (j - s.ibuf) (n - j) s.buf s.ibuf (omega (arith, some_bytes n j s lt c w))
          (λ q lo hi. ground (arith, w.passed q lo (omega arith)))
          (λ one. ap s.buf there ∙ space_after (omega arith))
      ∙ ap (λ q. stored (j - s.ibuf) s.buf s.ibuf ∷ words (stored (n - j) s.buf q)) there

  after_word : Split n s s'
  after_word =
      let there : s.ibuf + (j - s.ibuf) ≡ j = omega (arith, w.least) in
      record {
        kept_cmd = λ k h. ground (arith, r.kept_cmd k (omega arith), h);
        kept_later = λ k h. ground (arith, r.kept_later k h, r.count, h);
        kept_before = λ q h. r.kept_before q (omega (arith, w.least));
        kept_words = r.kept_words;
        space_cut = λ h e. absurd (ground (arith, c, e));
        argv = rw first_word (
          (
            s.ibuf,
            ground (arith, r.kept_cmd s.icmd (omega arith)),
            is_text-stored (j - s.ibuf) s.buf s'.buf s.ibuf
                (λ q lo hi. r.kept_before q (omega arith)) (ap s'.buf there ∙ zero_after),
          ),
          r.argv,
        );
        count = rw first_word (omega (arith, r.count));
      }

-- The round of a space and the spaces after it.
abbrev past_space : Cursor → ℕ → Cursor
past_space s j = record s { buf = put s.buf s.ibuf 0; ibuf = j }

module _ (n j : ℕ) (s s' : Cursor) (t : IsTyped s.buf s.ibuf n) (lt : s.ibuf < n)
    (c : s.buf s.ibuf ≡ 32) (w : Walked (put s.buf s.ibuf 0) (λ b. b == 32) (s.ibuf + 1) n j)
    (r : Split n (past_space s j) s') where
  same_words : words_left n s ≡ words_left n (past_space s j)
  same_words =
      let all : n - s.ibuf ≡ (j - s.ibuf) + (n - j) = omega (arith, w.most, w.least) in
      let there : s.ibuf + (j - s.ibuf) ≡ j = omega (arith, w.least) in
      let space : (q : ℕ) → s.ibuf ≤ q → q < s.ibuf + (j - s.ibuf) → s.buf q ≡ 32 = λ q lo hi.
        elim (ℕ_discrete q s.ibuf) [
          | yes e ↦ ap s.buf e ∙ c
          | no ne ↦ ground (arith, w.passed q (omega arith) (omega arith), ne)
        ] in
      ap (λ k. words (stored k s.buf s.ibuf)) all
      ∙ words-spaces (j - s.ibuf) (n - j) s.buf s.ibuf space
      ∙ ap (λ q. words (stored (n - j) s.buf q)) there
      ∙ ap words (
          sym (
            stored-congr (n - j) s.buf (put s.buf s.ibuf 0) j
              (λ q lo hi. ground (arith, lo, w.least))))

  after_space : Split n s s'
  after_space = record {
    kept_cmd = r.kept_cmd;
    kept_later = r.kept_later;
    kept_before = λ q h. ground (arith, r.kept_before q (omega (arith, w.least)), h);
    kept_words = λ q h.
        let other : (q == s.ibuf) ≡ false = elim (ℕ_discrete q s.ibuf) [
          | yes e ↦ absurd (h (ap s.buf e ∙ c))
          | no ne ↦ ground (arith, ne)
        ] in
        let same : put s.buf s.ibuf 0 q ≡ s.buf q = ground (arith, other) in
        r.kept_words q (λ e. h (sym same ∙ e)) ∙ same;
    space_cut = λ h e. ground (arith, r.kept_before s.ibuf (omega (arith, w.least)));
    argv = rw same_words r.argv;
    count = rw same_words r.count;
  }

step-word :
    (fuel n : ℕ) (s : Cursor)
    → IsTyped s.buf s.ibuf n
    → s.ibuf < n
    → (s.buf s.ibuf == 32) ≡ false
    → split_step fuel s ≡ past_word s (walk fuel s.buf (λ b. not (b == 32)) s.ibuf)
unfolding split_step
step-word fuel n s t lt c = ground (arith, c, t.body s.ibuf)

step-space :
    (fuel : ℕ) (s : Cursor)
    → s.buf s.ibuf ≡ 32
    → split_step fuel s ≡ past_space s (walk fuel (put s.buf s.ibuf 0) (λ b. b == 32) (s.ibuf + 1))
unfolding split_step
step-space fuel s c = ground (arith, c)

loop-on :
    (rounds fuel n : ℕ) (s : Cursor)
    → s.ibuf < n
    → split_loop (suc rounds) fuel n s ≡ split_loop rounds fuel n (split_step fuel s)
unfolding split_loop
loop-on rounds fuel n s lt = ground arith

loop-off : (rounds fuel n : ℕ) (s : Cursor) → n ≤ s.ibuf → split_loop rounds fuel n s ≡ s
unfolding split_loop
loop-off zero fuel n s h = refl
loop-off (suc rounds) fuel n s h = ground arith

-- With a round for each byte that is left, the loop gets to the end of the line.
split_loop-Split :
    (rounds fuel n : ℕ) (s : Cursor)
    → IsTyped s.buf s.ibuf n
    → s.ibuf ≤ n
    → n < fuel
    → n ≤ s.ibuf + rounds
    → Split n s (split_loop rounds fuel n s)
split_loop-Split zero fuel n s t h k r =
    rw (loop-off zero fuel n s (omega arith)) (at_end n s (omega arith))
split_loop-Split (suc rounds) fuel n s t h k r = elim (dec_lt s.ibuf n) [
  | no over ↦ rw (loop-off (suc rounds) fuel n s (omega arith)) (at_end n s (omega arith))
  | yes lt ↦ elim (Bool-cases (s.buf s.ibuf == 32)) [
    | inl space ↦
        let c : s.buf s.ibuf ≡ 32 = (==_iff _ _).0 space in
        let cleared = put s.buf s.ibuf 0 in
        let after =
          IsTyped-later s.buf cleared s.ibuf (s.ibuf + 1) n t (omega arith) (omega arith)
            (λ q lo. ground (arith, lo)) in
        let w =
          walk-Walked fuel cleared (λ b. b == 32) (s.ibuf + 1) n after (omega arith)
            (omega arith) in
        let j = walk fuel cleared (λ b. b == 32) (s.ibuf + 1) in
        let typed =
          IsTyped-later cleared cleared (s.ibuf + 1) j n after w.least w.most (λ q lo. refl) in
        let rest =
          split_loop-Split rounds fuel n (past_space s j) typed w.most k (omega (arith, w.least)) in
        rw (loop-on rounds fuel n s lt, step-space fuel s c) (after_space n j s _ t lt c w rest)
    | inr word ↦
        let w = walk-Walked fuel s.buf (λ b. not (b == 32)) s.ibuf n t h (omega arith) in
        let j = walk fuel s.buf (λ b. not (b == 32)) s.ibuf in
        let typed = IsTyped-later s.buf s.buf s.ibuf j n t w.least w.most (λ q lo. refl) in
        let rest =
          split_loop-Split rounds fuel n (past_word s j) typed w.most k
            (omega (arith, some_bytes n j s lt word w)) in
        rw (loop-on rounds fuel n s lt, step-word fuel n s t lt word)
          (after_word n j s _ t lt word w rest)
  ]
]

-- On a line without zeros, followed by a zero, and with fuel for its bytes, nsh_createcmd leaves
-- pointers to the words of the line, each ending in a zero, in the first entries of nsh_cmd, and
-- their number; the other entries stay.
pub nsh_createcmd-words :
    (fuel : ℕ) (l : Line)
    → IsTyped l.nsh_buf 0 l.nsh_bufindex
    → l.nsh_bufindex < fuel
    → (let typed = words (stored l.nsh_bufindex l.nsh_buf 0) in
        let l' = nsh_createcmd fuel l in
        Argv l'.nsh_buf l'.nsh_cmd 0 typed
        × (l'.nsh_cmdnarg ≡ length typed)
        × ((k : ℕ) → length typed ≤ k → l'.nsh_cmd k ≡ l.nsh_cmd k))
unfolding nsh_createcmd
nsh_createcmd-words fuel l t h =
    let s : Cursor = record { buf = l.nsh_buf; cmd = l.nsh_cmd; ibuf = 0; icmd = 0 } in
    let done = split_loop-Split fuel fuel l.nsh_bufindex s t (omega arith) h (omega arith) in
    let same : words (stored l.nsh_bufindex l.nsh_buf 0) ≡ words_left l.nsh_bufindex s =
      ap (λ k. words (stored k l.nsh_buf 0)) (omega arith) in
    rw same
      (done.argv, omega (arith, done.count), λ k h. done.kept_later k (omega (arith, done.count)))
