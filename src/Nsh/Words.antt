-- ===== src/Nsh/Words.antt =====
-- The words of a line, and what nsh_createcmd of kernel/nsh/nsh.c makes of them.
use nulix.Common.{
  ℕ, zero, suc, ◌+◌, ◌≤◌, ◌<◌, ◌≡◌, ◌≢◌, refl, ap, ◌∙◌, sym, ◌==◌, Bool, true, false, ◌&&◌, not,
  if◌then◌else◌, Option, some, List, [], ◌∷◌, arith, Bool-cases, inl, inr, dec_lt, ℕ_discrete,
}
use nulix.Cstring.Memory.{Mem}
use nulix.Cstring.Text.{walk}
use nulix.Nsh.Builtin.{is_text}
use nulix.Cstring.Stored.{stored}

-- The bytes up to the first space, and the words after it.
pub record Cut : Type 0 where
  pub first : List ℕ
  pub later : List (List ℕ)

abbrev pub push : List ℕ → List (List ℕ) → List (List ℕ)
push [] ws = ws
push (c ∷ cs) ws = (c ∷ cs) ∷ ws

unfoldable pub cut : List ℕ → Cut
cut [] = record { first = []; later = [] }
cut (c ∷ cs) =
    let r = cut cs in
    if c == 32
    then record { first = []; later = push r.first r.later }
    else record { first = c ∷ r.first; later = r.later }

-- A text cut at its spaces, the empty pieces left out.
unfoldable pub words : List ℕ → List (List ℕ)
words cs = push (cut cs).first (cut cs).later

-- The pointers from the index `k` on are those of some words.
abbrev pub Argv : Mem → (ℕ → Option ℕ) → ℕ → List (List ℕ) → Type 0
Argv m cmd k [] = Unit
Argv m cmd k (w ∷ ws) =
    ((p : ℕ) × (cmd k ≡ some p) × (is_text m p w ≡ true)) × Argv m cmd (k + 1) ws

-- The rest of a line of `n` bytes.
pub record IsTyped (m : Mem) (from n : ℕ) : Type 0 where
  pub body : (q : ℕ) → from ≤ q → q < n → m q ≢ 0
  pub end : m n ≡ 0

pub IsTyped-later :
    (m m' : Mem) (from to n : ℕ)
    → IsTyped m from n
    → from ≤ to
    → to ≤ n
    → ((q : ℕ) → to ≤ q → m' q ≡ m q)
    → IsTyped m' to n
IsTyped-later m m' from to n t h k same = record {
  body = λ q lo hi e. t.body q (omega arith) hi (sym (same q lo) ∙ e);
  end = same n k ∙ t.end;
}

pub record Walked (m : Mem) (test : ℕ → Bool) (s n j : ℕ) : Type 0 where
  pub least : s ≤ j
  pub most : j ≤ n
  pub passed : (q : ℕ) → s ≤ q → q < j → test (m q) ≡ true
  pub stopped : j < n → test (m j) ≡ false

pub walk-Walked :
    (fuel : ℕ) (m : Mem) (test : ℕ → Bool) (s n : ℕ)
    → IsTyped m s n
    → s ≤ n
    → n < s + fuel
    → Walked m test s n (walk fuel m test s)
unfolding walk
walk-Walked zero m test s n t h k = absurd (omega arith)
walk-Walked (suc fuel) m test s n t h k = elim (Bool-cases (not (m s == 0) && test (m s))) [
  | inl on ↦
      let live : m s ≢ 0 = λ e. absurd (ground (arith, e, on)) in
      let before : s < n = elim (dec_lt s n) [
        | yes lt ↦ lt
        | no ge ↦ let here : s ≡ n = omega arith in absurd (live (ap m here ∙ t.end))
      ] in
      let rest =
        walk-Walked fuel m test (s + 1) n
          (IsTyped-later m m s (s + 1) n t (omega arith) (omega arith) (λ q lo. refl)) (omega arith)
          (omega arith) in
      record {
        least = ground (arith, on, rest.least);
        most = ground (arith, on, rest.most);
        passed = λ q lo hi. elim (ℕ_discrete q s) [
          | yes here ↦ rw here (ground (arith, on))
          | no later ↦ rest.passed q (omega arith) (ground (arith, on, hi))
        ];
        stopped = ground (arith, on, rest.stopped);
      }
  | inr off ↦ record {
    least = ground (arith, off);
    most = ground (arith, off);
    passed = λ q lo hi. absurd (ground (arith, off, hi, lo));
    stopped = λ lt. ground (arith, off, t.body s (omega arith) (ground (arith, off, lt)));
  }
]

cut-char :
    (c : ℕ) (cs : List ℕ)
    → (c == 32) ≡ false
    → cut (c ∷ cs) ≡ record { first = c ∷ (cut cs).first; later = (cut cs).later }
unfolding cut
cut-char c cs h = ground (arith, h)

-- A word and what comes after it.
cut-word :
    (a k : ℕ) (m : Mem) (i : ℕ)
    → ((q : ℕ) → i ≤ q → q < i + a → (m q == 32) ≡ false)
    → (1 ≤ k → m (i + a) ≡ 32)
    → cut (stored (a + k) m i) ≡ record { first = stored a m i; later = words (stored k m (i + a)) }
unfolding cut stored words
cut-word zero zero m i word end = refl
cut-word zero (suc k) m i word end =
    let here : i + 0 ≡ i = omega arith in
    rw here (ground (arith, ap m (sym here) ∙ end (omega arith)))
cut-word (suc a) k m i word end =
    let rest =
      cut-word a k m (i + 1) (λ q lo hi. word q (omega arith) (omega arith))
        (λ one. ap m (omega arith) ∙ end one) in
    let here : i + 1 + a ≡ i + suc a = omega arith in
    let at_word : cut (stored (a + k) m (i + 1))
        ≡ record { first = stored a m (i + 1); later = words (stored k m (i + suc a)) } =
      rest
      ∙ ap (λ (q : ℕ). record { first = stored a m (i + 1); later = words (stored k m q) }) here in
    let more : suc a + k ≡ suc (a + k) = omega arith in
    ap (λ n. cut (stored n m i)) more
    ∙ cut-char (m i) (stored (a + k) m (i + 1)) (word i (omega arith) (omega arith))
    ∙ ap (λ (r : Cut). record { first = m i ∷ r.first; later = r.later }) at_word

words-space : (c : ℕ) (cs : List ℕ) → c ≡ 32 → words (c ∷ cs) ≡ words cs
unfolding words cut
words-space c cs h = ground (arith, h)

-- The spaces of a range are dropped.
pub words-spaces :
    (a k : ℕ) (m : Mem) (i : ℕ)
    → ((q : ℕ) → i ≤ q → q < i + a → m q ≡ 32)
    → words (stored (a + k) m i) ≡ words (stored k m (i + a))
unfolding stored
words-spaces zero k m i h =
    let none_first : 0 + k ≡ k = omega arith in
    let here : i ≡ i + 0 = omega arith in
    ap (λ n. words (stored n m i)) none_first ∙ ap (λ q. words (stored k m q)) here
words-spaces (suc a) k m i h =
    let more : suc a + k ≡ suc (a + k) = omega arith in
    ap (λ n. words (stored n m i)) more
    ∙ words-space (m i) (stored (a + k) m (i + 1)) (h i (omega arith) (omega arith))
    ∙ words-spaces a k m (i + 1) (λ q lo hi. h q (omega arith) (omega arith))
    ∙ ap (λ q. words (stored k m q)) (omega arith)

-- A word of a byte or more.
pub words-word :
    (a k : ℕ) (m : Mem) (i : ℕ)
    → 1 ≤ a
    → ((q : ℕ) → i ≤ q → q < i + a → (m q == 32) ≡ false)
    → (1 ≤ k → m (i + a) ≡ 32)
    → words (stored (a + k) m i) ≡ stored a m i ∷ words (stored k m (i + a))
unfolding stored words
words-word zero k m i one word end = absurd (omega (arith, one))
words-word (suc a) k m i one word end =
    ap (λ (r : Cut). push r.first r.later) (cut-word (suc a) k m i word end)

pub is_text-stored :
    (a : ℕ) (m m' : Mem) (p : ℕ)
    → ((q : ℕ) → p ≤ q → q < p + a → m' q ≡ m q)
    → m' (p + a) ≡ 0
    → is_text m' p (stored a m p) ≡ true
unfolding is_text stored
is_text-stored zero m m' p h end =
    let here : p + 0 ≡ p = omega arith in ground (arith, ap m' here, end)
is_text-stored (suc a) m m' p h end =
    let there : p + suc a ≡ p + 1 + a = omega arith in
    let rest =
      is_text-stored a m m' (p + 1) (λ q lo hi. h q (omega arith) (omega arith))
        (ap m' (sym there) ∙ end) in
    ground (arith, rest, h p (omega arith) (omega arith))
