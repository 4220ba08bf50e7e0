-- ===== src/Cstring/Compares.antt =====
-- strlen and strcmp of lib/string, on strings that end in NUL.
use nulix.Common.{
  ℕ, zero, suc, ◌+◌, ◌-◌, ◌≤◌, ◌<◌, ◌≡◌, ◌≢◌, ◌↔◌, sym, ◌∙◌, ap, ◌==◌, true, inl, inr, arith,
  ℕ_discrete, Bool-cases, not, ◌&&◌, dec_lt,
}
use nulix.Cstring.Memory.{Mem, difference}
use nulix.Cstring.Text.{walk, agree, strlen, strcmp, sign_extend}

-- A string of `n` bytes before its NUL.
pub record IsString (m : Mem) (s n : ℕ) : Type 0 where
  pub body : (k : ℕ) → k < n → m (s + k) ≢ 0
  pub end : m (s + n) ≡ 0

rest-IsString : (m : Mem) (s n : ℕ) → IsString m s (suc n) → IsString m (s + 1) n
rest-IsString m s n i = record {
  body = λ k h e. i.body (suc k) (omega arith) (ap m (omega arith) ∙ e);
  end = ap m (omega arith) ∙ i.end;
}

walk-end :
    (fuel : ℕ) (m : Mem) (s n : ℕ) → IsString m s n → n < fuel → walk fuel m (λ b. true) s ≡ s + n
unfolding walk
walk-end zero m s n i h = absurd (omega arith)
walk-end (suc fuel) m s zero i h = let here : m s ≡ 0 = ap m (omega arith) ∙ i.end in ground arith
walk-end (suc fuel) m s (suc n) i h =
    let here : m s ≢ 0 = λ e. i.body 0 (omega arith) (ap m (omega arith) ∙ e) in
    let rest = walk-end fuel m (s + 1) n (rest-IsString m s n i) (omega arith) in ground arith

-- With fuel for the string, strlen counts the bytes before the NUL.
pub strlen-IsString :
    (fuel : ℕ) (m : Mem) (s n : ℕ) → IsString m s n → n < fuel → strlen fuel m s ≡ n
unfolding strlen
strlen-IsString fuel m s n i h = omega (arith, walk-end fuel m s n i h)

pub record Agreement (m : Mem) (s1 s2 k : ℕ) : Type 0 where
  pub same : (j : ℕ) → j < k → m (s1 + j) ≡ m (s2 + j)
  pub live : (j : ℕ) → j < k → m (s1 + j) ≢ 0
  pub stop : m (s1 + k) ≡ m (s2 + k) → m (s1 + k) ≡ 0

agree-more :
    (m : Mem) (s1 s2 k : ℕ)
    → m s1 ≢ 0
    → m s1 ≡ m s2
    → Agreement m (s1 + 1) (s2 + 1) k
    → Agreement m s1 s2 (k + 1)
agree-more m s1 s2 k h e a = record {
  same = λ j lt. elim (ℕ_discrete j 0) [
    | yes first ↦
        let one : s1 + j ≡ s1 = omega arith in
        let two : s2 + j ≡ s2 = omega arith in rw (one, two) e
    | no later ↦
        let one : s1 + j ≡ s1 + 1 + (j - 1) = omega arith in
        let two : s2 + j ≡ s2 + 1 + (j - 1) = omega arith in
        rw (one, two) (a.same (j - 1) (omega arith))
  ];
  live = λ j lt. elim (ℕ_discrete j 0) [
    | yes first ↦ let one : s1 + j ≡ s1 = omega arith in rw one h
    | no later ↦
        let one : s1 + j ≡ s1 + 1 + (j - 1) = omega arith in rw one (a.live (j - 1) (omega arith))
  ];
  stop = λ x.
      let one : s1 + (k + 1) ≡ s1 + 1 + k = omega arith in
      let two : s2 + (k + 1) ≡ s2 + 1 + k = omega arith in
      ap m one ∙ a.stop (sym (ap m one) ∙ x ∙ ap m two);
}

-- The strings agree no further.
agree-none : (m : Mem) (s1 s2 : ℕ) → (m s1 ≡ m s2 → m s1 ≡ 0) → Agreement m s1 s2 0
agree-none m s1 s2 h = record {
  same = λ j lt. absurd (omega arith);
  live = λ j lt. absurd (omega arith);
  stop = λ x.
      let one : s1 + 0 ≡ s1 = omega arith in
      let two : s2 + 0 ≡ s2 = omega arith in ap m one ∙ h (sym (ap m one) ∙ x ∙ ap m two);
}

agree-Agreement :
    (fuel : ℕ) (m : Mem) (s1 s2 n : ℕ)
    → IsString m s1 n
    → n < fuel
    → Agreement m s1 s2 (agree fuel m s1 s2)
unfolding agree
agree-Agreement zero m s1 s2 n i h = absurd (omega arith)
agree-Agreement (suc fuel) m s1 s2 zero i h =
    let here : m s1 ≡ 0 = ap m (omega arith) ∙ i.end in
    let none : (m s1 == 0) ≡ true = ground arith in rw none (agree-none m s1 s2 (λ e. here))
agree-Agreement (suc fuel) m s1 s2 (suc n) i h =
    let rest = agree-Agreement fuel m (s1 + 1) (s2 + 1) n (rest-IsString m s1 n i) (omega arith) in
    let more = not (m s1 == 0) && not (m s2 == 0) && m s1 == m s2 in
    elim (Bool-cases more) [
      | inl on ↦
          rw on
            (agree-more m s1 s2 (agree fuel m (s1 + 1) (s2 + 1)) (ground arith) (ground arith) rest)
      | inr off ↦ rw off (agree-none m s1 s2 (λ e. ground arith))
    ]

module _ (m : Mem) (s1 s2 n : ℕ) (i : IsString m s1 n) where
  agree-short : (k : ℕ) → Agreement m s1 s2 k → k ≤ n
  agree-short k a = elim (dec_lt n k) [
    | yes past ↦ absurd (a.live n past i.end)
    | no within ↦ omega arith
  ]

  agree-whole : (k : ℕ) → Agreement m s1 s2 k → m (s1 + k) ≡ m (s2 + k) → n ≤ k
  agree-whole k a e = elim (dec_lt k n) [
    | yes inside ↦ absurd (i.body k inside (a.stop e))
    | no whole ↦ omega arith
  ]

  same_bytes :
      (k : ℕ)
      → Agreement m s1 s2 k
      → m (s1 + k) ≡ m (s2 + k)
      → (j : ℕ) → j ≤ n
      → m (s1 + j) ≡ m (s2 + j)
  same_bytes k a e j le =
      let whole = agree-whole k a e in
      elim (dec_lt j k) [
        | yes before ↦ a.same j before
        | no at_end ↦ let here : j ≡ k = omega arith in rw here e
      ]

-- Chars are equal if their difference as ints is 0.
char_difference :
    (a b : ℕ) → a < 256 → b < 256 → (difference (sign_extend a) (sign_extend b) ≡ 0) ↔ (a ≡ b)
char_difference a b h k = ground arith

-- On a string that ends in NUL, and with fuel for it, strcmp returns 0 exactly if the two strings
-- have the same bytes, the NUL included.
pub strcmp-zero_iff :
    (fuel : ℕ) (m : Mem) (s1 s2 n : ℕ)
    → ((q : ℕ) → m q < 256)
    → IsString m s1 n
    → n < fuel
    → (strcmp fuel m s1 s2 ≡ 0) ↔ ((j : ℕ) → j ≤ n → m (s1 + j) ≡ m (s2 + j))
unfolding strcmp
strcmp-zero_iff fuel m s1 s2 n byte i h =
    let k = agree fuel m s1 s2 in
    let a = agree-Agreement fuel m s1 s2 n i h in
    let chars = char_difference (m (s1 + k)) (m (s2 + k)) (byte (s1 + k)) (byte (s2 + k)) in
    (λ e. same_bytes m s1 s2 n i k a (chars.0 e), λ f. chars.1 (f k (agree-short m s1 s2 n i k a)))
