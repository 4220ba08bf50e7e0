-- ===== src/Cstring/Stored.antt =====
-- A part of the memory of lib/string as the list of its bytes.
use nulix.Common.{
  ℕ, zero, suc, ◌+◌, ◌≤◌, ◌<◌, ◌≡◌, refl, ap, ◌∙◌, List, [], ◌∷◌, ◌++◌, length, arith,
}
use nulix.Cstring.Memory.{Mem}

-- The `n` bytes from `i`.
unfoldable pub stored : ℕ → Mem → ℕ → List ℕ
stored zero m i = []
stored (suc n) m i = m i ∷ stored n m (i + 1)

pub stored-congr :
    (n : ℕ) (m m' : Mem) (i : ℕ)
    → ((q : ℕ) → i ≤ q → q < i + n → m' q ≡ m q)
    → stored n m' i ≡ stored n m i
unfolding stored
stored-congr zero m m' i h = refl
stored-congr (suc n) m m' i h =
    let rest = stored-congr n m m' (i + 1) (λ q lo hi. h q (omega arith) (omega arith)) in
    ground (arith, rest, h i (omega arith) (omega arith))

pub length-stored : (n : ℕ) (m : Mem) (i : ℕ) → length (stored n m i) ≡ n
unfolding stored
length-stored zero m i = refl
length-stored (suc n) m i = ap suc (length-stored n m (i + 1))

pub stored-snoc : (n : ℕ) (m : Mem) (i : ℕ) → stored (suc n) m i ≡ stored n m i ++ (m (i + n) ∷ [])
unfolding stored
stored-snoc zero m i = ap (λ q. m q ∷ []) (omega arith)
stored-snoc (suc n) m i =
    let here : i + 1 + n ≡ i + suc n = omega arith in
    ap (λ (xs : List ℕ). m i ∷ xs)
      (stored-snoc n m (i + 1) ∙ ap (λ q. stored n m (i + 1) ++ (m q ∷ [])) here)

pub stored-append :
    (a b : ℕ) (m : Mem) (i : ℕ) → stored (a + b) m i ≡ stored a m i ++ stored b m (i + a)
unfolding stored
stored-append zero b m i =
    let none_first : 0 + b ≡ b = omega arith in
    let here : i ≡ i + 0 = omega arith in
    ap (λ n. stored n m i) none_first ∙ ap (λ q. stored b m q) here
stored-append (suc a) b m i =
    let more : suc a + b ≡ suc (a + b) = omega arith in
    let there : i + 1 + a ≡ i + suc a = omega arith in
    ap (λ n. stored n m i) more
    ∙ ap (λ (xs : List ℕ). m i ∷ xs)
        (stored-append a b m (i + 1) ∙ ap (λ q. stored a m (i + 1) ++ stored b m q) there)
