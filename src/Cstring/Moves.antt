-- ===== src/Cstring/Moves.antt =====
-- memmove and strcpy of lib/string, against the memory before the call.
use nulix.Common.{
  ℕ, zero, suc, ◌+◌, ◌-◌, ◌≤◌, ◌<◌, ◌≡◌, refl, ◌∙◌, ltb, ◌⊎◌, inl, inr, arith, ℕ_discrete,
  Bool-cases,
}
use nulix.Cstring.Memory.{Mem, put, memmove}

pub record Moved (m : Mem) (dst src n : ℕ) (out : Mem) : Type 0 where
  pub inside : (k : ℕ) → k < n → out (dst + k) ≡ m (src + k)
  pub outside : (q : ℕ) → (q < dst) ⊎ (dst + n ≤ q) → out q ≡ m q

move_back :
    (m : Mem) (dst src n : ℕ)
    → src < dst
    → Moved
        (put m (dst + n) (m (src + n)))
        dst
        src
        n
        (memmove (put m (dst + n) (m (src + n))) dst src n)
    → Moved m dst src (suc n) (memmove (put m (dst + n) (m (src + n))) dst src n)
move_back m dst src n lt r = record {
  inside = λ k h. elim (ℕ_discrete k n) [
    | yes last ↦ rw last (r.outside (dst + n) (inr (omega arith)) ∙ ground arith)
    | no other ↦ r.inside k (omega arith) ∙ ground arith
  ];
  outside = λ q o. r.outside q (ground arith) ∙ ground arith;
}

move_ahead :
    (m : Mem) (dst src n : ℕ)
    → dst ≤ src
    → Moved
        (put m dst (m src))
        (dst + 1)
        (src + 1)
        n
        (memmove (put m dst (m src)) (dst + 1) (src + 1) n)
    → Moved m dst src (suc n) (memmove (put m dst (m src)) (dst + 1) (src + 1) n)
move_ahead m dst src n le r = record {
  inside = λ k h. elim (ℕ_discrete k 0) [
    | yes first ↦
        let to : dst + k ≡ dst = omega arith in
        let from : src + k ≡ src = omega arith in
        rw (to, from) (r.outside dst (inl (omega arith)) ∙ ground arith)
    | no later ↦
        let to : dst + k ≡ dst + 1 + (k - 1) = omega arith in
        let from : src + k ≡ src + 1 + (k - 1) = omega arith in
        rw (to, from) (r.inside (k - 1) (omega arith) ∙ ground arith)
  ];
  outside = λ q o. r.outside q (ground arith) ∙ ground arith;
}

-- However the two ranges overlap, memmove puts the bytes that were in the source into the
-- destination, and changes nothing else.
pub memmove-Moved : (m : Mem) (dst src n : ℕ) → Moved m dst src n (memmove m dst src n)
unfolding memmove
memmove-Moved m dst src zero = record {
  inside = λ k h. absurd (omega arith);
  outside = λ q o. refl;
}
memmove-Moved m dst src (suc n) = elim (Bool-cases (ltb src dst)) [
  | inl back ↦ rw back (
      move_back m dst src n (ground arith)
        (memmove-Moved (put m (dst + n) (m (src + n))) dst src n))
  | inr ahead ↦ rw ahead (
      move_ahead m dst src n (ground arith)
        (memmove-Moved (put m dst (m src)) (dst + 1) (src + 1) n))
]
