-- ===== src/Spinlock/Progress.antt =====
-- The wait in kspin_lock of kernel/spinlock.c ends.
use nulix.Common.{ℕ, ◌≡◌, refl, ◌⊎◌, inl, inr, ◌≢◌, arith}
use nulix.Spinlock.{
  Threads, polling, holding, acquire_or_one, kspin_drop, poll, drop, Run, drops, polls,
  Run-Exclusive,
}

-- Thread `i` polls in vain while `owner` holds the lock, and takes it once that one drops it.
pub record Blocked (i : ℕ) (s : Threads) : Type 0 where
  pub owner : ℕ
  pub other : owner ≢ i
  pub holds : s.place owner ≡ holding
  pub in_vain : ((poll i s).place i ≡ polling) × ((poll i s).spin ≡ s.spin)
  pub passed_on : (poll i (drop owner s)).place i ≡ holding
  pub reached : Run (poll i (drop owner s))

poll-free : (i : ℕ) (s : Threads) → s.spin.lock ≡ 0 → (poll i s).place i ≡ holding
unfolding poll acquire_or_one
poll-free i s e = ground arith

poll-busy :
    (i : ℕ) (s : Threads)
    → s.spin.lock ≡ 1
    → ((poll i s).place i ≡ polling) × ((poll i s).spin ≡ s.spin)
unfolding poll acquire_or_one
poll-busy i s e = (ground arith, ground arith)

poll-drop : (i k : ℕ) (s : Threads) → (poll i (drop k s)).place i ≡ holding
unfolding drop kspin_drop
poll-drop i k s = poll-free i (drop k s) refl

place_apart : (s : Threads) (i k : ℕ) → s.place i ≡ polling → s.place k ≡ holding → k ≢ i
place_apart s i k p h e = ground arith

still_polling : (s : Threads) (i k : ℕ) → k ≢ i → s.place i ≡ polling → (drop k s).place i ≡ polling
unfolding drop
still_polling s i k n p = ground arith

-- After any run, a thread in the loop of kspin_lock takes a free lock with its next poll; if the
-- lock is taken, another thread holds it, a poll changes nothing, and once that thread has
-- dropped the lock, which it can, the next poll takes it.
pub kspin_lock-progress :
    (s : Threads) (i : ℕ)
    → Run s
    → s.place i ≡ polling
    → ((s.spin.lock ≡ 0) × ((poll i s).place i ≡ holding)) ⊎ Blocked i s
kspin_lock-progress s i r p = elim (Run-Exclusive s r).owned [
  | inl free ↦ inl (free, poll-free i s free)
  | inr (one, owner) ↦
      let n = place_apart s i owner.0 p owner.1 in
      inr (record {
        owner = owner.0;
        other = n;
        holds = owner.1;
        in_vain = poll-busy i s one;
        passed_on = poll-drop i owner.0 s;
        reached = polls i _ (drops owner.0 s r owner.1) (still_polling s i owner.0 n p);
      })
]
