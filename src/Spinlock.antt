-- ===== src/Spinlock.antt =====
-- kernel/spinlock.c: a lock taken by an atomic compare and swap, and the threads that share it.
mod Progress
mod Tests
use nulix.Common.{
  ℕ, ◌≡◌, ◌≢◌, refl, ap, ◌==◌, ◌⊎◌, inl, inr, arith, Bool, true, false, if◌then◌else◌, ℕ_discrete,
}

-- The data is a pointer, which the lock only hands out.
pub record Kspin : Type 0 where
  pub lock : ℕ
  pub locked_data : ℕ

pub record Swap : Type 0 where
  pub old : ℕ
  pub spin : Kspin

-- One atomic step: the old value, and 1 in its place if it was 0.
unfoldable pub acquire_or_one : Kspin → Swap
acquire_or_one ks = record {
  old = ks.lock;
  spin = if ks.lock == 0 then record ks { lock = 1 } else ks;
}

unfoldable pub kspin_init : ℕ → Kspin
kspin_init locked_data = record { lock = 0; locked_data = locked_data }

unfoldable pub kspin_drop : Kspin → Kspin
kspin_drop ks = record ks { lock = 0 }

-- Where a thread is: outside, in the loop of kspin_lock, or past it.
pub data Place : Type 0 where
  outside : Place
  polling : Place
  holding : Place

pub record Threads : Type 0 where
  pub spin : Kspin
  pub place : ℕ → Place

abbrev pub at : ℕ → Place → (ℕ → Place) → ℕ → Place
at i p f j = if j == i then p else f j

-- One poll of kspin_lock: it goes on as long as the old value is 1.
unfoldable pub poll : ℕ → Threads → Threads
poll i s =
    let r = acquire_or_one s.spin in
    record { spin = r.spin; place = at i (if r.old == 1 then polling else holding) s.place }

-- kspin_trylock, which returns 0 if the old value is 0.
unfoldable pub trylock : ℕ → Threads → Threads
trylock i s =
    let r = acquire_or_one s.spin in
    record { spin = r.spin; place = at i (if r.old == 0 then holding else outside) s.place }

unfoldable pub drop : ℕ → Threads → Threads
drop i s = record { spin = kspin_drop s.spin; place = at i outside s.place }

-- The atomic steps of the threads, in any order.
pub data Run : Threads → Type 0 where
  start : (d : ℕ) → Run (record { spin = kspin_init d; place = λ i. outside })
  call :
      (i : ℕ) (s : Threads)
      → Run s
      → s.place i ≡ outside
      → Run (record s { place = at i polling s.place })
  polls : (i : ℕ) (s : Threads) → Run s → s.place i ≡ polling → Run (poll i s)
  tries : (i : ℕ) (s : Threads) → Run s → s.place i ≡ outside → Run (trylock i s)
  drops : (i : ℕ) (s : Threads) → Run s → s.place i ≡ holding → Run (drop i s)

pub record Exclusive (s : Threads) : Type 0 where
  pub held : (i : ℕ) → s.place i ≡ holding → s.spin.lock ≡ 1
  pub alone : (i j : ℕ) → s.place i ≡ holding → s.place j ≡ holding → i ≡ j
  pub owned : (s.spin.lock ≡ 0) ⊎ ((s.spin.lock ≡ 1) × ((i : ℕ) × (s.place i ≡ holding)))

is_holding : Place → Bool
is_holding holding = true
is_holding _ = false

distinct : (p : Place) → p ≡ holding → is_holding p ≡ true
unfolding is_holding
distinct p e = rw e refl

-- A thread that holds the lock after another one has moved held it before.
held_before :
    (i j : ℕ) (p : Place) (f : ℕ → Place)
    → is_holding p ≡ false
    → at i p f j ≡ holding
    → f j ≡ holding
held_before i j p f n h = ground (arith, distinct p)

-- It is another thread.
held_elsewhere :
    (i j : ℕ) (p : Place) (f : ℕ → Place) → is_holding p ≡ false → at i p f j ≡ holding → j ≢ i
held_elsewhere i j p f n h e = ground (arith, distinct p)

-- Thread `i` moves to a place past which it does not hold the lock, and did not before.
keep-Exclusive :
    (i : ℕ) (p : Place) (s : Threads)
    → Exclusive s
    → is_holding p ≡ false
    → is_holding (s.place i) ≡ false
    → Exclusive (record s { place = at i p s.place })
keep-Exclusive i p s e n m = record {
  held = λ j h. e.held j (held_before i j p s.place n h);
  alone = λ j k h g. e.alone j k (held_before i j p s.place n h) (held_before i k p s.place n g);
  owned = elim e.owned [
    | inl free ↦ inl free
    | inr (one, owner) ↦ inr (one, (owner.0, ground (arith, distinct (s.place i), owner.1)))
  ];
}

-- Thread `i` takes a free lock.
take-Exclusive :
    (i : ℕ) (s : Threads)
    → Exclusive s
    → s.spin.lock ≡ 0
    → Exclusive (record { spin = record s.spin { lock = 1 }; place = at i holding s.place })
take-Exclusive i s e free = record {
  held = λ j h. refl;
  alone = λ j k h g. ground (arith, e.held j, e.held k);
  owned = inr (refl, (i, ground arith));
}

drop-Exclusive : (i : ℕ) (s : Threads) → Exclusive s → s.place i ≡ holding → Exclusive (drop i s)
unfolding drop kspin_drop is_holding
drop-Exclusive i s e h = record {
  held = λ j g. absurd (
      held_elsewhere i j outside s.place refl g
        (e.alone j i (held_before i j outside s.place refl g) h));
  alone = λ j k g l. absurd (
      held_elsewhere i j outside s.place refl g
        (e.alone j i (held_before i j outside s.place refl g) h));
  owned = inl refl;
}

poll-Exclusive : (i : ℕ) (s : Threads) → Exclusive s → s.place i ≡ polling → Exclusive (poll i s)
unfolding poll acquire_or_one is_holding
poll-Exclusive i s e p = elim e.owned [
  | inl free ↦
      let empty : (s.spin.lock == 0) ≡ true = ground arith in
      let idle : (s.spin.lock == 1) ≡ false = ground arith in
      rw (empty, idle) (take-Exclusive i s e free)
  | inr (one, owner) ↦
      let full : (s.spin.lock == 0) ≡ false = ground arith in
      let busy : (s.spin.lock == 1) ≡ true = ground arith in
      rw (full, busy) (keep-Exclusive i polling s e refl (ap is_holding p))
]

trylock-Exclusive :
    (i : ℕ) (s : Threads) → Exclusive s → s.place i ≡ outside → Exclusive (trylock i s)
unfolding trylock acquire_or_one is_holding
trylock-Exclusive i s e p = elim e.owned [
  | inl free ↦
      let empty : (s.spin.lock == 0) ≡ true = ground arith in rw empty (take-Exclusive i s e free)
  | inr (one, owner) ↦
      let full : (s.spin.lock == 0) ≡ false = ground arith in
      rw full (keep-Exclusive i outside s e refl (ap is_holding p))
]

-- Whatever the order of the threads' steps, at most one thread holds the lock, its word is 1
-- while one does, and is 0 otherwise.
pub Run-Exclusive : (s : Threads) → Run s → Exclusive s
unfolding kspin_init is_holding
Run-Exclusive _ (start d) = record {
  held = λ i h. absurd (ground (arith, distinct outside h));
  alone = λ i j h g. absurd (ground (arith, distinct outside h));
  owned = inl refl;
}
Run-Exclusive _ (call i s r p) =
    keep-Exclusive i polling s (Run-Exclusive s r) refl (ap is_holding p)
Run-Exclusive _ (polls i s r p) = poll-Exclusive i s (Run-Exclusive s r) p
Run-Exclusive _ (tries i s r p) = trylock-Exclusive i s (Run-Exclusive s r) p
Run-Exclusive _ (drops i s r p) = drop-Exclusive i s (Run-Exclusive s r) p
