-- ===== src/Spinlock/Tests.antt =====
-- A run of two threads on the lock of kernel/spinlock.c.
use nulix.Common.{◌≡◌, ◌⊎◌, refl}
use nulix.Spinlock.{
  Threads, outside, polling, holding, at, kspin_init, poll, trylock, drop, acquire_or_one,
  kspin_drop, Run, start, call, polls, tries, drops, Exclusive, Run-Exclusive,
}
use nulix.Spinlock.Progress.{Blocked, kspin_lock-progress}

abbrev nobody : Threads
nobody = record { spin = kspin_init 7; place = λ i. outside }

-- Thread 0 takes the lock, and thread 1 polls in vain.
abbrev waiting : Threads
waiting = poll 1 (record (trylock 0 nobody) { place = at 1 polling (trylock 0 nobody).place })

waiting_lock : waiting.spin.lock ≡ 1
unfolding poll trylock acquire_or_one kspin_init
waiting_lock = refl

waiting_place : waiting.place 1 ≡ polling
unfolding poll trylock acquire_or_one kspin_init
waiting_place = refl

-- Then thread 0 lets it go, and thread 1 takes it.
abbrev passed_on : Threads
passed_on = poll 1 (drop 0 waiting)

passed_on_place : passed_on.place 1 ≡ holding
unfolding poll trylock drop acquire_or_one kspin_init kspin_drop
passed_on_place = refl

waiting-Run : Run waiting
unfolding poll trylock acquire_or_one kspin_init
waiting-Run = polls 1 _ (call 1 (trylock 0 nobody) (tries 0 nobody (start 7) refl) refl) refl

passed_on-Run : Run passed_on
unfolding poll trylock drop acquire_or_one kspin_init kspin_drop
passed_on-Run = polls 1 (drop 0 waiting) (drops 0 waiting waiting-Run refl) refl

Run-Exclusive_example : Exclusive passed_on
Run-Exclusive_example = Run-Exclusive passed_on passed_on-Run

kspin_lock-progress_example :
    ((waiting.spin.lock ≡ 0) × ((poll 1 waiting).place 1 ≡ holding)) ⊎ Blocked 1 waiting
kspin_lock-progress_example = kspin_lock-progress waiting 1 waiting-Run waiting_place
