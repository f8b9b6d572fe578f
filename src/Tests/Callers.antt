-- ===== src/Tests/Callers.antt =====
-- The theorems on the mutexes per key in runs of one and of two callers.
use ramify.Prelude.{◌≡◌, refl, false, true, none, sym, [], ◌∷◌, inl, inr}
use ramify.Prelude.Membership.{In}
use ramify.Core.Locks.{
  KeyedMutex, register, forget, lock_entry, waiting, holding, Caller, outside, inside, System, Step,
  registers, enters, leaves, forgets, Reaches, here, step,
}
use ramify.Core.Locks.Runs.{new_keyed_mutex, initial}
use ramify.Core.Locks.Safety.{holds_key, mutual_exclusion, idle_keys_forgotten, deadlock_free}

abbrev taken : KeyedMutex
taken = (register "acme/main" new_keyed_mutex).1

abbrev locked : KeyedMutex
locked = lock_entry 0 true taken

-- One caller holds the mutex, and another waits for it.
abbrev contended : System
contended = record {
  callers = inside holding "acme/main" 0 ∷ inside waiting "acme/main" 0 ∷ [];
  mutex = (register "acme/main" locked).1;
}

contended_run : Reaches (initial 2) contended
unfolding register lock_entry
contended_run = step (registers [] (outside ∷ []) "acme/main" new_keyed_mutex) (
    step (enters [] (outside ∷ []) "acme/main" 0 taken refl)
      (step (registers (inside holding "acme/main" 0 ∷ []) [] "acme/main" locked) here))

mutual_exclusion_example : holds_key "acme/main" (inside waiting "acme/main" 0) ≡ false
mutual_exclusion_example =
    mutual_exclusion 2 contended_run [] (inside waiting "acme/main" 0 ∷ []) "acme/main" 0 refl
      (inside waiting "acme/main" 0) (inl refl)

deadlock_free_example : (t : System) × Step contended t
deadlock_free_example = deadlock_free 2 contended_run holding "acme/main" 0 (inl refl)

abbrev finished_system : System
finished_system = record {
  callers = outside ∷ [];
  mutex = forget "acme/main" 0 (lock_entry 0 false locked);
}

finished_run : Reaches (initial 1) finished_system
unfolding register
finished_run = step (registers [] [] "acme/main" new_keyed_mutex) (
    step (enters [] [] "acme/main" 0 taken refl) (
      step (leaves [] [] "acme/main" 0 locked)
        (step (forgets [] [] "acme/main" 0 (lock_entry 0 false locked)) here)))

all_done : (c : Caller) → In c (outside ∷ []) → c ≡ outside
all_done c (inl e) = sym e
all_done c (inr m) = elim m [ ]

idle_keys_forgotten_example : finished_system.mutex.locks "acme/main" ≡ none
idle_keys_forgotten_example = idle_keys_forgotten 1 finished_run all_done "acme/main"
