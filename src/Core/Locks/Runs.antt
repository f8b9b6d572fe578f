-- ===== src/Core/Locks/Runs.antt =====
-- Runs of several callers of Lock, from a mutex without entries.
use ramify.Prelude.{
  ℕ, zero, suc, String, ◌-◌, ◌≡◌, refl, sym, inl, inr, false, Option, none, some, List, [], ◌∷◌,
  ◌++◌, arith,
}
use ramify.Core.Locks.{
  KeyedMutex, take_entry, register, forget, Stage, waiting, holding, released, Caller, outside,
  inside, System, Step, registers, enters, leaves, forgets, Reaches, here, step,
}
use ramify.Core.Locks.Cells.{eq-cases, total, uses, holds}
use ramify.Core.Locks.Invariant.{IsConsistent, to_front, from_front}
use ramify.Core.Locks.Moves.{take_old, take_new}
use ramify.Core.Locks.Releases.{lock_step, unlock_step, drop_count, drop_entry}
use ramify.Prelude.Membership.{In}

taken :
    (rest : List Caller) (k : KeyedMutex) (key : String) (o : Option ℕ)
    → k.locks key ≡ o
    → IsConsistent (outside ∷ rest) k
    → IsConsistent (inside waiting key (take_entry key o k).0 ∷ rest) (take_entry key o k).1
unfolding take_entry
taken rest k key none h i = take_new rest k key h i
taken rest k key (some e) h i = take_old rest k key e h i

forgotten :
    (rest : List Caller) (k : KeyedMutex) (key : String) (e : ℕ)
    → IsConsistent (inside released key e ∷ rest) k
    → IsConsistent (outside ∷ rest) (forget key e k)
unfolding forget
forgotten rest k key e i = elim (eq-cases (k.refs e - 1) 0) [
  | inl (last, h) ↦ rw h (drop_entry rest k key e i last)
  | inr (left, h) ↦ rw h (drop_count rest k key e i left)
]

step-IsConsistent :
    {s t : System} → Step s t → IsConsistent s.callers s.mutex → IsConsistent t.callers t.mutex
unfolding register
step-IsConsistent (registers xs ys key k) i =
    from_front xs _ ys _ (taken (xs ++ ys) k key (k.locks key) refl (to_front xs outside ys k i))
step-IsConsistent (enters xs ys key e k free) i =
    from_front xs _ ys _
      (lock_step (xs ++ ys) k key e free (to_front xs (inside waiting key e) ys k i))
step-IsConsistent (leaves xs ys key e k) i =
    from_front xs _ ys _
      (unlock_step (xs ++ ys) k key e (to_front xs (inside holding key e) ys k i))
step-IsConsistent (forgets xs ys key e k) i =
    from_front xs _ ys _ (forgotten (xs ++ ys) k key e (to_front xs (inside released key e) ys k i))

pub Reaches-IsConsistent :
    {s t : System} → Reaches s t → IsConsistent s.callers s.mutex → IsConsistent t.callers t.mutex
Reaches-IsConsistent here i = i
Reaches-IsConsistent (step m r) i = Reaches-IsConsistent r (step-IsConsistent m i)

-- newKeyedMutex
abbrev pub new_keyed_mutex : KeyedMutex
new_keyed_mutex = record { locks = λ key. none; refs = λ e. 0; is_locked = λ e. false; next = 0 }

abbrev pub all_outside : ℕ → List Caller
all_outside zero = []
all_outside (suc n) = outside ∷ all_outside n

abbrev pub initial : ℕ → System
initial n = record { callers = all_outside n; mutex = new_keyed_mutex }

total-all_outside : (f : Caller → ℕ) (n : ℕ) → f outside ≡ 0 → total f (all_outside n) ≡ 0
total-all_outside f zero h = refl
total-all_outside f (suc n) h = omega (arith, h, total-all_outside f n h)

nobody_inside :
    (stage : Stage) (key : String) (e n : ℕ) → In (inside stage key e) (all_outside n) → ⊥
nobody_inside stage key e zero m = elim m [ ]
nobody_inside stage key e (suc n) (inl h) = ground arith
nobody_inside stage key e (suc n) (inr m) = nobody_inside stage key e n m

pub initial-IsConsistent : (n : ℕ) → IsConsistent (all_outside n) new_keyed_mutex
unfolding uses holds
initial-IsConsistent n = record {
  linked = λ stage key e m. absurd (nobody_inside stage key e n m);
  counted = λ a. sym (total-all_outside (uses a) n refl);
  locked = λ a. total-all_outside (holds a) n refl;
  bounded = λ key e l. absurd (ground arith);
  distinct = λ key other e l l'. absurd (ground arith);
  live = λ key e l. absurd (ground arith);
  unused = λ a h. refl;
}
