-- ===== src/Core/Locks/Safety.antt =====
-- Who holds the mutex of a key, and which keys it remembers.
use ramify.Prelude.{
  str_eq, eq_iff, ℕ, String, ◌≡◌, refl, ap, sym, ◌∙◌, inl, inr, Bool, true, false, none, List, [],
  ◌∷◌, ◌++◌, Option-cases, Bool-cases, subst, arith,
}
use ramify.Core.Locks.{
  Stage, waiting, holding, released, Caller, outside, inside, System, Step, enters, leaves, forgets,
  Reaches,
}
use ramify.Core.Locks.Cells.{eq-cases, total, total-In, uses, holds}
use ramify.Core.Locks.Invariant.{as_count, IsConsistent, some-injective, holds-same, to_front}
use ramify.Core.Locks.Releases.{at_most_one}
use ramify.Prelude.Membership.{In}
use ramify.Core.Locks.Runs.{Reaches-IsConsistent, initial-IsConsistent, initial}

unfoldable pub holds_key : String → Caller → Bool
holds_key key outside = false
holds_key key (inside waiting other e) = false
holds_key key (inside holding other e) = str_eq other key
holds_key key (inside released other e) = false

total-idle :
    (a : ℕ) (cs : List Caller) → ((c : Caller) → In c cs → c ≡ outside) → total (uses a) cs ≡ 0
unfolding uses
total-idle a [] idle = refl
total-idle a (c ∷ cs) idle =
    rw (idle c (inl refl)) (omega (arith, total-idle a cs (λ d m. idle d (inr m))))

In-parts :
    (c : Caller) (cs : List Caller)
    → In c cs
    → (xs : List Caller) × (ys : List Caller) × (cs ≡ xs ++ c ∷ ys)
In-parts c [] m = elim m [ ]
In-parts c (x ∷ cs) (inl e) = ([], cs, ap (λ y. y ∷ cs) e)
In-parts c (x ∷ cs) (inr m) =
    let (xs, ys, at) = In-parts c cs m in (x ∷ xs, ys, ap (λ rest. x ∷ rest) at)

behind :
    {e : ℕ} (c : Caller) {cs : List Caller}
    → (xs : List Caller) × (ys : List Caller) × (key : String) × (cs
        ≡ xs ++ inside holding key e ∷ ys)
    → (xs : List Caller) × (ys : List Caller) × (key : String) × (c ∷ cs
        ≡ xs ++ inside holding key e ∷ ys)
behind c (xs, ys, key, at) = (c ∷ xs, ys, key, ap (λ rest. c ∷ rest) at)

holder :
    (e : ℕ) (cs : List Caller)
    → total (holds e) cs ≡ 1
    → (xs : List Caller) × (ys : List Caller) × (key : String) × (cs
        ≡ xs ++ inside holding key e ∷ ys)
unfolding holds
holder e [] h = absurd (omega arith)
holder e (outside ∷ cs) h = behind outside (holder e cs (omega arith))
holder e (inside waiting key d ∷ cs) h = behind _ (holder e cs (omega arith))
holder e (inside released key d ∷ cs) h = behind _ (holder e cs (omega arith))
holder e (inside holding key d ∷ cs) h = elim (eq-cases e d) [
  | inl (same, b) ↦ ([], cs, key, ap (λ x. inside holding key x ∷ cs) (sym same))
  | inr (differ, b) ↦ behind _ (holder e cs (let h' = rw b at h in omega arith))
]

module _ (n : ℕ) {s : System} (run : Reaches (initial n) s) where
  consistent : IsConsistent s.callers s.mutex
  consistent = Reaches-IsConsistent run (initial-IsConsistent n)

  held_once :
      (xs ys : List Caller) (key : String) (e d : ℕ)
      → s.callers ≡ xs ++ inside holding key e ∷ ys
      → In (inside holding key d) (xs ++ ys)
      → ⊥
  held_once xs ys key e d at other =
      let i =
        to_front xs (inside holding key e) ys s.mutex
          (subst (λ cs. IsConsistent cs s.mutex) at consistent) in
      let same =
        some-injective
          (sym (i.linked holding key d (inr other)) ∙ i.linked holding key e (inl refl)) in
      let others = total-In (holds d) (inside holding key d) (xs ++ ys) other in
      let mine = subst (λ a. holds a (inside holding key e) ≡ 1) (sym same) (holds-same e key) in
      omega (arith, i.locked d, holds-same d key, at_most_one (s.mutex.is_locked d))

  -- Whatever the interleaving of any number of callers, while one of them holds the mutex of a key no
  -- other caller holds a mutex of that key.
  pub mutual_exclusion :
      (xs ys : List Caller) (key : String) (e : ℕ)
      → s.callers ≡ xs ++ inside holding key e ∷ ys
      → (c : Caller) → In c (xs ++ ys)
      → holds_key key c ≡ false
  unfolding holds_key
  mutual_exclusion xs ys key e at outside m = refl
  mutual_exclusion xs ys key e at (inside waiting other d) m = refl
  mutual_exclusion xs ys key e at (inside released other d) m = refl
  mutual_exclusion xs ys key e at (inside holding other d) m =
      elim (Bool-cases (str_eq other key)) [
        | inl same ↦ absurd (
            held_once xs ys key e d at
              (subst (λ k. In (inside holding k d) (xs ++ ys)) ((eq_iff other key).0 same) m))
        | inr differ ↦ differ
      ]

  -- Whatever the interleaving that went before, once every caller is outside the mutex keeps no entry
  -- for any key.
  pub idle_keys_forgotten :
      ((c : Caller) → In c s.callers → c ≡ outside) → (key : String) → s.mutex.locks key ≡ none
  idle_keys_forgotten idle key = elim (Option-cases (s.mutex.locks key)) [
    | inl gone ↦ gone
    | inr (e, kept) ↦
        let count = total-idle e s.callers idle in
        let refs = consistent.live key e kept in absurd (omega (arith, consistent.counted e))
  ]

  can_move :
      {cs : List Caller}
      → s.callers ≡ cs
      → (t : System) × Step (record { callers = cs; mutex = s.mutex }) t
      → (t : System) × Step s t
  can_move at m =
      subst (λ cs. (t : System) × Step (record { callers = cs; mutex = s.mutex }) t) (sym at) m

  unlocked_by_holder : (e : ℕ) → s.mutex.is_locked e ≡ true → (t : System) × Step s t
  unlocked_by_holder e closed' =
      let (xs, ys, key, at) = holder e s.callers (consistent.locked e ∙ ap as_count closed') in
      can_move at (_, leaves xs ys key e s.mutex)

  -- Whatever the interleaving that went before, while some caller is inside, waiting or not, one of
  -- the callers can take a step.
  pub deadlock_free :
      (stage : Stage) (key : String) (e : ℕ)
      → In (inside stage key e) s.callers
      → (t : System) × Step s t
  deadlock_free waiting key e m =
      let (xs, ys, at) = In-parts (inside waiting key e) s.callers m in
      elim (Bool-cases (s.mutex.is_locked e)) [
        | inl closed' ↦ unlocked_by_holder e closed'
        | inr free ↦ can_move at (_, enters xs ys key e s.mutex free)
      ]
  deadlock_free holding key e m =
      let (xs, ys, at) = In-parts (inside holding key e) s.callers m in
      can_move at (_, leaves xs ys key e s.mutex)
  deadlock_free released key e m =
      let (xs, ys, at) = In-parts (inside released key e) s.callers m in
      can_move at (_, forgets xs ys key e s.mutex)
