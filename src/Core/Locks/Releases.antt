-- ===== src/Core/Locks/Releases.antt =====
-- Locking, unlocking and dropping an entry, by a caller that stands first.
use ramify.Prelude.{
  ℕ, String, ◌+◌, ◌-◌, ◌≤◌, ◌≡◌, ◌≢◌, refl, ap, sym, ◌∙◌, inl, inr, Bool, true, false, none, some,
  List, ◌∷◌, subst, arith,
}
use ramify.Core.Locks.{
  KeyedMutex, set_at, set_key, lock_entry, Stage, waiting, holding, released, Caller, outside,
  inside,
}
use ramify.Core.Locks.Cells.{
  eq-cases, str-cases, everywhere, set_at-same, set_at-other, set_key-same, set_key-other, total,
  total-In, uses, holds,
}
use ramify.Core.Locks.Invariant.{
  as_count, IsConsistent, follow_link, none-some, some-injective, uses-same, uses-other, holds-same,
  holds-other,
}
use ramify.Prelude.Membership.{In}

pub at_most_one : (b : Bool) → as_count b ≤ 1
at_most_one true = omega arith
at_most_one false = omega arith

module _ (rest : List Caller) (k : KeyedMutex) (key : String) (e : ℕ) where
  -- A change of stage keeps the entry that the caller has.
  restaged :
      (from to : Stage)
      → IsConsistent (inside from key e ∷ rest) k
      → (stage : Stage) (other : String) (d : ℕ)
      → In (inside stage other d) (inside to key e ∷ rest)
      → k.locks other ≡ some d
  restaged from to i stage other d (inl h) = follow_link k.locks h (i.linked from key e (inl refl))
  restaged from to i stage other d (inr there) = i.linked stage other d (inr there)

  pub lock_step :
      k.is_locked e ≡ false
      → IsConsistent (inside waiting key e ∷ rest) k
      → IsConsistent (inside holding key e ∷ rest) (lock_entry e true k)
  unfolding lock_entry uses holds
  lock_step open' i = record {
    linked = restaged waiting holding i;
    counted = λ a. i.counted a;
    locked =
        everywhere
          (λ a.
            total (holds a) (inside holding key e ∷ rest) ≡ as_count (set_at e true k.is_locked a))
          e
          (rw (set_at-same e true k.is_locked)
            (omega (arith, holds-same e key, i.locked e ∙ ap as_count open')))
          (λ a other.
            rw (set_at-other e a true k.is_locked other)
              (ap (λ n. n + total (holds a) rest) (holds-other a e key other) ∙ i.locked a));
    bounded = i.bounded;
    distinct = i.distinct;
    live = i.live;
    unused = i.unused;
  }

  pub unlock_step :
      IsConsistent (inside holding key e ∷ rest) k
      → IsConsistent (inside released key e ∷ rest) (lock_entry e false k)
  unfolding lock_entry uses holds
  unlock_step i = record {
    linked = restaged holding released i;
    counted = λ a. i.counted a;
    locked =
        everywhere
          (λ a.
            total (holds a) (inside released key e ∷ rest)
            ≡ as_count (set_at e false k.is_locked a))
          e
          (rw (set_at-same e false k.is_locked)
            (omega (arith, holds-same e key, i.locked e, at_most_one (k.is_locked e))))
          (λ a other.
            rw (set_at-other e a false k.is_locked other)
              (sym (ap (λ n. n + total (holds a) rest) (holds-other a e key other)) ∙ i.locked a));
    bounded = i.bounded;
    distinct = i.distinct;
    live = i.live;
    unused = i.unused;
  }

  module _ (i : IsConsistent (inside released key e ∷ rest) k) where
    link : k.locks key ≡ some e
    link = i.linked released key e (inl refl)

    fewer : (a : ℕ) → set_at e (k.refs e - 1) k.refs a ≡ total (uses a) rest
    fewer =
        everywhere (λ a. set_at e (k.refs e - 1) k.refs a ≡ total (uses a) rest) e
          (set_at-same e (k.refs e - 1) k.refs
            ∙ omega (arith, i.counted e, uses-same e released key))
          (λ a other.
            set_at-other e a (k.refs e - 1) k.refs other
            ∙ omega (arith, i.counted a, uses-other a e released key other))

    fewer_unused : (a : ℕ) → k.next ≤ a → set_at e (k.refs e - 1) k.refs a ≡ 0
    fewer_unused a above =
        let below = i.bounded key e link in
        set_at-other e a (k.refs e - 1) k.refs (λ same. absurd (omega arith)) ∙ i.unused a above

    pub drop_count :
        (k.refs e - 1) ≢ 0
        → IsConsistent (outside ∷ rest) (record k { refs = set_at e (k.refs e - 1) k.refs })
    unfolding uses holds
    drop_count left = record {
      linked = λ stage other d m. elim m [
        | inl h ↦ absurd (ground arith)
        | inr there ↦ i.linked stage other d (inr there)
      ];
      counted = λ a. omega (arith, fewer a);
      locked = λ a. i.locked a;
      bounded = i.bounded;
      distinct = i.distinct;
      live = λ other d l. elim (eq-cases d e) [
        | inl (same, h) ↦ rw same (rw (set_at-same e (k.refs e - 1) k.refs) (omega arith))
        | inr (differ, h) ↦ rw (set_at-other e d (k.refs e - 1) k.refs differ) (i.live other d l)
      ];
      unused = fewer_unused;
    }

    module _ (last : (k.refs e - 1) ≡ 0) where
      still :
          (other : String) (d : ℕ)
          → set_key key none k.locks other ≡ some d
          → (other ≢ key) × (k.locks other ≡ some d)
      still other d l = elim (str-cases other key) [
        | inl same ↦ absurd (
            none-some
              (sym (ap (set_key key none k.locks) same ∙ set_key-same key none k.locks) ∙ l))
        | inr differ ↦ (differ, sym (set_key-other key other none k.locks differ) ∙ l)
      ]

      last_count : (d : ℕ) → e ≡ d → total (uses d) rest ≡ 0
      last_count d at =
          subst (λ x. total (uses x) rest ≡ 0) at
            (sym (fewer e) ∙ set_at-same e (k.refs e - 1) k.refs ∙ last)

      -- Nobody else has the entry.
      others_elsewhere :
          (stage : Stage) (other : String) (d : ℕ) → In (inside stage other d) rest → other ≢ key
      others_elsewhere stage other d there same =
          let l = i.linked stage other d (inr there) in
          let at = some-injective (sym link ∙ ap k.locks (sym same) ∙ l) in
          let one = total-In (uses d) (inside stage other d) rest there in
          absurd (omega (arith, uses-same d stage other, last_count d at))

      pub drop_entry :
          IsConsistent
            (outside ∷ rest)
            (record k { refs = set_at e (k.refs e - 1) k.refs; locks = set_key key none k.locks })
      unfolding uses holds
      drop_entry = record {
        linked = λ stage other d m. elim m [
          | inl h ↦ absurd (ground arith)
          | inr there ↦
              set_key-other key other none k.locks (others_elsewhere stage other d there)
              ∙ i.linked stage other d (inr there)
        ];
        counted = λ a. omega (arith, fewer a);
        locked = λ a. i.locked a;
        bounded = λ other d l. i.bounded other d (still other d l).1;
        distinct = λ other other' d l l'.
            i.distinct other other' d (still other d l).1 (still other' d l').1;
        live = λ other d l.
            let (differ, old) = still other d l in
            rw
              (set_at-other e d (k.refs e - 1) k.refs
                (λ same. differ (i.distinct other key d old (link ∙ ap some (sym same)))))
              (i.live other d old);
        unused = fewer_unused;
      }
