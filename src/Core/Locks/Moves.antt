-- ===== src/Core/Locks/Moves.antt =====
-- Taking an entry, by a caller that stands first.
use ramify.Prelude.{
  ℕ, String, ◌+◌, ◌≡◌, ◌≢◌, ap, sym, ◌∙◌, ◌⊎◌, inl, inr, false, none, some, List, ◌∷◌, arith,
}
use ramify.Core.Locks.{KeyedMutex, set_at, set_key, take_entry, waiting, Caller, outside, inside}
use ramify.Core.Locks.Cells.{
  eq-cases, str-cases, everywhere, set_at-same, set_at-other, set_key-same, set_key-other, total,
  uses, holds,
}
use ramify.Core.Locks.Invariant.{
  as_count, IsConsistent, follow_link, none-some, some-injective, total-le, uses-same, uses-other,
}

module _ (rest : List Caller) (k : KeyedMutex) (key : String) where
  pub take_old :
      (e : ℕ)
      → k.locks key ≡ some e
      → IsConsistent (outside ∷ rest) k
      → IsConsistent (inside waiting key e ∷ rest) (take_entry key (some e) k).1
  unfolding take_entry uses holds
  take_old e link i = record {
    linked = λ stage other d m. elim m [
      | inl h ↦ follow_link k.locks h link
      | inr there ↦ i.linked stage other d (inr there)
    ];
    counted =
        everywhere
          (λ a. set_at e (k.refs e + 1) k.refs a ≡ total (uses a) (inside waiting key e ∷ rest)) e
          (set_at-same e (k.refs e + 1) k.refs
            ∙ omega (arith, i.counted e, uses-same e waiting key))
          (λ a other.
            set_at-other e a (k.refs e + 1) k.refs other
            ∙ omega (arith, i.counted a, uses-other a e waiting key other));
    locked = λ a. i.locked a;
    bounded = i.bounded;
    distinct = i.distinct;
    live = λ other d l. elim (eq-cases d e) [
      | inl (same, h) ↦ rw same (rw (set_at-same e (k.refs e + 1) k.refs) (omega arith))
      | inr (differ, h) ↦ rw (set_at-other e d (k.refs e + 1) k.refs differ) (i.live other d l)
    ];
    unused = λ a above.
        let inside' = i.bounded key e link in
        set_at-other e a (k.refs e + 1) k.refs (λ same. absurd (omega arith)) ∙ i.unused a above;
  }

  module _ (missing : k.locks key ≡ none) (i : IsConsistent (outside ∷ rest) k) where
    differs_from : (other : String) (d : ℕ) → k.locks other ≡ some d → other ≢ key
    differs_from other d l same = none-some (sym missing ∙ ap k.locks (sym same) ∙ l)

    nobody : total (uses k.next) rest ≡ 0
    unfolding uses
    nobody = omega (arith, i.counted k.next, i.unused k.next (omega arith))

    -- A key of the new map is the new one or an old one.
    linked_key :
        (other : String) (d : ℕ)
        → set_key key (some k.next) k.locks other ≡ some d
        → ((other ≡ key) × (d ≡ k.next)) ⊎ (k.locks other ≡ some d)
    linked_key other d l = elim (str-cases other key) [
      | inl same ↦ inl (
        same,
        some-injective (
            sym l
            ∙ ap (set_key key (some k.next) k.locks) same
            ∙ set_key-same key (some k.next) k.locks),
      )
      | inr differ ↦ inr (sym (set_key-other key other (some k.next) k.locks differ) ∙ l)
    ]

    pub take_new : IsConsistent (inside waiting key k.next ∷ rest) (take_entry key none k).1
    unfolding take_entry uses holds
    take_new = record {
      linked = λ stage other d m. elim m [
        | inl h ↦
            follow_link (set_key key (some k.next) k.locks) h
              (set_key-same key (some k.next) k.locks)
        | inr there ↦
            let l = i.linked stage other d (inr there) in
            set_key-other key other (some k.next) k.locks (differs_from other d l) ∙ l
      ];
      counted =
          everywhere
            (λ a. set_at k.next 1 k.refs a ≡ total (uses a) (inside waiting key k.next ∷ rest))
            k.next
            (set_at-same k.next 1 k.refs ∙ omega (arith, nobody, uses-same k.next waiting key))
            (λ a other.
              set_at-other k.next a 1 k.refs other
              ∙ omega (arith, i.counted a, uses-other a k.next waiting key other));
      locked =
          everywhere
            (λ a.
              total (holds a) (inside waiting key k.next ∷ rest)
              ≡ as_count (set_at k.next false k.is_locked a))
            k.next
            (rw (set_at-same k.next false k.is_locked)
              (omega (arith, nobody, total-le k.next rest)))
            (λ a other. rw (set_at-other k.next a false k.is_locked other) (i.locked a));
      bounded = λ other d l. elim (linked_key other d l) [
        | inl (same, e) ↦ omega arith
        | inr old ↦ let below = i.bounded other d old in omega arith
      ];
      distinct = λ other other' d l l'. elim (linked_key other d l) [
        | inl (same, e) ↦ elim (linked_key other' d l') [
          | inl (same', e') ↦ same ∙ sym same'
          | inr old' ↦ let below = i.bounded other' d old' in absurd (omega arith)
        ]
        | inr old ↦ elim (linked_key other' d l') [
          | inl (same', e') ↦ let below = i.bounded other d old in absurd (omega arith)
          | inr old' ↦ i.distinct other other' d old old'
        ]
      ];
      live = λ other d l. elim (linked_key other d l) [
        | inl (same, e) ↦ rw e (rw (set_at-same k.next 1 k.refs) (omega arith))
        | inr old ↦
            let below = i.bounded other d old in
            rw (set_at-other k.next d 1 k.refs (λ same. absurd (omega arith))) (i.live other d old)
      ];
      unused = λ a above.
          set_at-other k.next a 1 k.refs (λ same. absurd (omega arith)) ∙ i.unused a (omega arith);
    }
