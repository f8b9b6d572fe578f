-- ===== src/Core/Locks/Invariant.antt =====
-- What every step of the callers of Lock keeps.
use ramify.Prelude.{
  ℕ, String, ◌≤◌, ◌<◌, ◌≡◌, ◌≢◌, refl, ap, sym, ◌∙◌, inl, inr, Bool, true, false, Option, none,
  some, List, [], ◌∷◌, ◌++◌, subst, arith,
}
use ramify.Core.Locks.{KeyedMutex, Stage, waiting, holding, released, Caller, outside, inside}
use ramify.Core.Locks.Cells.{
  eq-cases, total, total-append, uses, holds, In-middle, In-rest, In-split,
}
use ramify.Prelude.Membership.{In}

abbrev pub as_count : Bool → ℕ
as_count true = 1
as_count false = 0

pub record IsConsistent (cs : List Caller) (k : KeyedMutex) : Type 0 where
  -- whoever has an entry has the one that the map holds for its key
  pub linked :
      (stage : Stage) (key : String) (e : ℕ) → In (inside stage key e) cs → k.locks key ≡ some e
  pub counted : (a : ℕ) → k.refs a ≡ total (uses a) cs
  pub locked : (a : ℕ) → total (holds a) cs ≡ as_count (k.is_locked a)
  pub bounded : (key : String) (e : ℕ) → k.locks key ≡ some e → e < k.next
  pub distinct :
      (key other : String) (e : ℕ) → k.locks key ≡ some e → k.locks other ≡ some e → key ≡ other
  pub live : (key : String) (e : ℕ) → k.locks key ≡ some e → 1 ≤ k.refs e
  pub unused : (a : ℕ) → k.next ≤ a → k.refs a ≡ 0

key_of : String → Caller → String
key_of default outside = default
key_of default (inside stage key e) = key

entry_of : Caller → ℕ
entry_of outside = 0
entry_of (inside stage key e) = e

module _ {stage stage' : Stage} {key key' : String} {e e' : ℕ} where
  same_key : inside stage key e ≡ inside stage' key' e' → key ≡ key'
  unfolding key_of
  same_key h = ap (key_of key) h

  same_entry : inside stage key e ≡ inside stage' key' e' → e ≡ e'
  unfolding entry_of
  same_entry h = ap entry_of h

  pub follow_link :
      (locks : String → Option ℕ)
      → inside stage key e ≡ inside stage' key' e'
      → locks key ≡ some e
      → locks key' ≡ some e'
  follow_link locks h l = rw (← same_key h) (rw (← same_entry h) l)

pub none-some : {a : ℕ} → none ≡ some a → ⊥
none-some h = ground arith

pub some-injective : {a b : ℕ} → some a ≡ some b → a ≡ b
some-injective h = ground arith

holds≤uses : (a : ℕ) (c : Caller) → holds a c ≤ uses a c
unfolding holds uses
holds≤uses a outside = omega arith
holds≤uses a (inside waiting k e) = ground arith
holds≤uses a (inside holding k e) = ground arith
holds≤uses a (inside released k e) = ground arith

pub total-le : (a : ℕ) (cs : List Caller) → total (holds a) cs ≤ total (uses a) cs
total-le a [] = omega arith
total-le a (c ∷ cs) = omega (arith, holds≤uses a c, total-le a cs)

pub uses-same : (a : ℕ) (stage : Stage) (key : String) → uses a (inside stage key a) ≡ 1
unfolding uses
uses-same a stage key = elim (eq-cases a a) [
  | inl (e, h) ↦ rw h refl
  | inr (n, h) ↦ absurd (n refl)
]

pub uses-other : (a e : ℕ) (stage : Stage) (key : String) → a ≢ e → uses a (inside stage key e) ≡ 0
unfolding uses
uses-other a e stage key n = elim (eq-cases a e) [
  | inl (same, h) ↦ absurd (n same)
  | inr (m, h) ↦ rw h refl
]

pub holds-same : (a : ℕ) (key : String) → holds a (inside holding key a) ≡ 1
unfolding holds
holds-same a key = elim (eq-cases a a) [ inl (e, h) ↦ rw h refl | inr (n, h) ↦ absurd (n refl) ]

pub holds-other : (a e : ℕ) (key : String) → a ≢ e → holds a (inside holding key e) ≡ 0
unfolding holds
holds-other a e key n = elim (eq-cases a e) [
  | inl (same, h) ↦ absurd (n same)
  | inr (m, h) ↦ rw h refl
]

-- The caller that moves stands first, or where it stood.
module _ (xs : List Caller) (c : Caller) (ys : List Caller) (k : KeyedMutex) where
  pub to_front : IsConsistent (xs ++ c ∷ ys) k → IsConsistent (c ∷ (xs ++ ys)) k
  to_front i = record {
    linked = λ stage key e m. i.linked stage key e (elim m [
      | inl here' ↦ subst (λ d. In d (xs ++ c ∷ ys)) here' (In-middle xs c ys)
      | inr there ↦ In-rest xs c (inside stage key e) ys there
    ]);
    counted = λ a. i.counted a ∙ total-append (uses a) xs c ys;
    locked = λ a. sym (total-append (holds a) xs c ys) ∙ i.locked a;
    bounded = i.bounded;
    distinct = i.distinct;
    live = i.live;
    unused = i.unused;
  }

  pub from_front : IsConsistent (c ∷ (xs ++ ys)) k → IsConsistent (xs ++ c ∷ ys) k
  from_front i = record {
    linked = λ stage key e m. i.linked stage key e (In-split xs c (inside stage key e) ys m);
    counted = λ a. i.counted a ∙ sym (total-append (uses a) xs c ys);
    locked = λ a. total-append (holds a) xs c ys ∙ i.locked a;
    bounded = i.bounded;
    distinct = i.distinct;
    live = i.live;
    unused = i.unused;
  }
