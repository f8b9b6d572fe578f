-- ===== src/Core/Locks/Cells.antt =====
-- Cells, keys and callers, one at a time.
use ramify.Prelude.{
  subst, ℕ, String, ◌+◌, ◌==◌, ◌≡◌, ◌≢◌, refl, sym, ◌⊎◌, inl, inr, true, false, Option, List, [],
  ◌∷◌, ◌++◌, if◌then◌else◌, str_eq, str_eq-false, eq_iff, ◌≤◌, Bool-cases, clash, ◌≢◌, arith,
}
use ramify.Core.Locks.{set_at, set_key, waiting, holding, released, Caller, outside, inside}
use ramify.Prelude.Membership.{In}

pub eq-cases : (x a : ℕ) → ((x ≡ a) × ((x == a) ≡ true)) ⊎ ((x ≢ a) × ((x == a) ≡ false))
eq-cases x a = elim (Bool-cases (x == a)) [
  | inl same ↦ inl (ground arith, same)
  | inr other ↦ inr ((λ e. ground arith), other)
]

pub set_at-same : {A : Type 0} (a : ℕ) (v : A) (f : ℕ → A) → set_at a v f a ≡ v
unfolding set_at
set_at-same a v f = elim (eq-cases a a) [ inl (e, h) ↦ rw h refl | inr (n, h) ↦ absurd (n refl) ]

pub set_at-other : {A : Type 0} (a x : ℕ) (v : A) (f : ℕ → A) → x ≢ a → set_at a v f x ≡ f x
unfolding set_at
set_at-other a x v f n = elim (eq-cases x a) [ inl (e, h) ↦ absurd (n e) | inr (m, h) ↦ rw h refl ]

pub set_key-same : (k : String) (v : Option ℕ) (f : String → Option ℕ) → set_key k v f k ≡ v
unfolding set_key
set_key-same k v f = rw ((eq_iff k k).1 refl) refl

pub set_key-other :
    (k x : String) (v : Option ℕ) (f : String → Option ℕ) → x ≢ k → set_key k v f x ≡ f x
unfolding set_key
set_key-other k x v f n = rw (str_eq-false n) refl

abbrev pub total : (Caller → ℕ) → List Caller → ℕ
total f [] = 0
total f (c ∷ cs) = f c + total f cs

pub total-append :
    (f : Caller → ℕ) (xs : List Caller) (c : Caller) (ys : List Caller)
    → total f (xs ++ c ∷ ys) ≡ f c + total f (xs ++ ys)
total-append f [] c ys = refl
total-append f (x ∷ xs) c ys = omega (arith, total-append f xs c ys)

pub total-In : (f : Caller → ℕ) (c : Caller) (cs : List Caller) → In c cs → f c ≤ total f cs
total-In f c [] m = elim m [ ]
total-In f c (x ∷ cs) (inl e) = rw (← e) (omega arith)
total-In f c (x ∷ cs) (inr m) = omega (arith, total-In f c cs m)

unfoldable pub uses : ℕ → Caller → ℕ
uses a outside = 0
uses a (inside stage k e) = if a == e then 1 else 0

unfoldable pub holds : ℕ → Caller → ℕ
holds a outside = 0
holds a (inside waiting k e) = 0
holds a (inside holding k e) = if a == e then 1 else 0
holds a (inside released k e) = 0

pub In-middle : (xs : List Caller) (c : Caller) (ys : List Caller) → In c (xs ++ c ∷ ys)
In-middle [] c ys = inl refl
In-middle (x ∷ xs) c ys = inr (In-middle xs c ys)

pub In-rest :
    (xs : List Caller) (c d : Caller) (ys : List Caller) → In d (xs ++ ys) → In d (xs ++ c ∷ ys)
In-rest [] c d ys m = inr m
In-rest (x ∷ xs) c d ys (inl e) = inl e
In-rest (x ∷ xs) c d ys (inr m) = inr (In-rest xs c d ys m)

pub In-split :
    (xs : List Caller) (c d : Caller) (ys : List Caller)
    → In d (xs ++ c ∷ ys)
    → (c ≡ d) ⊎ In d (xs ++ ys)
In-split [] c d ys (inl e) = inl e
In-split [] c d ys (inr m) = inr m
In-split (x ∷ xs) c d ys (inl e) = inr (inl e)
In-split (x ∷ xs) c d ys (inr m) = elim (In-split xs c d ys m) [
  | inl e ↦ inl e
  | inr n ↦ inr (inr n)
]

-- What holds at one address and at all others holds everywhere.
pub everywhere : (P : ℕ → Type 0) (e : ℕ) → P e → ((a : ℕ) → a ≢ e → P a) → (a : ℕ) → P a
everywhere P e at others a = elim (eq-cases a e) [
  | inl (same, h) ↦ subst P (sym same) at
  | inr (differ, h) ↦ others a differ
]

pub str-cases : (a b : String) → (a ≡ b) ⊎ (a ≢ b)
str-cases a b = elim (Bool-cases (str_eq a b)) [
  | inl same ↦ inl ((eq_iff a b).0 same)
  | inr other ↦ inr (λ e. clash ((eq_iff a b).1 e) other)
]
