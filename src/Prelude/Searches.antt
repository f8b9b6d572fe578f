-- ===== src/Prelude/Searches.antt =====
-- Searches in lists of rows, after rows have been appended or replaced.
use mathlib.Core.Path.{◌≡◌, refl}
use mathlib.Core.Bool.{Bool, true}
use mathlib.Core.Option.{Option, none, some}
use mathlib.Core.List.{List, [], ◌∷◌, ◌++◌}
use native.Mathlib.Omega.{arith}
use ramify.Prelude.Lists.{find_first, update_where, change}

abbrev pub changed {ℓ} : {A : Type ℓ} → (A → Bool) → (A → A) → Option A → Option A
changed q f none = none
changed q f (some x) = some (change f x (q x))

module _ {ℓ} {A : Type ℓ} (p : A → Bool) where
  pub find_first-append :
      (xs ys : List A) {a : A} → find_first p xs ≡ some a → find_first p (xs ++ ys) ≡ some a
  unfolding find_first
  find_first-append [] ys {a} h = ground arith
  find_first-append (x ∷ xs) ys {a} h = ground (arith, find_first-append xs ys {a = a})

  pub find_first_passes : (xs : List A) {a : A} → find_first p xs ≡ some a → p a ≡ true
  unfolding find_first
  find_first_passes [] {a} h = ground arith
  find_first_passes (x ∷ xs) {a} h = ground (arith, find_first_passes xs {a = a})

  module _ (q : A → Bool) (f : A → A) (same : (x : A) → p (f x) ≡ p x) where
    pub find_first-update_where :
        (xs : List A) → find_first p (update_where q f xs) ≡ changed q f (find_first p xs)
    unfolding find_first update_where
    find_first-update_where [] = refl
    find_first-update_where (x ∷ xs) = ground (arith, same x, find_first-update_where xs)
