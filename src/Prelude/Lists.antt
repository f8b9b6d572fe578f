-- ===== src/Prelude/Lists.antt =====
-- Lists over the native numbers: searches, tests and slices as the program uses them.
use Prim.Native.Nat.{ℕ, zero, suc}
use mathlib.Core.Bool.{Bool, true, false, ◌||◌}
use mathlib.Core.Option.{Option, none, some}
use mathlib.Core.List.{List, [], ◌∷◌}

module _ {ℓ} {A : Type ℓ} where
  abbrev pub length : List A → ℕ
  length [] = 0
  length (x ∷ xs) = suc (length xs)

  abbrev pub any : (A → Bool) → List A → Bool
  any p [] = false
  any p (x ∷ xs) = p x || any p xs

  -- Every element satisfies the predicate.
  abbrev pub All {κ} : (A → Type κ) → List A → Type κ
  All P [] = Unit
  All P (x ∷ xs) = P x × All P xs

  unfoldable pub choose : A → Bool → Option A → Option A
  choose x true rest = some x
  choose x false rest = rest

  -- The first element that passes the test.
  unfoldable pub find_first : (A → Bool) → List A → Option A
  unfolding choose
  find_first p [] = none
  find_first p (x ∷ xs) = choose x (p x) (find_first p xs)

  unfoldable pub keep_if : A → Bool → List A → List A
  keep_if x true rest = x ∷ rest
  keep_if x false rest = rest

  unfoldable pub keep : (A → Bool) → List A → List A
  unfolding keep_if
  keep p [] = []
  keep p (x ∷ xs) = keep_if x (p x) (keep p xs)

  unfoldable pub change : (A → A) → A → Bool → A
  change f x true = f x
  change f x false = x

  -- The rows that pass the test are replaced.
  unfoldable pub update_where : (A → Bool) → (A → A) → List A → List A
  unfolding change
  update_where p f [] = []
  update_where p f (x ∷ xs) = change f x (p x) ∷ update_where p f xs

  abbrev pub take : ℕ → List A → List A
  take zero xs = []
  take (suc n) [] = []
  take (suc n) (x ∷ xs) = x ∷ take n xs

  abbrev pub drop : ℕ → List A → List A
  drop zero xs = xs
  drop (suc n) [] = []
  drop (suc n) (x ∷ xs) = drop n xs
