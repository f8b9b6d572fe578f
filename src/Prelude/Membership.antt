-- ===== src/Prelude/Membership.antt =====
-- Members of a list, and the tests and searches that find them.
use ramify.Prelude.{
  sym, ◌∙◌, false, ◌≡◌, refl, ap, Bool, true, ◌⊎◌, inl, inr, some, List, [], ◌∷◌, ◌++◌, any, keep,
  keep_if, find_first, none, choose, Bool-cases, arith,
}

module _ {A : Type 0} where
  abbrev pub In : A → List A → Type 0
  In a [] = ⊥
  In a (x ∷ xs) = (x ≡ a) ⊎ In a xs

  pub In-append : (a : A) (xs ys : List A) → In a xs → In a (xs ++ ys)
  In-append a [] ys h = elim h [ ]
  In-append a (x ∷ xs) ys (inl e) = inl e
  In-append a (x ∷ xs) ys (inr h) = inr (In-append a xs ys h)

  pub In-keep : (p : A → Bool) (a : A) (xs : List A) → In a (keep p xs) → In a xs × (p a ≡ true)
  unfolding keep keep_if
  In-keep p a [] h = elim h [ ]
  In-keep p a (x ∷ xs) h = elim (Bool-cases (p x)) [
    | inl yes' ↦ elim (rw yes' at h) [
      | inl e ↦ (inl e, rw (← e) yes')
      | inr there ↦ let (m, q) = In-keep p a xs there in (inr m, q)
    ]
    | inr no' ↦ let (m, q) = In-keep p a xs (rw no' at h) in (inr m, q)
  ]

  pub keep-In : (p : A → Bool) (a : A) (xs : List A) → p a ≡ true → In a xs → In a (keep p xs)
  unfolding keep keep_if
  keep-In p a [] q h = elim h [ ]
  keep-In p a (x ∷ xs) q (inl e) = rw (ap p e) (rw q (inl e))
  keep-In p a (x ∷ xs) q (inr h) = elim (Bool-cases (p x)) [
    | inl yes' ↦ rw yes' (inr (keep-In p a xs q h))
    | inr no' ↦ rw no' (keep-In p a xs q h)
  ]

  pub any-In : (p : A → Bool) (xs : List A) → any p xs ≡ true → (a : A) × In a xs × (p a ≡ true)
  any-In p [] h = absurd (ground arith)
  any-In p (x ∷ xs) h = elim (Bool-cases (p x)) [
    | inl yes' ↦ (x, inl refl, yes')
    | inr no' ↦ let (a, m, q) = any-In p xs (ground arith) in (a, inr m, q)
  ]

  pub find_first-In :
      (p : A → Bool) (xs : List A) {a : A} → find_first p xs ≡ some a → In a xs × (p a ≡ true)
  unfolding find_first choose
  find_first-In p [] h = absurd (ground arith)
  find_first-In p (x ∷ xs) h = elim (Bool-cases (p x)) [
    | inl yes' ↦ (inl (ground arith), ground arith)
    | inr no' ↦ let (m, q) = find_first-In p xs (ground arith) in (inr m, q)
  ]

pub any-find_first :
    {A : Type 0} (p : A → Bool) (xs : List A) → any p xs ≡ false → find_first p xs ≡ none
unfolding find_first choose
any-find_first p [] h = refl
any-find_first p (x ∷ xs) h = elim (Bool-cases (p x)) [
  | inl yes' ↦ absurd (ground arith)
  | inr no' ↦ rw no' (any-find_first p xs (ground arith))
]

pub In-any :
    {A : Type 0} (p : A → Bool) (a : A) (xs : List A) → In a xs → any p xs ≡ false → p a ≡ false
In-any p a [] m h = elim m [ ]
In-any p a (x ∷ xs) (inl e) h = ap p (sym e) ∙ ground arith
In-any p a (x ∷ xs) (inr m) h = In-any p a xs m (ground arith)
