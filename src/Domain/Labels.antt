-- ===== src/Domain/Labels.antt =====
-- The characters and the ends of a text, for the steps of Normalize.
use ramify.Prelude.{
  ℕ, zero, suc, ◌+◌, ◌≤◌, ◌<◌, ◌≡◌, refl, Bool, true, false, ◌&&◌, List, [], ◌∷◌, ◌++◌, length,
  take, keep, keep_if, All, arith, ◌==◌, Bool-cases, inl, inr,
}
use ramify.Domain.{dash, is_label_char, collapse, join_dash, trim_left, trim_right, trim_onto}

abbrev pub starts_with_dash : List ℕ → Bool
starts_with_dash [] = false
starts_with_dash (c ∷ s) = c == dash

abbrev pub ends_with_dash : List ℕ → Bool
ends_with_dash [] = false
ends_with_dash (c ∷ []) = c == dash
ends_with_dash (c ∷ d ∷ s) = ends_with_dash (d ∷ s)

abbrev pub AllLabel : List ℕ → Type 0
AllLabel = All (λ c. is_label_char c ≡ true)

pub AllLabel-keep : (s : List ℕ) → AllLabel (keep is_label_char s)
unfolding keep
AllLabel-keep [] = tt
AllLabel-keep (c ∷ s) = elim (Bool-cases (is_label_char c)) [
  | inl y ↦ rw (y, keep_if) (y, AllLabel-keep s)
  | inr n ↦ rw (n, keep_if) (AllLabel-keep s)
]

pub AllLabel-join_dash :
    (c : ℕ) (s : List ℕ) → is_label_char c ≡ true → AllLabel s → AllLabel (join_dash c s)
unfolding join_dash
AllLabel-join_dash c [] p q = (p, tt)
AllLabel-join_dash c (d ∷ s) p q = elim (Bool-cases (c == dash && d == dash)) [
  | inl y ↦ rw y q
  | inr n ↦ rw n (p, q)
]

pub AllLabel-collapse : (s : List ℕ) → AllLabel s → AllLabel (collapse s)
unfolding collapse
AllLabel-collapse [] h = tt
AllLabel-collapse (c ∷ s) h = AllLabel-join_dash c (collapse s) h.0 (AllLabel-collapse s h.1)

pub AllLabel-trim_left : (s : List ℕ) → AllLabel s → AllLabel (trim_left s)
unfolding trim_left
AllLabel-trim_left [] h = tt
AllLabel-trim_left (c ∷ s) h = elim (Bool-cases (c == dash)) [
  | inl y ↦ rw y (AllLabel-trim_left s h.1)
  | inr n ↦ rw n h
]

pub first-trim_left : (s : List ℕ) → starts_with_dash (trim_left s) ≡ false
unfolding trim_left
first-trim_left [] = refl
first-trim_left (c ∷ s) = elim (Bool-cases (c == dash)) [
  | inl y ↦ rw y (first-trim_left s)
  | inr n ↦ rw n n
]

pub AllLabel-trim_onto :
    (c : ℕ) (s : List ℕ) → is_label_char c ≡ true → AllLabel s → AllLabel (trim_onto c s)
unfolding trim_onto
AllLabel-trim_onto c [] p h = elim (Bool-cases (c == dash)) [
  | inl y ↦ rw y tt
  | inr n ↦ rw n (p, tt)
]
AllLabel-trim_onto c (d ∷ s) p h = (p, h)

pub AllLabel-trim_right : (s : List ℕ) → AllLabel s → AllLabel (trim_right s)
unfolding trim_right
AllLabel-trim_right [] h = tt
AllLabel-trim_right (c ∷ s) h = AllLabel-trim_onto c (trim_right s) h.0 (AllLabel-trim_right s h.1)

pub last-trim_onto :
    (c : ℕ) (s : List ℕ) → ends_with_dash s ≡ false → ends_with_dash (trim_onto c s) ≡ false
unfolding trim_onto
last-trim_onto c [] h = elim (Bool-cases (c == dash)) [ inl y ↦ rw y refl | inr n ↦ rw n n ]
last-trim_onto c (d ∷ s) h = h

pub last-trim_right : (s : List ℕ) → ends_with_dash (trim_right s) ≡ false
unfolding trim_right
last-trim_right [] = refl
last-trim_right (c ∷ s) = last-trim_onto c (trim_right s) (last-trim_right s)

-- A text that does not start with a dash keeps its first character.
pub first-trim_onto :
    (c : ℕ) (s : List ℕ)
    → (c == dash) ≡ false
    → (starts_with_dash (trim_onto c s) ≡ false) × (0 < length (trim_onto c s))
unfolding trim_onto
first-trim_onto c [] h = rw h (h, omega arith)
first-trim_onto c (d ∷ s) h = (h, omega arith)

pub first-trim_right :
    (c : ℕ) (s : List ℕ)
    → (c == dash) ≡ false
    → (starts_with_dash (trim_right (c ∷ s)) ≡ false) × (0 < length (trim_right (c ∷ s)))
unfolding trim_right
first-trim_right c s h = first-trim_onto c (trim_right s) h

pub first-trim_right' :
    (s : List ℕ) → starts_with_dash s ≡ false → starts_with_dash (trim_right s) ≡ false
first-trim_right' [] h = unfold trim_right in refl
first-trim_right' (c ∷ s) h = (first-trim_right c s h).0

pub length-trim_onto : (c : ℕ) (s : List ℕ) → length (trim_onto c s) ≤ suc (length s)
unfolding trim_onto
length-trim_onto c [] = ground arith
length-trim_onto c (d ∷ s) = omega arith

pub length-trim_right : (s : List ℕ) → length (trim_right s) ≤ length s
unfolding trim_right
length-trim_right [] = omega arith
length-trim_right (c ∷ s) = omega (arith, length-trim_onto c (trim_right s), length-trim_right s)

pub AllLabel-take : (n : ℕ) (s : List ℕ) → AllLabel s → AllLabel (take n s)
AllLabel-take zero s h = tt
AllLabel-take (suc n) [] h = tt
AllLabel-take (suc n) (c ∷ s) h = (h.0, AllLabel-take n s h.1)

pub length-take-le : (n : ℕ) (s : List ℕ) → length (take n s) ≤ n
length-take-le zero s = omega arith
length-take-le (suc n) [] = omega arith
length-take-le (suc n) (c ∷ s) = omega (arith, length-take-le n s)

pub AllLabel-append : (s t : List ℕ) → AllLabel s → AllLabel t → AllLabel (s ++ t)
AllLabel-append [] t p q = q
AllLabel-append (c ∷ s) t p q = (p.0, AllLabel-append s t p.1 q)

pub length-append : (s t : List ℕ) → length (s ++ t) ≡ length s + length t
length-append [] t = omega arith
length-append (c ∷ s) t = omega (arith, length-append s t)

pub last-append :
    (s : List ℕ) (c : ℕ) (t : List ℕ) → ends_with_dash (s ++ c ∷ t) ≡ ends_with_dash (c ∷ t)
last-append [] c t = refl
last-append (a ∷ []) c t = refl
last-append (a ∷ b ∷ s) c t = last-append (b ∷ s) c t

pub first-append : (s t : List ℕ) → 0 < length s → starts_with_dash (s ++ t) ≡ starts_with_dash s
first-append [] t h = absurd (omega arith)
first-append (c ∷ s) t h = refl
