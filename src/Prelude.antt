-- ===== src/Prelude.antt =====
-- The names that the other files share: the libraries', passed on, the tests on numbers, and
-- lists over the native numbers.
pub mod Lists
pub mod Membership
pub mod Searches
pub mod Texts
pub mod Codes
unfoldable pub use Lists.*
use Prim.Native.Nat.{compare, Ordering}
pub use Prim.Native.Nat.{ℕ, zero, suc, ◌+◌, ◌-◌, ◌*◌, ◌/◌, ◌%◌, ◌^◌, ◌≤◌, ◌<◌, min, max}
pub use Prim.Native.String.{String}
pub use mathlib.Core.Path.{◌≡◌, refl, sym, ap, ◌∙◌, subst}
pub use mathlib.Core.Logic.{◌≢◌, ◌↔◌, ◌⊎◌, inl, inr}
pub use mathlib.Core.Bool.{Bool, true, false, not, ◌&&◌, ◌||◌}
pub use mathlib.Core.Option.{Option, none, some}
pub use mathlib.Core.List.{List, [], ◌∷◌, ◌++◌, map}
pub use native.Mathlib.Omega.{arith}
pub use text.Mathlib.Text.{◌==◌ as str_eq}
pub use text.Mathlib.TextEquality.{eq_iff}

abbrev pub ltb : ℕ → ℕ → Bool
ltb a b = elim (compare a b) [ Ordering.lt ↦ true | _ ↦ false ]

abbrev pub leb : ℕ → ℕ → Bool
leb a b = elim (compare a b) [ Ordering.gt ↦ false | _ ↦ true ]

infix 50 ◌==◌
abbrev pub ◌==◌ : ℕ → ℕ → Bool
a == b = elim (compare a b) [ Ordering.eq ↦ true | _ ↦ false ]

infix 1 if◌then◌else◌
abbrev pub if◌then◌else◌ {ℓ} : {A : Type ℓ} → Bool → A → A → A
if true then x else y = x
if false then x else y = y

pub Bool-cases : (b : Bool) → (b ≡ true) ⊎ (b ≡ false)
Bool-cases true = inl refl
Bool-cases false = inr refl

pub clash : {b : Bool} → b ≡ true → b ≡ false → ⊥
clash t f = ground arith

pub Option-cases {ℓ} : {A : Type ℓ} (o : Option A) → (o ≡ none) ⊎ ((a : A) × (o ≡ some a))
Option-cases none = inl refl
Option-cases (some a) = inr (a, refl)

abbrev pub is_some {ℓ} : {A : Type ℓ} → Option A → Bool
is_some none = false
is_some (some _) = true

pub str_eq-false : {a b : String} → a ≢ b → str_eq a b ≡ false
str_eq-false {a} {b} differ = elim (Bool-cases (str_eq a b)) [
  | inl same ↦ absurd (differ ((eq_iff a b).0 same))
  | inr other ↦ other
]

pub and-false : {a b : Bool} → (a ≡ true → b ≡ true → ⊥) → (a && b) ≡ false
and-false {a} {b} h = elim (Bool-cases a) [
  | inl yes' ↦ elim (Bool-cases b) [ inl both ↦ absurd (h yes' both) | inr no' ↦ ground arith ]
  | inr no' ↦ ground arith
]
