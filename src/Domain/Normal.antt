-- ===== src/Domain/Normal.antt =====
-- The labels that Normalize makes (internal/core/domain/normalize.go).
use ramify.Prelude.{
  ℕ, suc, ◌+◌, ◌-◌, ◌≤◌, ◌<◌, ◌≡◌, refl, true, false, List, [], ◌∷◌, ◌++◌, length, take, leb, arith,
  ◌==◌, Bool-cases, inl, inr, ◌∙◌,
}
use ramify.Domain.{dash, is_label_char, trim_right, short_hash, clean, fit, normalize}
use ramify.Domain.Labels.{
  AllLabel, starts_with_dash, ends_with_dash, AllLabel-keep, AllLabel-collapse, AllLabel-trim_left,
  AllLabel-trim_right, first-trim_left, first-trim_right, first-trim_right', last-trim_right,
  length-trim_right, AllLabel-take, length-take-le, AllLabel-append, length-append, last-append,
  first-append,
}

-- A label of at most `max_length` characters [a-z0-9-] with no dash at either end.
pub record IsLabel (max_length : ℕ) (s : List ℕ) : Type 0 where
  pub chars : AllLabel s
  pub nonempty : 0 < length s
  pub first : starts_with_dash s ≡ false
  pub last : ends_with_dash s ≡ false
  pub bounded : length s ≤ max_length

leb-true : (a b : ℕ) → leb a b ≡ true → a ≤ b
leb-true a b h = ground arith

leb-false : (a b : ℕ) → leb a b ≡ false → b < a
leb-false a b h = ground arith

last-cons : (c : ℕ) (s : List ℕ) → 0 < length s → ends_with_dash (c ∷ s) ≡ ends_with_dash s
last-cons c [] h = absurd (omega arith)
last-cons c (d ∷ s) h = refl

module _ (lower : ℕ → ℕ) (hex_digest : List ℕ → List ℕ) where
  clean-AllLabel : (branch : List ℕ) → AllLabel (clean lower hex_digest branch)
  unfolding clean
  clean-AllLabel branch =
      AllLabel-trim_right _ (AllLabel-trim_left _ (AllLabel-collapse _ (AllLabel-keep _)))

  clean-first : (branch : List ℕ) → starts_with_dash (clean lower hex_digest branch) ≡ false
  unfolding clean
  clean-first branch = first-trim_right' _ (first-trim_left _)

  clean-last : (branch : List ℕ) → ends_with_dash (clean lower hex_digest branch) ≡ false
  unfolding clean
  clean-last branch = last-trim_right _

  -- the text that was cut off, with the hash behind it
  cut-IsLabel :
      (hash : List ℕ) (max_length n c : ℕ) (s : List ℕ)
      → IsLabel max_length hash
      → AllLabel (c ∷ s)
      → (c == dash) ≡ false
      → suc n + suc (length hash) ≤ max_length
      → IsLabel max_length (trim_right (take (suc n) (c ∷ s)) ++ dash ∷ hash)
  cut-IsLabel hash max_length n c s h p q room =
      let kept : List ℕ = trim_right (take (suc n) (c ∷ s)) in
      let (first, nonempty) = first-trim_right c (take n s) q in
      record {
        chars =
            AllLabel-append kept (dash ∷ hash)
              (AllLabel-trim_right _ (AllLabel-take (suc n) (c ∷ s) p))
              (unfold is_label_char in (refl, h.chars));
        nonempty = omega (arith, length-append kept (dash ∷ hash));
        first = first-append kept (dash ∷ hash) nonempty ∙ first;
        last = last-append kept dash hash ∙ (last-cons dash hash h.nonempty ∙ h.last);
        bounded = omega (
          arith,
          length-append kept (dash ∷ hash),
          length-trim_right (take (suc n) (c ∷ s)),
          length-take-le n s,
        );
      }

  fit-IsLabel :
      (hash s : List ℕ) (max_length : ℕ)
      → IsLabel max_length hash
      → AllLabel s
      → starts_with_dash s ≡ false
      → ends_with_dash s ≡ false
      → IsLabel max_length (fit lower hex_digest hash s max_length)
  unfolding fit
  fit-IsLabel hash [] max_length h p q e = h
  fit-IsLabel hash (c ∷ s) max_length h p q e =
      elim (Bool-cases (leb (length (c ∷ s)) max_length)) [
        | inl fits ↦ rw fits (record {
          chars = p;
          nonempty = omega arith;
          first = q;
          last = e;
          bounded = leb-true _ _ fits;
        })
        | inr long ↦ elim (Bool-cases (leb max_length (length (dash ∷ hash)))) [
          | inl small ↦ rw (long, small) h
          | inr big ↦
              let room : length (dash ∷ hash) < max_length = leb-false _ _ big in
              let size : max_length - length (dash ∷ hash)
                  ≡ suc (max_length - length (dash ∷ hash) - 1) =
                omega arith in
              rw (long, big) (rw size (cut-IsLabel hash max_length _ c s h p q (omega arith)))
        ]
      ]

  -- If the first six digits of the digest of a branch are a label of at most `max_length`
  -- characters, then so is the normalized branch: it is not empty, has characters [a-z0-9-] only, no
  -- dash at either end, and at most `max_length` of them.
  pub normalize-IsLabel :
      (branch : List ℕ) (max_length : ℕ)
      → IsLabel max_length (short_hash lower hex_digest branch)
      → IsLabel max_length (normalize lower hex_digest branch max_length)
  unfolding normalize
  normalize-IsLabel branch max_length h =
      fit-IsLabel _ _ max_length h (clean-AllLabel branch) (clean-first branch) (clean-last branch)
