-- ===== src/Policy/Decisions.antt =====
-- The decisions of the policy (internal/core/policy/policy.go).
use ramify.Prelude.{
  String, ◌≡◌, refl, Bool, true, false, not, ◌&&◌, ◌||◌, Option, none, some, List, [], ◌∷◌, ◌==◌,
  arith, Bool-cases, inl, inr, ◌↔◌,
}
use ramify.Provider.{GitEvent}
use ramify.Policy.{Policy, decide, matches, matches_any, has_any, first_denied, is_empty}

module _ (path_match : String → String → Option Bool) (equal_fold : String → String → Bool) where
  first_denied-eq-none :
      (branch : String) (patterns : List String)
      → matches_any path_match equal_fold patterns branch ≡ false
      → first_denied path_match equal_fold branch patterns ≡ none
  unfolding first_denied matches_any
  first_denied-eq-none branch [] h = refl
  first_denied-eq-none branch (p ∷ rest) h = ground (arith, first_denied-eq-none branch rest)

  first_denied-some :
      (branch : String) (patterns : List String)
      → matches_any path_match equal_fold patterns branch ≡ true
      → (p : String) × (first_denied path_match equal_fold branch patterns ≡ some p)
  unfolding first_denied matches_any
  first_denied-some branch [] h = ground arith
  first_denied-some branch (p ∷ rest) h =
      elim (Bool-cases (matches path_match equal_fold p branch)) [
        | inl y ↦ (p, rw y refl)
        | inr n ↦ let (q, e) = first_denied-some branch rest (ground arith) in (q, rw n e)
      ]

  -- The rules of a policy, each on its own.
  pub record Passes (p : Policy) (ev : GitEvent) : Type 0 where
    pub requested : (p.pr_only && ev.pr_number == 0) ≡ false
    pub not_denied : matches_any path_match equal_fold p.deny_branches ev.branch ≡ false
    pub is_allowed :
        (is_empty p.allow_branches || matches_any path_match equal_fold p.allow_branches ev.branch)
        ≡ true
    pub has_label :
        (is_empty p.required_labels
          || not ev.labels_known
          || has_any path_match equal_fold p.required_labels ev.labels)
        ≡ true

  -- An event that a deny pattern matches is refused, also where an allow pattern matches it.
  deny_wins :
      (p : Policy) (ev : GitEvent)
      → matches_any path_match equal_fold p.deny_branches ev.branch ≡ true
      → (decide path_match equal_fold p ev).allowed ≡ false
  unfolding decide
  deny_wins p ev h = let (q, e) = first_denied-some ev.branch p.deny_branches h in ground arith

  -- An event is admitted exactly when it passes each of the four rules.
  pub decide_iff :
      (p : Policy) (ev : GitEvent)
      → ((decide path_match equal_fold p ev).allowed ≡ true) ↔ Passes p ev
  unfolding decide
  decide_iff p ev =
      elim (Bool-cases (matches_any path_match equal_fold p.deny_branches ev.branch)) [
        | inl denied ↦
            let (q, e) = first_denied-some ev.branch p.deny_branches denied in
            (λ h. absurd (ground arith), λ h. absurd (cc (h.not_denied, denied)))
        | inr free ↦
            let e = first_denied-eq-none ev.branch p.deny_branches free in
            (
              λ h. record {
                requested = ground arith;
                not_denied = free;
                is_allowed = ground arith;
                has_label = ground arith;
              },
              λ h. ground (arith, h.requested, h.is_allowed, h.has_label),
            )
      ]
