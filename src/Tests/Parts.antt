-- ===== src/Tests/Parts.antt =====
-- The theorems on the store, the policy, names, errors and delays at concrete inputs.
use ramify.Prelude.{◌≡◌, ◌⊎◌, refl, true, false, some, [], ◌∷◌, arith, ◌↔◌, str_eq, keep}
use ramify.Provider.{ok}
use ramify.Store.Types.{ready, sleeping}
use ramify.Store.Transitions
use ramify.Store.Transitions.Graph.{◌⟶◌}
use ramify.Store.Transitions.Soundness.{can_transition_sound}
use ramify.Tests.Runs.{first_claim}
use ramify.Store.Events.{claim_event}
use ramify.Store.Claims.{claim_exclusive}
use ramify.Domain.{normalize}
use ramify.Domain.Normal.{IsLabel, normalize-IsLabel}
use ramify.Policy.{decide}
use ramify.Policy.Decisions.{Passes, decide_iff}
use ramify.Tests.Fixtures.{reconciler, world, push, runtime}

can_transition_sound_example : (ready ≡ sleeping) ⊎ (ready ⟶ sleeping)
unfolding ramify.Store.Transitions.can_transition
can_transition_sound_example = can_transition_sound ready sleeping refl

claim_exclusive_example :
    (claim_event runtime "event" 1500 3000
      (claim_event runtime "event" 1001 2000 (world ready)).1).0
    ≡ ok false
unfolding ramify.Store.Events.event_is keep
claim_exclusive_example =
    claim_exclusive runtime "event" 1001 2000 1500 3000 (world ready)
      (claim_event runtime "event" 1001 2000 (world ready)).1 refl (omega arith) first_claim refl
      refl

-- the hash of the fixture
short : IsLabel 63 (
    ramify.Domain.short_hash
      (λ c. c)
      (λ s. 97 ∷ 98 ∷ 99 ∷ 49 ∷ 50 ∷ 51 ∷ 52 ∷ [])
      (70 ∷ 47 ∷ 95 ∷ 88 ∷ []))
unfolding ramify.Domain.short_hash ramify.Domain.is_label_char
short = record {
  chars = (refl, (refl, (refl, (refl, (refl, (refl, tt))))));
  nonempty = omega arith;
  first = refl;
  last = refl;
  bounded = omega arith;
}

normalize-IsLabel_example :
    IsLabel 63
      (normalize (λ c. c) (λ s. 97 ∷ 98 ∷ 99 ∷ 49 ∷ 50 ∷ 51 ∷ 52 ∷ []) (70 ∷ 47 ∷ 95 ∷ 88 ∷ []) 63)
normalize-IsLabel_example =
    normalize-IsLabel (λ c. c) (λ s. 97 ∷ 98 ∷ 99 ∷ 49 ∷ 50 ∷ 51 ∷ 52 ∷ []) (70 ∷ 47 ∷ 95 ∷ 88 ∷ [])
      63 short

decide_iff_example :
    ((decide
        (λ pattern name. some (str_eq pattern name))
        str_eq
        (reconciler true true).policy
        (push "main")).allowed
      ≡ true)
    ↔ Passes
        (λ pattern name. some (str_eq pattern name))
        str_eq
        (reconciler true true).policy
        (push "main")
decide_iff_example =
    decide_iff (λ pattern name. some (str_eq pattern name)) str_eq (reconciler true true).policy
      (push "main")
