-- ===== src/Store/Transitions.antt =====
-- The status graph (internal/store/transitions.go).
pub mod Graph
pub mod Soundness
use ramify.Prelude.{
  Bool, true, false, Option, none, some, List, [], ◌∷◌, any, is_some, if◌then◌else◌,
}
use ramify.Errors.{Err, sentinel, wrap, invalid_transition}
use ramify.Store.Types.{
  Status, pending, deploying, ready, failed, sleeping, destroying, destroyed, degraded, unknown,
  same_status,
}

-- A status that is no key of the map has `none`.
unfoldable pub allowed_transitions : Status → Option (List Status)
allowed_transitions pending = some (deploying ∷ destroying ∷ failed ∷ [])
allowed_transitions deploying = some (ready ∷ degraded ∷ failed ∷ destroying ∷ [])
allowed_transitions ready = some (deploying ∷ sleeping ∷ destroying ∷ failed ∷ degraded ∷ [])
allowed_transitions failed = some (deploying ∷ destroying ∷ [])
allowed_transitions sleeping = some (deploying ∷ ready ∷ destroying ∷ [])
allowed_transitions destroying = some (destroyed ∷ failed ∷ [])
allowed_transitions destroyed = some (deploying ∷ destroying ∷ [])
allowed_transitions degraded = some (deploying ∷ destroying ∷ [])
allowed_transitions (unknown s) = none

listed : Status → Option (List Status) → Bool
listed to none = false
listed to (some nexts) = any (λ allowed. same_status allowed to) nexts

unfoldable pub can_transition : Status → Status → Bool
unfolding allowed_transitions same_status listed
can_transition from to =
    if same_status from to
    then is_some (allowed_transitions from)
    else listed to (allowed_transitions from)

unfoldable pub validate_transition : Status → Status → Option Err
unfolding can_transition
validate_transition from to =
    if can_transition from to
    then none
    else some (wrap "invalid move" (sentinel invalid_transition))
