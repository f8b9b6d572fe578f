-- ===== src/Store/Transitions/Graph.antt =====
-- The status graph as a relation.
use ramify.Store.Types.{
  Status, pending, deploying, ready, failed, sleeping, destroying, destroyed, degraded,
}

-- Nothing is being done to the environment.
pub data IsAtRest : Status → Type 0 where
  new : IsAtRest pending
  up : IsAtRest ready
  broken : IsAtRest failed
  asleep : IsAtRest sleeping
  gone : IsAtRest destroyed
  rolled_back : IsAtRest degraded

pub data CanFail : Status → Type 0 where
  unstarted : CanFail pending
  in_deploy : CanFail deploying
  serving : CanFail ready
  in_teardown : CanFail destroying

pub data CanTearDown : Status → Type 0 where
  unstarted : CanTearDown pending
  in_deploy : CanTearDown deploying
  serving : CanTearDown ready
  broken : CanTearDown failed
  asleep : CanTearDown sleeping
  gone : CanTearDown destroyed
  rolled_back : CanTearDown degraded

-- One edge for each kind of move of an environment's life.
infix 40 ◌⟶◌
pub data ◌⟶◌ : Status → Status → Type 0 where
  redeploy : {s : Status} → IsAtRest s → s ⟶ deploying
  publish : deploying ⟶ ready
  fall_back : deploying ⟶ degraded
  mark_rolled_back : ready ⟶ degraded
  sleep : ready ⟶ sleeping
  wake : sleeping ⟶ ready
  give_up : {s : Status} → CanFail s → s ⟶ failed
  tear_down : {s : Status} → CanTearDown s → s ⟶ destroying
  finish : destroying ⟶ destroyed
