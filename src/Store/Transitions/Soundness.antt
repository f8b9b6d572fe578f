-- ===== src/Store/Transitions/Soundness.antt =====
-- The map of internal/store/transitions.go against the graph.
use ramify.Prelude.{◌≡◌, ◌⊎◌, inl, inr, refl, true, none, arith}
use ramify.Store.Types.{
  Status, pending, deploying, ready, failed, sleeping, destroying, destroyed, degraded, unknown,
}
use ramify.Store.Transitions.{can_transition, validate_transition}
use ramify.Store.Transitions.Graph.{
  ◌⟶◌, IsAtRest, up, CanFail, CanTearDown, redeploy, publish, fall_back, mark_rolled_back, sleep,
  wake, give_up, tear_down, finish,
}

-- A move that the store accepts is no move, or an edge of the graph.
pub can_transition_sound : (s t : Status) → can_transition s t ≡ true → (s ≡ t) ⊎ (s ⟶ t)
unfolding can_transition
can_transition_sound pending pending h = inl refl
can_transition_sound pending deploying h = inr (redeploy IsAtRest.new)
can_transition_sound pending destroying h = inr (tear_down CanTearDown.unstarted)
can_transition_sound pending failed h = inr (give_up CanFail.unstarted)
can_transition_sound deploying deploying h = inl refl
can_transition_sound deploying ready h = inr publish
can_transition_sound deploying degraded h = inr fall_back
can_transition_sound deploying failed h = inr (give_up CanFail.in_deploy)
can_transition_sound deploying destroying h = inr (tear_down CanTearDown.in_deploy)
can_transition_sound ready ready h = inl refl
can_transition_sound ready deploying h = inr (redeploy up)
can_transition_sound ready sleeping h = inr sleep
can_transition_sound ready destroying h = inr (tear_down CanTearDown.serving)
can_transition_sound ready failed h = inr (give_up CanFail.serving)
can_transition_sound ready degraded h = inr mark_rolled_back
can_transition_sound failed failed h = inl refl
can_transition_sound failed deploying h = inr (redeploy IsAtRest.broken)
can_transition_sound failed destroying h = inr (tear_down CanTearDown.broken)
can_transition_sound sleeping sleeping h = inl refl
can_transition_sound sleeping deploying h = inr (redeploy IsAtRest.asleep)
can_transition_sound sleeping ready h = inr wake
can_transition_sound sleeping destroying h = inr (tear_down CanTearDown.asleep)
can_transition_sound destroying destroying h = inl refl
can_transition_sound destroying destroyed h = inr finish
can_transition_sound destroying failed h = inr (give_up CanFail.in_teardown)
can_transition_sound destroyed destroyed h = inl refl
can_transition_sound destroyed deploying h = inr (redeploy IsAtRest.gone)
can_transition_sound destroyed destroying h = inr (tear_down CanTearDown.gone)
can_transition_sound degraded degraded h = inl refl
can_transition_sound degraded deploying h = inr (redeploy IsAtRest.rolled_back)
can_transition_sound degraded destroying h = inr (tear_down CanTearDown.rolled_back)
can_transition_sound (unknown s) (unknown t) h = ground arith
can_transition_sound s t h = ground arith

-- Every edge of the graph is a move that the store accepts.
pub can_transition_complete : {s t : Status} → s ⟶ t → can_transition s t ≡ true
unfolding can_transition
can_transition_complete (redeploy IsAtRest.new) = refl
can_transition_complete (tear_down CanTearDown.unstarted) = refl
can_transition_complete (give_up CanFail.unstarted) = refl
can_transition_complete publish = refl
can_transition_complete fall_back = refl
can_transition_complete (give_up CanFail.in_deploy) = refl
can_transition_complete (tear_down CanTearDown.in_deploy) = refl
can_transition_complete (redeploy up) = refl
can_transition_complete sleep = refl
can_transition_complete (tear_down CanTearDown.serving) = refl
can_transition_complete (give_up CanFail.serving) = refl
can_transition_complete mark_rolled_back = refl
can_transition_complete (redeploy IsAtRest.broken) = refl
can_transition_complete (tear_down CanTearDown.broken) = refl
can_transition_complete (redeploy IsAtRest.asleep) = refl
can_transition_complete wake = refl
can_transition_complete (tear_down CanTearDown.asleep) = refl
can_transition_complete finish = refl
can_transition_complete (give_up CanFail.in_teardown) = refl
can_transition_complete (redeploy IsAtRest.gone) = refl
can_transition_complete (tear_down CanTearDown.gone) = refl
can_transition_complete (redeploy IsAtRest.rolled_back) = refl
can_transition_complete (tear_down CanTearDown.rolled_back) = refl

-- A write that the store accepts leaves the status or moves it along one edge.
pub move_of_write : (s t : Status) → validate_transition s t ≡ none → (s ≡ t) ⊎ (s ⟶ t)
unfolding validate_transition
move_of_write s t h = can_transition_sound s t (ground arith)
