-- ===== src/Core/Readiness/Termination.antt =====
-- The loop of waitUntilHealthy (internal/core/reconciler.go).
use ramify.Prelude.{
  ℕ, zero, suc, ◌+◌, ◌*◌, ◌/◌, ◌≤◌, ◌<◌, String, ◌≡◌, ◌≢◌, ◌⊎◌, refl, true, false, none, some, List,
  ◌∷◌, arith, ltb, Bool-cases, Option-cases, inl, inr,
}
use native.Mathlib.Nat.{div-add-mod, mod-lt}
use ramify.Errors.{Err, wrap, other}
use ramify.World.Steps.{Result-cases}
use ramify.Provider.{ok, err}
use ramify.World.{
  World, Call, health_checked, pure, read_clock, clock_sleep, context_error, wrapped, call, ◌>>=◌,
  ◌>>◌,
}
use ramify.Core.Reconciler.{Reconciler, health_check}
use ramify.Core.Readiness.{poll, poll_fuel, wait_until_healthy, unless_cancelled, finished}

module _ (r : Reconciler) (deadline : ℕ) (ref : String) where
  -- what the world is after an unhealthy report and a sleep
  abbrev next_round : World → World
  next_round w = record w {
    journal = health_checked ref false ∷ w.journal;
    calls = suc w.calls;
    now = w.now + r.runtime.elapsed w.calls + r.readiness_poll_interval;
  }

  -- One round of the loop: it returns an error, or it reports a healthy deployment, or it goes on.
  round :
      (fuel : ℕ) (w : World)
      → ((e : Err) × ((poll r (suc fuel) deadline ref w).0 ≡ err e))
        ⊎ (((poll r (suc fuel) deadline ref w).0 ≡ ok (some tt))
            × ((poll r (suc fuel) deadline ref w).1.journal ≡ health_checked ref true ∷ w.journal))
        ⊎ ((w.now < deadline)
            × (poll r (suc fuel) deadline ref w ≡ poll r fuel deadline ref (next_round w)))
  unfolding poll unless_cancelled context_error health_check call wrapped ◌>>=◌ ◌>>◌ read_clock
      clock_sleep pure
  round fuel w = elim (Option-cases (r.runtime.cancelled w.calls)) [
    | inr (e, stopped) ↦ inl (e, ground arith)
    | inl running ↦ elim (Result-cases (r.deploy.health_check w.calls ref)) [
      | inr (e, failed) ↦ inl (wrap "health check" e, ground arith)
      | inl (status, asked) ↦ elim (Bool-cases status.healthy) [
        | inl healthy ↦ inr (inl (ground arith, ground arith))
        | inr waiting ↦ elim (Bool-cases (ltb (w.now + r.runtime.elapsed w.calls) deadline)) [
          | inl early ↦ inr (inr (ground arith, rw running (rw asked (rw waiting (rw early refl)))))
          | inr late ↦ inl (other "readiness timed out", ground arith)
        ]
      ]
    ]
  ]

  poll_ends :
      (fuel : ℕ) (w : World)
      → deadline + r.readiness_poll_interval ≤ w.now + fuel * r.readiness_poll_interval
      → 0 < fuel
      → 0 < r.readiness_poll_interval
      → (poll r fuel deadline ref w).0 ≢ ok none
  poll_ends zero w h f i = absurd (omega arith)
  poll_ends (suc fuel) w h f i = elim (round fuel w) [
    | inl (e, failed) ↦ λ out. cc (failed, out)
    | inr (inl (up, seen)) ↦ λ out. cc (up, out)
    | inr (inr (early, again)) ↦ λ out.
        poll_ends fuel (next_round w) (omega arith) (positive fuel early h) i (rw again at out)
  ]
    where
      positive :
          (k : ℕ)
          → w.now < deadline
          → deadline + r.readiness_poll_interval ≤ w.now + suc k * r.readiness_poll_interval
          → 0 < k
      positive zero p q = absurd (omega arith)
      positive (suc k) p q = omega arith

  poll_healthy :
      (fuel : ℕ) (w : World) {u : Unit {0}}
      → (poll r fuel deadline ref w).0 ≡ ok (some u)
      → (older : List Call) × ((poll r fuel deadline ref w).1.journal
          ≡ health_checked ref true ∷ older)
  poll_healthy zero w h = absurd (unfold poll pure in ground arith)
  poll_healthy (suc fuel) w h = elim (round fuel w) [
    | inl (e, failed) ↦ absurd (cc (failed, h))
    | inr (inl (up, seen)) ↦ (w.journal, seen)
    | inr (inr (early, again)) ↦ rw again (poll_healthy fuel (next_round w) (rw again at h))
  ]

div_fuel :
    (timeout interval : ℕ) → 0 < interval → timeout + interval ≤ (timeout / interval + 2) * interval
div_fuel timeout interval h =
    grind (arith, div-add-mod timeout interval, mod-lt timeout {m = interval} h)

module _ (r : Reconciler) (ref : String) (w : World) where
  -- Where the poll interval is positive, the fuel of the loop is enough: it does not run out.
  pub poll_fuel_suffices :
      0 < r.readiness_poll_interval
      → (poll r (poll_fuel r) (w.now + r.readiness_timeout) ref w).0 ≢ ok none
  unfolding poll_fuel
  poll_fuel_suffices h =
      poll_ends r (w.now + r.readiness_timeout) ref _ w
        (omega (arith, div_fuel r.readiness_timeout r.readiness_poll_interval h)) (omega arith) h

  -- The wait succeeds only if its last call was a health check that reported the deployment
  -- healthy.
  pub wait_healthy :
      {u : Unit {0}}
      → (wait_until_healthy r ref w).0 ≡ ok u
      → (older : List Call) × ((wait_until_healthy r ref w).1.journal
          ≡ health_checked ref true ∷ older)
  unfolding wait_until_healthy finished ◌>>=◌ read_clock pure
  wait_healthy h =
      elim (Result-cases (poll r (poll_fuel r) (w.now + r.readiness_timeout) ref w).0) [
        | inl (some u, done) ↦
            let (older, seen) =
              poll_healthy r (w.now + r.readiness_timeout) ref (poll_fuel r) w done in
            (older, ground (arith, done, seen))
        | inl (none, out) ↦ absurd (ground (arith, out))
        | inr (e, failed) ↦ absurd (ground (arith, failed))
      ]
