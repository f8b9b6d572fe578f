-- ===== src/Tests/Requests.antt =====
-- The theorems on the control API at concrete requests.
use ramify.Prelude.{
  ℕ, zero, suc, String, Option, List, length, ltb, ap, subst, if◌then◌else◌, ◌≡◌, ◌≢◌, refl, true,
  false, none, some, find_first,
}
use ramify.Provider.{ok, err}
use ramify.Cli.{list_environments}
use ramify.Cli.Completeness.{AreInverse, connected, too_many, list_environments_complete}
use ramify.Store.Types.{ready, sleeping}
use ramify.Store.Tables.{event_clash, nullable_string}
use ramify.Api.{empty}
use ramify.Api.Inbox.{handle_webhook}
use ramify.Api.Inbox.Delivery.{Settled, handle_webhook-Settled, delivery_accepted}
use ramify.Api.Listing.Windows.{matching}
use ramify.Store.Paging.{ListOptions}
use ramify.World.{World}
use ramify.Tests.Fixtures.{server, inbox, delivery, delivered_world, world, environment}

handle_webhook-Settled_example :
    Settled "d-1" inbox (world ready) (handle_webhook server (delivery "d-1") inbox (world ready))
handle_webhook-Settled_example = handle_webhook-Settled server (delivery "d-1") inbox (world ready)

delivery_accepted_example :
    (handle_webhook server (delivery "d-2") inbox delivered_world).0.0 ≡ empty 202
unfolding event_clash nullable_string
delivery_accepted_example =
    delivery_accepted server (delivery "d-2") inbox delivered_world refl refl refl refl refl refl
      refl

abbrev every : ListOptions
every = record { project = ""; branch = ""; limit = 0; offset = 0 }

abbrev never_up : World
never_up = record (world sleeping) {
  db = record (world sleeping).db {
    environments =
        ramify.Prelude.◌∷◌ (record (environment sleeping) { last_good_artifact_ref = "" })
          ramify.Prelude.[];
  };
}

abbrev bars : ℕ → String
bars zero = ""
bars (suc n) = String.◌∷◌ "i" (bars n)

abbrev unary : ℕ → String
unary n = String.◌∷◌ "i" (bars n)

abbrev count : String → ℕ
count String.[] = 0
count (String.◌∷◌ c s) = suc (count s)

abbrev read_unary : String → Option ℕ
read_unary String.[] = none
read_unary (String.◌∷◌ c s) = some (count s)

count-bars : (n : ℕ) → count (bars n) ≡ n
count-bars zero = refl
count-bars (suc n) = ap (λ k. suc k) (count-bars n)

unary-AreInverse : AreInverse unary read_unary
unary-AreInverse = record {
  shows = λ n same. subst (λ t. elim (read_unary t) [ none ↦ ⊥ | some k ↦ Unit {0} ]) same tt;
  reads = λ n. ap some (count-bars n);
}

list_environments_complete_example :
    (list_environments (connected server unary read_unary) "" "" (world ready)).0 ≡ (
      let rows = matching every (world ready).db.environments in
      if ltb 100000 (length rows) then err too_many else ok rows)
list_environments_complete_example =
    list_environments_complete server unary read_unary unary-AreInverse (λ n. refl) "" ""
      (world ready)
