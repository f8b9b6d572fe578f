-- ===== src/Store/Frames/Operations.antt =====
-- The lifting of such a relation to the operations of the store.
use ramify.Prelude.{ℕ, String}
use ramify.Errors.{Err}
use ramify.World.{Runtime}
use ramify.World.Moves.{Moves, Moves-if, moves_rules}
use ramify.Store.Types.{Environment, DnsRow, Event}
use ramify.World.Tables.{
  Moves-call, Moves-note, Moves-clock_sleep, Moves-count, Moves-row_id, Moves-statement,
}
use ramify.Store.Frames.{StoreFrame, tables}
use ramify.Store.Environments.{
  create_environment, get_environment, get_environment_by_project_branch, update_environment,
  count_live_environments, list_expired_environments,
}
use ramify.Store.DnsRows.{create_dns_record, list_dns_records, delete_dns_record}
use ramify.Store.Events.{
  create_event, list_due_events, count_dead_lettered_events, claim_event, mark_event_processed,
  mark_event_retry, mark_event_dead_lettered,
}

module _ (f : StoreFrame) (x : Runtime) where
  pub Moves-create_environment : (env : Environment) → Moves (tables f) (create_environment x env)
  unfolding create_environment
  Moves-create_environment env =
      search (moves_rules, Moves-row_id f.base x, Moves-statement f.base x, f.at_insert_environment)
        depth 8

  pub Moves-get_environment : (id : String) → Moves (tables f) (get_environment x id)
  unfolding get_environment
  Moves-get_environment id = search (moves_rules, Moves-statement f.base x, f.read) depth 8

  pub Moves-get_environment_by_project_branch :
      (project branch : String)
      → Moves (tables f) (get_environment_by_project_branch x project branch)
  unfolding get_environment_by_project_branch
  Moves-get_environment_by_project_branch project branch =
      search (moves_rules, Moves-statement f.base x, f.read) depth 8

  pub Moves-update_environment : (env : Environment) → Moves (tables f) (update_environment x env)
  unfolding update_environment
  Moves-update_environment env =
      search (moves_rules, Moves-statement f.base x, f.at_update_environment, Moves-get_environment)
        depth 8

  pub Moves-count_live_environments : Moves (tables f) (count_live_environments x)
  unfolding count_live_environments
  Moves-count_live_environments = search (moves_rules, Moves-statement f.base x, f.read) depth 8

  pub Moves-list_expired_environments : (at : ℕ) → Moves (tables f) (list_expired_environments x at)
  unfolding list_expired_environments
  Moves-list_expired_environments at =
      search (moves_rules, Moves-statement f.base x, f.read) depth 8

  pub Moves-create_dns_record : (rec : DnsRow) → Moves (tables f) (create_dns_record x rec)
  unfolding create_dns_record
  Moves-create_dns_record rec =
      search (moves_rules, Moves-row_id f.base x, Moves-statement f.base x, f.at_insert_dns_row)
        depth 8

  pub Moves-list_dns_records : (id : String) → Moves (tables f) (list_dns_records x id)
  unfolding list_dns_records
  Moves-list_dns_records id = search (moves_rules, Moves-statement f.base x, f.read) depth 8

  pub Moves-delete_dns_record : (id : String) → Moves (tables f) (delete_dns_record x id)
  unfolding delete_dns_record
  Moves-delete_dns_record id =
      search (moves_rules, Moves-statement f.base x, f.at_delete_rows) depth 8

  pub Moves-create_event : (ev : Event) → Moves (tables f) (create_event x ev)
  unfolding create_event
  Moves-create_event ev =
      search
        (
          moves_rules,
          Moves-row_id f.base x,
          Moves-statement f.base x,
          f.at_insert_event,
          Moves-note f.base,
        )
        depth 8

  pub Moves-list_due_events : (at limit : ℕ) → Moves (tables f) (list_due_events x at limit)
  unfolding list_due_events
  Moves-list_due_events at limit = search (moves_rules, Moves-statement f.base x, f.read) depth 8

  pub Moves-count_dead_lettered_events : Moves (tables f) (count_dead_lettered_events x)
  unfolding count_dead_lettered_events
  Moves-count_dead_lettered_events = search (moves_rules, Moves-statement f.base x, f.read) depth 8

  pub Moves-claim_event :
      (id : String) (at until : ℕ) → Moves (tables f) (claim_event x id at until)
  unfolding claim_event
  Moves-claim_event id at until = search (moves_rules, Moves-statement f.base x, f.at_claim) depth 8

  pub Moves-mark_event_processed :
      (id : String) (at : ℕ) → Moves (tables f) (mark_event_processed x id at)
  unfolding mark_event_processed
  Moves-mark_event_processed id at =
      search (moves_rules, Moves-statement f.base x, f.at_process) depth 8

  pub Moves-mark_event_retry :
      (id : String) (at : ℕ) (e : Err) → Moves (tables f) (mark_event_retry x id at e)
  unfolding mark_event_retry
  Moves-mark_event_retry id at e =
      search (moves_rules, Moves-statement f.base x, f.at_retry) depth 8

  pub Moves-mark_event_dead_lettered :
      (id : String) (at : ℕ) (e : Err) → Moves (tables f) (mark_event_dead_lettered x id at e)
  unfolding mark_event_dead_lettered
  Moves-mark_event_dead_lettered id at e =
      search (moves_rules, Moves-statement f.base x, f.at_dead_letter) depth 8

pub ruleset store_rules = (
  moves_rules, Moves-call, Moves-note, Moves-clock_sleep, Moves-count, Moves-create_environment,
  Moves-get_environment, Moves-get_environment_by_project_branch, Moves-update_environment,
  Moves-count_live_environments, Moves-list_expired_environments, Moves-create_dns_record,
  Moves-list_dns_records, Moves-delete_dns_record, Moves-create_event, Moves-list_due_events,
  Moves-claim_event, Moves-mark_event_processed, Moves-mark_event_retry,
  Moves-mark_event_dead_lettered,
)
