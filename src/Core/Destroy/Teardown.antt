-- ===== src/Core/Destroy/Teardown.antt =====
-- The steps of doDestroy before its last one, and the tables (internal/core/reconciler.go).
use ramify.Prelude.{
  ℕ, String, ◌≡◌, refl, ◌∙◌, Bool, true, false, Option, none, some, List, [], ◌∷◌, ◌++◌, str_eq,
  if◌then◌else◌,
}
use ramify.Provider.{Result}
use ramify.World.{World}
use ramify.World.Moves.{Moves, Moves-pure, Moves-bind, moves_rules}
use ramify.World.Tables.{TableFrame, on_tables, Moves-call, Moves-statement}
use ramify.Store.Types.{Db, Environment, DnsRow}
use ramify.Store.DnsRows.{list_dns_records, delete_dns_record, delete_rows}
use ramify.Core.Reconciler.{
  Reconciler, delete_record, revoke_certificate, remove_certificate, remove_with, deploy_destroy,
}
use ramify.Core.Destroy.{
  tear_down_record, tear_down_records, listed_rows, destroy_deployment, tear_down,
}

-- The environments and the event log stay.
abbrev others : TableFrame
others = record {
  rel = λ p d p' d'. (d.environments ≡ d'.environments) × (d.events ≡ d'.events);
  stay = λ p d. (refl, refl);
  read = λ p d. (refl, refl);
  chain = λ p c q d t e g h. (g.0 ∙ h.0, g.1 ∙ h.1);
}

deleting :
    (id : String) (p : List Db) (now : ℕ) (d : Db) → others.rel p d (d ∷ p) (delete_rows id now d).1
unfolding delete_rows
deleting id p now d = (refl, refl)

module _ (r : Reconciler) where
  list_dns_records-stays : (id : String) → Moves (on_tables others) (list_dns_records r.runtime id)
  unfolding list_dns_records
  list_dns_records-stays id =
      search (moves_rules, Moves-statement others r.runtime, others.read) depth 8

  delete_dns_record-stays :
      (id : String) → Moves (on_tables others) (delete_dns_record r.runtime id)
  unfolding delete_dns_record
  delete_dns_record-stays id =
      search (moves_rules, Moves-statement others r.runtime, deleting) depth 8

  tear_down_record-stays : (row : DnsRow) → Moves (on_tables others) (tear_down_record r row)
  unfolding tear_down_record delete_record
  tear_down_record-stays row =
      search (moves_rules, Moves-call others, delete_dns_record-stays) depth 8

  tear_down_records-stays :
      (rows : List DnsRow) → Moves (on_tables others) (tear_down_records r rows)
  unfolding tear_down_records
  tear_down_records-stays [] = Moves-pure []
  tear_down_records-stays (row ∷ rows) =
      Moves-bind _ _ (tear_down_record-stays row)
        (λ here. Moves-bind _ _ (tear_down_records-stays rows) (λ later. Moves-pure _))

  listed_rows-stays : (id : String) → Moves (on_tables others) (listed_rows r id)
  unfolding listed_rows
  listed_rows-stays id = search (moves_rules, list_dns_records-stays) depth 8

  revoke-stays : (name : String) → Moves (on_tables others) (revoke_certificate r name)
  unfolding revoke_certificate
  revoke-stays name = Moves-call others _ _ _

  remove_with-stays :
      (o : Option (ℕ → String → Result (Unit {0}))) (name : String)
      → Moves (on_tables others) (remove_with r o name)
  unfolding remove_with
  remove_with-stays none name = Moves-pure tt
  remove_with-stays (some remove) name = Moves-call others _ _ _

  remove-stays : (name : String) → Moves (on_tables others) (remove_certificate r name)
  unfolding remove_certificate
  remove-stays name = remove_with-stays r.deploy.remove_certificate name

  destroy_deployment-stays :
      (env : Environment) → Moves (on_tables others) (destroy_deployment r env)
  unfolding destroy_deployment deploy_destroy
  destroy_deployment-stays env = search (moves_rules, Moves-call others) depth 8

  tear_down-Moves : (env : Environment) → Moves (on_tables others) (tear_down r env)
  unfolding tear_down
  tear_down-Moves env =
      search
        (
          moves_rules, listed_rows-stays, tear_down_records-stays, revoke-stays, remove-stays,
          destroy_deployment-stays,
        )
        depth 14

  pub tear_down-stays :
      (env : Environment) (w : World)
      → ((tear_down r env w).1.db.environments ≡ w.db.environments)
        × ((tear_down r env w).1.db.events ≡ w.db.events)
  tear_down-stays env w =
      let (p, q) = (tear_down-Moves env).at w in (ramify.Prelude.sym p, ramify.Prelude.sym q)
