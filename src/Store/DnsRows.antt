-- ===== src/Store/DnsRows.antt =====
-- The operations on dns_records of internal/store/sqlite.go.
use ramify.Prelude.{
  ℕ, String, Bool, not, List, [], ◌∷◌, ◌++◌, some, any, keep, leb, str_eq, if◌then◌else◌,
}
use ramify.Errors.{other}
use ramify.Provider.{Result, ok, err}
use ramify.World.{Exec, Runtime, statement, row_id, wrapped, ◌>>=◌}
use ramify.Store.Types.{DnsRow, Db}
use ramify.Store.Tables.{refers, order_by}

row_is : String → DnsRow → Bool
row_is id row = str_eq row.id id

unfoldable pub insert_dns_row : DnsRow → ℕ → Db → Result DnsRow × Db
unfolding row_is
insert_dns_row rec now d =
    let row = record rec { created_at = now } in
    if any (row_is row.id) d.dns_records
    then (err (other "UNIQUE constraint failed"), d)
    else if refers (some row.environment_id) d.environments
    then (ok row, record d { dns_records = d.dns_records ++ row ∷ [] })
    else (err (other "FOREIGN KEY constraint failed"), d)

unfoldable pub delete_rows : String → ℕ → Db → Result (Unit {0}) × Db
unfolding row_is
delete_rows id now d =
    (ok tt, record d { dns_records = keep (λ row. not (row_is id row)) d.dns_records })

module _ (x : Runtime) where
  unfoldable pub create_dns_record : DnsRow → Exec DnsRow
  unfolding insert_dns_row
  create_dns_record rec =
      wrapped "creating dns record"
        (do id ← row_id x rec.id; statement x (insert_dns_row (record rec { id = id })))

  unfoldable pub list_dns_records : String → Exec (List DnsRow)
  list_dns_records environment_id = wrapped "listing dns records" (
      statement x (λ now d. (
        ok (
            order_by (λ a b. leb a.created_at b.created_at)
              (keep (λ row. str_eq row.environment_id environment_id) d.dns_records)),
        d,
      )))

  unfoldable pub delete_dns_record : String → Exec (Unit {0})
  unfolding delete_rows
  delete_dns_record id = wrapped "deleting dns record" (statement x (delete_rows id))
