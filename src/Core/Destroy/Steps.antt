-- ===== src/Core/Destroy/Steps.antt =====
-- The steps that doDestroy of internal/core/reconciler.go has to carry out, apart from the errors that
-- it collects.
use ramify.Prelude.{
  String, ◌≡◌, refl, ap, sym, subst, ◌∙◌, ◌⊎◌, inl, inr, true, false, List, [], ◌∷◌, ◌++◌, str_eq,
  eq_iff, Bool-cases, arith,
}
use ramify.Errors.{Err, is, record_already_absent, wrap}
use ramify.Provider.{Result, ok, err}
use ramify.World.Steps.{bind_ok, bind_err, catch_ok, catch_err, Result-cases}
use ramify.World.{World, Exec, pure, catch, ◌>>=◌}
use ramify.Store.Types.{Environment, DnsRow}
use ramify.Store.DnsRows.{list_dns_records, delete_dns_record}
use ramify.Core.Reconciler.{
  Reconciler, fqdn, delete_record, revoke_certificate, remove_certificate, deploy_destroy,
}
use ramify.Core.Destroy.{
  collect, provider_record, drop_row, tear_down_record, tear_down_records, listed_rows,
  destroy_deployment, tear_down,
}

module _ (r : Reconciler) where
  -- The record is deleted at the DNS host, or absent there, and then its row is deleted.
  pub data RecordGone (row : DnsRow) (u w : World) : Type 0 where
    deleted :
        (v : World)
        → delete_record r (provider_record r row) u ≡ (ok tt, v)
        → delete_dns_record r.runtime row.id v ≡ (ok tt, w)
        → RecordGone row u w
    absent :
        (v : World) (e : Err)
        → delete_record r (provider_record r row) u ≡ (err e, v)
        → is e record_already_absent ≡ true
        → delete_dns_record r.runtime row.id v ≡ (ok tt, w)
        → RecordGone row u w

  pub data RecordsGone : List DnsRow → World → World → Type 0 where
    no_more : {w : World} → RecordsGone [] w w
    gone :
        {row : DnsRow} {rows : List DnsRow} {u v w : World}
        → RecordGone row u v
        → RecordsGone rows v w
        → RecordsGone (row ∷ rows) u w

  -- Every step of the teardown succeeds, one after the other: the rows of the environment's records
  -- are read, each record goes, the certificate is revoked and removed, and the deployment, if there
  -- is one, is destroyed.
  pub record TornDown (env : Environment) (w w' : World) : Type 0 where
    pub rows : List DnsRow
    pub listed : World
    pub unrecorded : World
    pub revoked : World
    pub removed : World
    pub lists : list_dns_records r.runtime env.id w ≡ (ok rows, listed)
    pub records : RecordsGone rows listed unrecorded
    pub revokes : revoke_certificate r (fqdn r env.subdomain) unrecorded ≡ (ok tt, revoked)
    pub removes : remove_certificate r (fqdn r env.subdomain) revoked ≡ (ok tt, removed)
    pub destroys :
        ((env.deploy_ref ≡ "") × (w' ≡ removed))
        ⊎ (deploy_destroy r env.deploy_ref removed ≡ (ok tt, w'))

ok-injective : {A : Type 0} {a b : A} → ok a ≡ ok b → a ≡ b
ok-injective h = ground arith

append-nil : {A : Type 0} (xs ys : List A) → (xs ++ ys) ≡ [] → (xs ≡ []) × (ys ≡ [])
append-nil [] ys h = (refl, h)
append-nil (x ∷ xs) ys h = absurd (ground arith)

pair : {A : Type 0} (m : Exec A) (w : World) {o : Result A} → (m w).0 ≡ o → m w ≡ (o, (m w).1)
pair m w h = ap (λ o. (o, (m w).1)) h

-- Where a sequence returns a value, its first part does, and the rest goes on from there.
bind-split :
    {A B : Type 0} (m : Exec A) (f : A → Exec B) (w w' : World) (b : B)
    → (m >>= f) w ≡ (ok b, w')
    → (a : A) × (v : World) × (m w ≡ (ok a, v)) × (f a v ≡ (ok b, w'))
bind-split m f w w' b h = elim (Result-cases (m w).0) [
  | inl (a, done) ↦ (a, (m w).1, pair m w done, sym (bind_ok m f w done) ∙ h)
  | inr (e, failed) ↦
      let none_left : err e ≡ ok b = ap (λ o. o.0) (sym (bind_err m f w failed) ∙ h) in
      absurd (ground arith)
]

pure-split : {A : Type 0} {a b : A} {v w' : World} → pure a v ≡ (ok b, w') → (a ≡ b) × (v ≡ w')
unfolding pure
pure-split h = (ok-injective (ap (λ o. o.0) h), ap (λ o. o.1) h)

-- Nothing was collected.
collect-clean :
    (text : String) (m : Exec (Unit {0})) (w : World)
    → (collect text m w).0 ≡ ok []
    → m w ≡ (ok tt, (collect text m w).1)
unfolding catch pure
collect-clean text m w h = elim (Result-cases (m w).0) [
  | inl (a, done) ↦
      pair m w done
      ∙ ap (λ s. (ok tt, s))
          (ap (λ o. o.1) (sym (catch_ok m (λ _. pure []) (λ e. pure (wrap text e ∷ [])) w done)))
  | inr (e, failed) ↦
      absurd (ground (arith, catch_err m (λ _. pure []) (λ e. pure (wrap text e ∷ [])) w failed))
]

module _ (r : Reconciler) where
  drop_row-clean :
      (row : DnsRow) (w : World)
      → (drop_row r row w).0 ≡ ok []
      → delete_dns_record r.runtime row.id w ≡ (ok tt, (drop_row r row w).1)
  unfolding drop_row
  drop_row-clean row w h = collect-clean _ _ w h

  module _ (row : DnsRow) (w : World) where
    abbrev deletion : Exec (Unit {0})
    deletion = delete_record r (provider_record r row)

    abbrev after : World
    after = (deletion w).1

    record-deleted :
        {u : Unit {0}} → (deletion w).0 ≡ ok u → tear_down_record r row w ≡ drop_row r row after
    unfolding tear_down_record
    record-deleted done = catch_ok deletion _ _ w done

    record-absent :
        {e : Err}
        → (deletion w).0 ≡ err e
        → is e record_already_absent ≡ true
        → tear_down_record r row w ≡ drop_row r row after
    unfolding tear_down_record
    record-absent failed none_there = catch_err deletion _ _ w failed ∙ rw none_there refl

    record-left :
        {e : Err}
        → (deletion w).0 ≡ err e
        → is e record_already_absent ≡ false
        → tear_down_record r row w ≡ (ok (wrap "deleting dns record" e ∷ []), after)
    unfolding tear_down_record pure
    record-left failed stays = catch_err deletion _ _ w failed ∙ rw stays refl

    record-clean :
        (tear_down_record r row w).0 ≡ ok [] → RecordGone r row w (tear_down_record r row w).1
    record-clean h = elim (Result-cases (deletion w).0) [
      | inl (u, done) ↦
          let ran = record-deleted done in
          rw ran (deleted after (pair deletion w done) (drop_row-clean row after (rw ran at h)))
      | inr (e, failed) ↦ elim (Bool-cases (is e record_already_absent)) [
        | inl none_there ↦
            let ran = record-absent failed none_there in
            rw ran (
              absent after e (pair deletion w failed) none_there
                (drop_row-clean row after (rw ran at h)))
        | inr stays ↦ absurd (ground (arith, record-left failed stays))
      ]
    ]

  record-gone :
      (row : DnsRow) (w w' : World) → tear_down_record r row w ≡ (ok [], w') → RecordGone r row w w'
  record-gone row w w' h =
      subst (λ s. RecordGone r row w s) (ap (λ o. o.1) h) (record-clean row w (ap (λ o. o.0) h))

  records-gone :
      (rows : List DnsRow) (w w' : World)
      → tear_down_records r rows w ≡ (ok [], w')
      → RecordsGone r rows w w'
  unfolding tear_down_records
  records-gone [] w w' h = subst (λ s. RecordsGone r [] w s) (pure-split h).1 no_more
  records-gone (row ∷ rows) w w' h =
      let (here, v, first, rest) = bind-split _ _ w w' [] h in
      let (later, t, second, last) = bind-split _ _ v w' [] rest in
      let (both, same) = pure-split last in
      let (no_here, no_later) = append-nil here later both in
      gone (record-gone row w v (first ∙ ap (λ l. (ok l, v)) no_here)) (
        records-gone rows v w'
          (second ∙ (ap (λ l. (ok l, t)) no_later ∙ ap (λ s. (ok [], s)) same)))

  listed-rows :
      (id : String) (w w' : World) (rows : List DnsRow) (errs : List Err)
      → listed_rows r id w ≡ (ok (rows, errs), w')
      → errs ≡ []
      → list_dns_records r.runtime id w ≡ (ok rows, w')
  unfolding listed_rows
  listed-rows id w w' rows errs h clean =
      let m = list_dns_records r.runtime id in
      elim (Result-cases (m w).0) [
        | inl (found, done) ↦
            let ran = pure-split (
              sym (
                catch_ok m (λ x. pure (x, [])) (λ e. pure ([], wrap "listing dns records" e ∷ [])) w
                  done)
              ∙ h) in
            pair m w done ∙ (ap (λ p. (ok p.0, (m w).1)) ran.0 ∙ ap (λ s. (ok rows, s)) ran.1)
        | inr (e, failed) ↦
            let ran = pure-split (
              sym (
                catch_err m (λ x. pure (x, [])) (λ e. pure ([], wrap "listing dns records" e ∷ []))
                  w failed)
              ∙ h) in
            let one : wrap "listing dns records" e ∷ [] ≡ [] = ap (λ p. p.1) ran.0 ∙ clean in
            absurd (ground arith)
      ]

  collect-done :
      (text : String) (m : Exec (Unit {0})) (w w' : World)
      → collect text m w ≡ (ok [], w')
      → m w ≡ (ok tt, w')
  collect-done text m w w' h =
      collect-clean text m w (ap (λ o. o.0) h) ∙ ap (λ s. (ok tt, s)) (ap (λ o. o.1) h)

  deployment-gone :
      (env : Environment) (w w' : World)
      → destroy_deployment r env w ≡ (ok [], w')
      → ((env.deploy_ref ≡ "") × (w' ≡ w)) ⊎ (deploy_destroy r env.deploy_ref w ≡ (ok tt, w'))
  unfolding destroy_deployment
  deployment-gone env w w' h = elim (Bool-cases (str_eq env.deploy_ref "")) [
    | inl none_there ↦
        let stayed = pure-split {a = []} (rw none_there at h) in
        inl ((eq_iff env.deploy_ref "").0 none_there, sym stayed.1)
    | inr there ↦ inr (collect-done _ _ w w' (rw there at h))
  ]

  -- Where the teardown collects no error, every step succeeded.
  pub tear_down-TornDown :
      (env : Environment) (w w' : World) → tear_down r env w ≡ (ok [], w') → TornDown r env w w'
  unfolding tear_down
  tear_down-TornDown env w w' h =
      let (listed, w1, e1, h1) = bind-split _ _ w w' [] h in
      let (records, w2, e2, h2) = bind-split _ _ w1 w' [] h1 in
      let (revoked, w3, e3, h3) = bind-split _ _ w2 w' [] h2 in
      let (removed, w4, e4, h4) = bind-split _ _ w3 w' [] h3 in
      let (destroyed, w5, e5, h5) = bind-split _ _ w4 w' [] h4 in
      let (all, same) = pure-split h5 in
      let (no_listed, rest1) = append-nil listed.1 _ all in
      let (no_records, rest2) = append-nil records _ rest1 in
      let (no_revoked, rest3) = append-nil revoked _ rest2 in
      let (no_removed, no_gone) = append-nil removed destroyed rest3 in
      record {
        rows = listed.0;
        listed = w1;
        unrecorded = w2;
        revoked = w3;
        removed = w4;
        lists = listed-rows env.id w w1 listed.0 listed.1 e1 no_listed;
        records = records-gone listed.0 w1 w2 (e2 ∙ ap (λ l. (ok l, w2)) no_records);
        revokes = collect-done _ _ w2 w3 (e3 ∙ ap (λ l. (ok l, w3)) no_revoked);
        removes = collect-done _ _ w3 w4 (e4 ∙ ap (λ l. (ok l, w4)) no_removed);
        destroys =
            deployment-gone env w4 w'
              (e5 ∙ (ap (λ l. (ok l, w5)) no_gone ∙ ap (λ s. (ok [], s)) same));
      }
