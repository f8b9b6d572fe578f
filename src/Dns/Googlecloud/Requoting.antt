-- ===== src/Dns/Googlecloud/Requoting.antt =====
-- The TXT values at a name in Google Cloud DNS, as they are read back.
use ramify.Prelude.{false, ◌≡◌, refl, ap, some, List, [], ◌∷◌, ◌++◌, map}
use ramify.Provider.{ok}
use ramify.Dns.Client.{◌>>=◌, follow}
use ramify.Dns.Googlecloud.{
  ResourceRecordSet, CloudDns, contains, vals, plain, records, next_set, ensure_text, ensure_record,
  rrdatas_of,
}
use ramify.Dns.Texts.{Text, Request, txt, untxt, untxt-txt}

plain-txt : (values : List Text) → map untxt (map txt values) ≡ values
plain-txt [] = refl
plain-txt (v ∷ values) = rw (untxt-txt v) (ap (λ rest. v ∷ rest) (plain-txt values))

module _ {S : Type 0} (service : CloudDns S) (rec : Request) (s : S) (set : ResourceRecordSet) where
  -- Where a TXT set is found at the name and the value of a TXT record is not in it, EnsureRecord
  -- replaces the set by one that reads back as the earlier values with their quotes and escapes as
  -- the host holds them, in place of the values that they stand for, and the new value.
  pub ensure_record-requotes :
      rec.record_type ≡ "TXT"
      → (records service rec.name "TXT" s).0 ≡ ok (some set)
      → contains set.rrdatas rec.value ≡ false
      → (ws : List Text) × (ensure_record service rec s
          ≡ service.create_change
              (some set)
              (some (next_set rec "TXT" ws))
              (records service rec.name "TXT" s).1)
        × (plain ws ≡ set.rrdatas ++ rec.value ∷ [])
  unfolding ensure_record ensure_text ◌>>=◌ follow vals rrdatas_of plain
  ensure_record-requotes text answer new = (
    map txt (set.rrdatas ++ rec.value ∷ []),
    rw text (rw answer (rw new refl)),
    plain-txt (set.rrdatas ++ rec.value ∷ []),
  )
