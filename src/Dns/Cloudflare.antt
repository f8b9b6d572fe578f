-- ===== src/Dns/Cloudflare.antt =====
-- The Cloudflare provider: providers/dns/cloudflare/cloudflare.go.
pub mod Deletion
pub mod Outcome
pub mod Ownership
pub mod Refusals
use ramify.Prelude.{
  String, Bool, true, false, Option, none, some, List, [], ◌∷◌, any, find_first, if◌then◌else◌,
  str_eq,
}
use ramify.Errors.{Err, other, wrap, permanent_error}
use ramify.Provider.{ok, DnsRecord}
use ramify.Dns.Client.{Act, pure, raise, wrapped, ◌>>=◌, ◌>>◌, ZoneRecord, Zone, has_content, is_at}

abbrev pub ownership_mismatch : Err
ownership_mismatch = permanent_error (other "cloudflare: ownership tag mismatch, refusing delete")

abbrev pub unmanaged_record : Err
unmanaged_record = permanent_error (other "cloudflare: unmanaged record collision")

-- The host's `ZoneIDByName`, and the zone with an identifier.
pub record CloudflareClient (S : Type 0) : Type 0 where
  pub zone_id_by_name : String → Act S String
  pub zone_of : String → Zone S

-- The cache of zone identifiers, and what is behind the client.
pub record Memory (S : Type 0) : Type 0 where
  pub zone_id_cache : List (String × String)
  pub outside : S

abbrev is_zone : String → String × String → Bool
is_zone zone entry = str_eq entry.0 zone

-- `txtByName` at a name: of several TXT records the last one is kept.
unfoldable pub text_at : String → List ZoneRecord → Option String
text_at name [] = none
text_at name (r ∷ rest) =
    let later = text_at name rest in
    elim later [
      | some text ↦ some text
      | none ↦ if is_at name "TXT" r then some r.content else none
    ]

unfoldable pub managed_as : String → ZoneRecord → Option String → List DnsRecord → List DnsRecord
managed_as zone r none rest = rest
managed_as zone r (some tag) rest =
    record {
      zone = zone;
      name = r.name;
      record_type = r.record_type;
      value = r.content;
      ownership_tag = tag;
    }
    ∷ rest

unfoldable pub managed : String → List ZoneRecord → List ZoneRecord → List DnsRecord
unfolding managed_as text_at
managed zone all [] = []
managed zone all (r ∷ rest) =
    let later = managed zone all rest in
    if str_eq r.record_type "TXT" then later else managed_as zone r (text_at r.name all) later

unfoldable pub owner_content : DnsRecord → String
owner_content rec = if str_eq rec.record_type "TXT" then rec.value else rec.ownership_tag

module _ {S : Type 0} where
  unfoldable pub on_host : {A : Type 0} → Act S A → Act (Memory S) A
  on_host m s = let (r, t) = m s.outside in (r, record s { outside = t })

  unfoldable pub remember : String → String → Act (Memory S) String
  remember zone id s = (ok id, record s { zone_id_cache = (zone, id) ∷ s.zone_id_cache })

  unfoldable pub cached_zone_id : Memory S → String → Option (String × String)
  cached_zone_id s zone = find_first (is_zone zone) s.zone_id_cache

  unfoldable pub look_up :
      CloudflareClient S → String → Option (String × String) → Act (Memory S) String
  unfolding on_host remember wrapped
  look_up client zone (some entry) = pure entry.1
  look_up client zone none = do
    id ← wrapped "resolving zone" (on_host (client.zone_id_by_name zone))
    remember zone id

  unfoldable pub zone_id : CloudflareClient S → String → Act (Memory S) String
  unfolding look_up cached_zone_id
  zone_id client zone s = look_up client zone (cached_zone_id s zone) s

  module _ (z : Zone S) where
    unfoldable pub ensure_text : DnsRecord → Act S (Unit {0})
    ensure_text rec = do
      existing ← wrapped "cloudflare: list TXT records" (z.query rec.name "TXT")
      if any (has_content rec.value) existing
          then pure tt
          else wrapped "cloudflare: creating TXT record" (z.create "TXT" rec.name rec.value)

    unfoldable pub put_single : String → String → String → List ZoneRecord → Act S (Unit {0})
    put_single name t content [] = wrapped "creating record" (z.create t name content)
    put_single name t content (r ∷ rest) =
        if str_eq t "TXT"
        then wrapped "creating record" (z.create t name content)
        else wrapped "updating record" (z.update r.id t name content)

    unfoldable pub ensure_single_record : String → String → String → Act S (Unit {0})
    ensure_single_record name t content = do
      existing ← wrapped "listing existing records" (z.query name t)
      if any (has_content content) existing then pure tt else put_single name t content existing

    -- the main record, from those found at its name and type
    unfoldable pub place : DnsRecord → Bool → List ZoneRecord → Act S (Unit {0})
    place rec owned [] =
        wrapped "cloudflare: creating record" (z.create rec.record_type rec.name rec.value)
    place rec false (r ∷ rest) = raise (wrap "cloudflare: ensure record" unmanaged_record)
    place rec true (r ∷ []) =
        wrapped "cloudflare: updating record" (z.update r.id rec.record_type rec.name rec.value)
    place rec true (r ∷ q ∷ rest) =
        raise (wrap "cloudflare: ensure record" (wrap "multiple owned records" unmanaged_record))

    unfoldable pub mark : DnsRecord → Bool → Act S (Unit {0})
    mark rec true = pure tt
    mark rec false =
        wrapped "cloudflare: ensure ownership txt"
          (ensure_single_record rec.name "TXT" rec.ownership_tag)

    unfoldable pub ensure_owned : DnsRecord → Act S (Unit {0})
    ensure_owned rec = do
      txts ← wrapped "cloudflare: list ownership TXT" (z.query rec.name "TXT")
      mains ← wrapped "cloudflare: list records" (z.query rec.name rec.record_type)
      place rec (any (has_content rec.ownership_tag) txts) mains
      mark rec (any (has_content rec.ownership_tag) txts)

    unfoldable pub ensure_in : DnsRecord → Act S (Unit {0})
    ensure_in rec = if str_eq rec.record_type "TXT" then ensure_text rec else ensure_owned rec

    unfoldable pub delete_matching : DnsRecord → List ZoneRecord → Act S (Unit {0})
    delete_matching rec [] = pure tt
    delete_matching rec (r ∷ rest) = do
      if has_content rec.value r
          then wrapped "cloudflare: delete record" (z.delete r.id)
          else pure tt
      delete_matching rec rest

    unfoldable pub delete_mains : DnsRecord → Act S (Unit {0})
    delete_mains rec = if str_eq rec.record_type "TXT" then pure tt else do
      mains ← wrapped "cloudflare: listing record" (z.query rec.name rec.record_type)
      delete_matching rec mains

    unfoldable pub delete_owned : DnsRecord → Option ZoneRecord → Act S (Unit {0})
    delete_owned rec none = raise (wrap "cloudflare: delete record" ownership_mismatch)
    delete_owned rec (some owner) = do
      delete_mains rec
      wrapped "cloudflare: deleting txt record" (z.delete owner.id)

    unfoldable pub delete_in : DnsRecord → Act S (Unit {0})
    delete_in rec = do
      txts ← wrapped "cloudflare: listing ownership txt" (z.query rec.name "TXT")
      delete_owned rec (find_first (has_content (owner_content rec)) txts)

  unfoldable pub ensure_record : CloudflareClient S → DnsRecord → Act (Memory S) (Unit {0})
  ensure_record client rec = do
    id ← wrapped "cloudflare: ensure record" (zone_id client rec.zone)
    on_host (ensure_in (client.zone_of id) rec)

  unfoldable pub delete_record : CloudflareClient S → DnsRecord → Act (Memory S) (Unit {0})
  delete_record client rec = do
    id ← wrapped "cloudflare: delete record" (zone_id client rec.zone)
    on_host (delete_in (client.zone_of id) rec)

  unfoldable pub list_managed_records :
      CloudflareClient S → String → Act (Memory S) (List DnsRecord)
  list_managed_records client zone = do
    id ← wrapped "cloudflare: list managed records" (zone_id client zone)
    all ← wrapped "cloudflare: list managed records" (on_host (client.zone_of id).listing)
    pure (managed zone all all)
