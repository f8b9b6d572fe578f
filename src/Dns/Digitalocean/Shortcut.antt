-- ===== src/Dns/Digitalocean/Shortcut.antt =====
-- EnsureRecord of DigitalOcean where a record with the requested value is there already.
use ramify.Prelude.{String, eq_iff, true, false, ◌≡◌, refl, ap, ◌∙◌, some, List, any, keep}
use ramify.Errors.{is_terminal, is}
use ramify.Provider.{ok, err, DnsRecord}
use ramify.Dns.Client.{pure, raise, ◌>>=◌, follow, ZoneRecord, Zone, IsFaithful, has_content}
use ramify.Dns.Cloudflare.{owner_content}
use ramify.Dns.Digitalocean.{
  ownership_mismatch, is_named, records, ensure_record, delete_owned, delete_record,
}
use ramify.Prelude.Membership.{any-find_first}

module _ {S : Type 0} (z : Zone S) (faithful : IsFaithful z) (domain : String) (rec : DnsRecord)
    (s : S) where
  ensure_record-found :
      {all : List ZoneRecord}
      → rec.record_type ≡ "A"
      → (z.listing s).0 ≡ ok all
      → any (has_content rec.value) (keep (is_named domain rec.record_type rec.name) (z.held s))
        ≡ true
      → ensure_record z domain rec s ≡ (ok tt, (z.listing s).1)
  unfolding ensure_record records ◌>>=◌ follow pure
  ensure_record-found {all} a answer there =
      let at = (eq_iff rec.record_type "A").1 a in
      let found =
        ap (λ rs. any (has_content rec.value) (keep (is_named domain rec.record_type rec.name) rs))
          (faithful.listing_finds s all answer)
        ∙ there in
      rw at (rw answer (rw found refl))

  delete_record-unmarked :
      {all : List ZoneRecord}
      → (z.listing s).0 ≡ ok all
      → any (has_content (owner_content rec)) (keep (is_named domain "TXT" rec.name) (z.held s))
        ≡ false
      → delete_record z domain rec s ≡ (err ownership_mismatch, (z.listing s).1)
  unfolding delete_record delete_owned records ◌>>=◌ follow pure raise
  delete_record-unmarked {all} answer unmarked =
      let absent =
        any-find_first (has_content (owner_content rec)) (keep (is_named domain "TXT" rec.name) all)
          (ap
              (λ rs.
                any (has_content (owner_content rec)) (keep (is_named domain "TXT" rec.name) rs))
              (faithful.listing_finds s all answer)
            ∙ unmarked) in
      rw answer (rw absent refl)

-- Where both listings at the host succeed, a record of the requested name, type and value is there and
-- no TXT record of that name vouches for it, EnsureRecord of an A record returns no error, and
-- DeleteRecord of the same request then returns an error that the retries treat as terminal; neither
-- changes the zone.
pub unmarked_accepted :
    {S : Type 0} (z : Zone S)
    → IsFaithful z
    → (domain : String) (rec : DnsRecord) (s : S) {all all' : List ZoneRecord}
    → rec.record_type ≡ "A"
    → (z.listing s).0 ≡ ok all
    → (z.listing (z.listing s).1).0 ≡ ok all'
    → any (has_content rec.value) (keep (is_named domain rec.record_type rec.name) (z.held s))
      ≡ true
    → any (has_content (owner_content rec)) (keep (is_named domain "TXT" rec.name) (z.held s))
      ≡ false
    → (t : S) × (ensure_record z domain rec s ≡ (ok tt, t))
      × (z.held t ≡ z.held s)
      × ((delete_record z domain rec t).0 ≡ err ownership_mismatch)
      × (z.held (delete_record z domain rec t).1 ≡ z.held s)
      × (is_terminal (some ownership_mismatch) ≡ true)
unfolding is_terminal is
unmarked_accepted z faithful domain rec s a answer answer' there unmarked =
    let t = (z.listing s).1 in
    let kept = faithful.listing_reads s in
    let refused = delete_record-unmarked z faithful domain rec t answer' (
      ap (λ rs. any (has_content (owner_content rec)) (keep (is_named domain "TXT" rec.name) rs))
        kept
      ∙ unmarked) in
    (
      t,
      ensure_record-found z faithful domain rec s a answer there,
      kept,
      ap (λ o. o.0) refused,
      ap (λ o. z.held o.1) refused ∙ faithful.listing_reads t ∙ kept,
      refl,
    )
