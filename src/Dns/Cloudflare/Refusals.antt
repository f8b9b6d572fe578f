-- ===== src/Dns/Cloudflare/Refusals.antt =====
-- Where the Cloudflare provider finds that a name is not its own.
use ramify.Prelude.{true, false, ◌≡◌, refl, ap, ◌∙◌, some, List, ◌∷◌, any, keep, str_eq}
use ramify.Errors.{Err, is_terminal, is, as_terminal}
use ramify.Provider.{ok, err, DnsRecord}
use ramify.Dns.Client.{
  ◌>>=◌, ◌>>◌, follow, raise, wrapped, with_context, ZoneRecord, Zone, IsFaithful, has_content,
  is_at,
}
use ramify.Dns.Cloudflare.{place, ensure_owned, ensure_in, delete_owned, delete_in, owner_content}
use ramify.Dns.Cloudflare.Ownership.{is_marked}
use ramify.Prelude.Membership.{any-find_first}

module _ {S : Type 0} (z : Zone S) (faithful : IsFaithful z) (rec : DnsRecord) (s : S) where
  -- Where the TXT records at the name can be listed and none of them vouches for the request,
  -- DeleteRecord returns an error that the retries treat as terminal, and the zone is as it was.
  pub delete_in-refused :
      {txts : List ZoneRecord}
      → (z.query rec.name "TXT" s).0 ≡ ok txts
      → any (has_content (owner_content rec)) (keep (is_at rec.name "TXT") (z.held s)) ≡ false
      → ((e : Err) × ((delete_in z rec s).0 ≡ err e) × (is_terminal (some e) ≡ true))
        × (z.held (delete_in z rec s).1 ≡ z.held s)
  unfolding delete_in delete_owned ◌>>=◌ follow wrapped with_context raise is_terminal is
      as_terminal
  delete_in-refused {txts} answer unmarked =
      let absent = any-find_first (has_content (owner_content rec)) txts (
        ap (any (has_content (owner_content rec)))
          (faithful.query_finds rec.name "TXT" s txts answer)
        ∙ unmarked) in
      rw answer (rw absent ((_, refl, refl), faithful.query_reads rec.name "TXT" s))

  -- Where both listings succeed, a record of the requested name and type is there and no TXT record
  -- of that name holds the tag, EnsureRecord of a record that is not TXT returns an error that the
  -- retries treat as terminal, and the zone is as it was.
  pub ensure_in-refused :
      {txts mains : List ZoneRecord} (m : ZoneRecord)
      → str_eq rec.record_type "TXT" ≡ false
      → (z.query rec.name "TXT" s).0 ≡ ok txts
      → (z.query rec.name rec.record_type (z.query rec.name "TXT" s).1).0 ≡ ok (m ∷ mains)
      → is_marked rec (z.held s) ≡ false
      → ((e : Err) × ((ensure_in z rec s).0 ≡ err e) × (is_terminal (some e) ≡ true))
        × (z.held (ensure_in z rec s).1 ≡ z.held s)
  unfolding ensure_in ensure_owned place ◌>>=◌ ◌>>◌ follow wrapped with_context raise is_terminal is
      as_terminal is_marked
  ensure_in-refused {txts} {mains} m other answer mains_answer unmarked =
      let unowned =
        ap (any (has_content rec.ownership_tag)) (faithful.query_finds rec.name "TXT" s txts answer)
        ∙ unmarked in
      rw other (
        rw answer (
          rw mains_answer (
            rw unowned (
              (_, refl, refl),
              faithful.query_reads rec.name rec.record_type (z.query rec.name "TXT" s).1
                  ∙ faithful.query_reads rec.name "TXT" s,
            ))))
