-- ===== src/Dns/Digitalocean.antt =====
-- The DigitalOcean provider: providers/dns/digitalocean/digitalocean.go, over one domain. A record of
-- the host has its data as `content`, and its name relative to the domain.
pub mod Shortcut
use ramify.Prelude.{
  String, Bool, length, ◌==◌, not, ◌&&◌, ◌||◌, Option, none, some, List, [], ◌∷◌, any, keep,
  find_first, if◌then◌else◌, str_eq,
}
use Prim.Native.String.{◌++◌ as str_append}
use ramify.Prelude.Texts.{has_suffix, trim_suffix}
use ramify.Errors.{Err, other, permanent_error}
use ramify.Provider.{DnsRecord}
use ramify.Dns.Client.{Act, pure, raise, ◌>>=◌, ◌>>◌, ZoneRecord, Zone, has_content}
use ramify.Dns.Cloudflare.{owner_content}

abbrev pub ownership_mismatch : Err
ownership_mismatch = permanent_error (other "digitalocean: ownership tag mismatch, refusing delete")

abbrev pub unmanaged_record : Err
unmanaged_record = permanent_error (other "digitalocean: unmanaged record collision")

unfoldable pub in_domain : String → String → String
unfolding trim_suffix
in_domain name domain = trim_suffix (trim_suffix name (str_append "." domain)) "."

unfoldable pub relative : String → String → String
unfolding in_domain
relative domain name =
    let plain = trim_suffix name "." in if str_eq plain domain then "@" else in_domain plain domain

unfoldable pub full : String → String → String
unfolding has_suffix
full domain name =
    if str_eq name "@" || str_eq name ""
    then domain
    else if has_suffix name (str_append "." domain)
    then name
    else str_append name (str_append "." domain)

abbrev pub is_text : DnsRecord → Bool
is_text rec = str_eq rec.record_type "TXT"

unfoldable pub is_named : String → String → String → ZoneRecord → Bool
unfolding full
is_named domain t name r = str_eq r.record_type t && str_eq (full domain r.name) (full domain name)

module _ {S : Type 0} (z : Zone S) (domain : String) where
  unfoldable pub records : String → String → Act S (List ZoneRecord)
  unfolding is_named
  records t name = do all ← z.listing; pure (keep (is_named domain t name) all)

  unfoldable pub create : String → String → String → Act S (Unit {0})
  unfolding relative
  create t name data_text = z.create t (relative domain name) data_text

  unfoldable pub place : DnsRecord → List ZoneRecord → Act S (Unit {0})
  unfolding relative
  place rec [] = create rec.record_type rec.name rec.value
  place rec (r ∷ rest) = z.update r.id rec.record_type (relative domain rec.name) rec.value

  unfoldable pub ensure_owned : DnsRecord → List ZoneRecord → List ZoneRecord → Act S (Unit {0})
  ensure_owned rec existing owners =
      let owned = any (has_content rec.ownership_tag) owners in
      if not (length existing == 0) && not owned
      then raise unmanaged_record
      else do place rec existing; if owned then pure tt else create "TXT" rec.name rec.ownership_tag

  unfoldable pub ensure_new : DnsRecord → List ZoneRecord → Act S (Unit {0})
  ensure_new rec existing =
      if is_text rec
      then create "TXT" rec.name rec.value
      else do owners ← records "TXT" rec.name; ensure_owned rec existing owners

  unfoldable pub ensure_record : DnsRecord → Act S (Unit {0})
  ensure_record rec =
      if not (str_eq rec.record_type "A")
        && not (str_eq rec.record_type "CNAME")
        && not (is_text rec)
      then raise (other "digitalocean: unsupported record type")
      else do
        existing ← records rec.record_type rec.name
        if any (has_content rec.value) existing then pure tt else ensure_new rec existing

  unfoldable pub delete_matching : DnsRecord → List ZoneRecord → Act S (Unit {0})
  delete_matching rec [] = pure tt
  delete_matching rec (r ∷ rest) = do
    if has_content rec.value r then z.delete r.id else pure tt
    delete_matching rec rest

  unfoldable pub delete_mains : DnsRecord → Act S (Unit {0})
  delete_mains rec =
      if is_text rec
      then pure tt
      else do values ← records rec.record_type rec.name; delete_matching rec values

  unfoldable pub delete_owned : DnsRecord → Option ZoneRecord → Act S (Unit {0})
  delete_owned rec none = raise ownership_mismatch
  delete_owned rec (some owner) = do delete_mains rec; z.delete owner.id

  unfoldable pub delete_record : DnsRecord → Act S (Unit {0})
  delete_record rec = do
    owners ← records "TXT" rec.name
    delete_owned rec (find_first (has_content (owner_content rec)) owners)
