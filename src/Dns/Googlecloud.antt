-- ===== src/Dns/Googlecloud.antt =====
-- The Google Cloud DNS provider: providers/dns/googlecloud/googlecloud.go. Values are texts of code
-- points, and the time to live of a record set is left out.
pub mod Requoting
use ramify.Prelude.{
  ℕ, String, Bool, true, false, not, ◌&&◌, Option, none, some, List, [], ◌∷◌, ◌++◌, map, any, keep,
  find_first, length, ◌==◌, if◌then◌else◌, str_eq,
}
use Prim.Native.String.{◌++◌ as str_append}
use ramify.Prelude.Texts.{trim_suffix}
use ramify.Errors.{Err, other, permanent_error}
use ramify.Provider.{Result, ok, err}
use ramify.Dns.Client.{Act, pure, raise, ◌>>=◌, ◌>>◌}
use ramify.Dns.Texts.{Text, Request, txt, untxt, same_text}

pub record ResourceRecordSet : Type 0 where
  pub name : String
  pub record_type : String
  pub rrdatas : List Text

-- The calls of Google's client on one managed zone: a listing, and a change with what it deletes and
-- what it adds.
pub record CloudDns (S : Type 0) : Type 0 where
  pub list : String → String → Act S (List ResourceRecordSet)
  pub create_change : Option ResourceRecordSet → Option ResourceRecordSet → Act S (Unit {0})

abbrev pub ownership_mismatch : Err
ownership_mismatch =
    permanent_error (other "google cloud dns: ownership tag mismatch, refusing delete")

abbrev pub unmanaged_record : Err
unmanaged_record = permanent_error (other "google cloud dns: unmanaged record collision")

unfoldable pub fqdn : String → String
fqdn s = str_append (trim_suffix s ".") "."

unfoldable pub vals : List Text → String → List Text
vals values t = if str_eq t "TXT" then map txt values else values

unfoldable pub plain : List Text → List Text
plain values = map untxt values

unfoldable pub contains : List Text → Text → Bool
unfolding plain
contains values v = any (λ x. same_text x v) (plain values)

unfoldable pub remove : List Text → Text → List Text
remove values v = keep (λ x. not (same_text (untxt x) v)) values

unfoldable pub same_values : List Text → Text → Bool
same_values [] value = false
same_values (v ∷ []) value = same_text (untxt v) value
same_values (v ∷ w ∷ rest) value = false

unfoldable pub rrdatas_of : Option ResourceRecordSet → List Text
rrdatas_of none = []
rrdatas_of (some set) = set.rrdatas

abbrev is_set : String → String → ResourceRecordSet → Bool
is_set name t set = str_eq set.name name && str_eq set.record_type t

abbrev is_text : Request → Bool
is_text rec = str_eq rec.record_type "TXT"

unfoldable pub next_set : Request → String → List Text → ResourceRecordSet
unfolding fqdn
next_set rec t values = record { name = fqdn rec.name; record_type = t; rrdatas = values }

module _ {S : Type 0} (service : CloudDns S) where
  unfoldable pub records : String → String → Act S (Option ResourceRecordSet)
  unfolding fqdn
  records name t = do
    sets ← service.list (fqdn name) t
    pure (find_first (is_set (fqdn name) t) sets)

  unfoldable pub ensure_text : Request → Option ResourceRecordSet → Act S (Unit {0})
  unfolding contains vals next_set
  ensure_text rec set =
      let existing = rrdatas_of set in
      if contains existing rec.value
      then pure tt
      else service.create_change set
          (some (next_set rec "TXT" (vals (existing ++ rec.value ∷ []) "TXT")))

  unfoldable pub place : Request → Option ResourceRecordSet → Act S (Unit {0})
  unfolding same_values next_set
  place rec set =
      if same_values (rrdatas_of set) rec.value
      then pure tt
      else service.create_change set (some (next_set rec rec.record_type (rec.value ∷ [])))

  unfoldable pub ensure_owned :
      Request → Option ResourceRecordSet → Option ResourceRecordSet → Act S (Unit {0})
  unfolding contains vals next_set
  ensure_owned rec set owner_set =
      let owners = rrdatas_of owner_set in
      let owned = contains owners rec.ownership_tag in
      if not (length (rrdatas_of set) == 0) && not owned then raise unmanaged_record else do
        place rec set
        if owned
            then pure tt
            else service.create_change owner_set
                (some (next_set rec "TXT" (vals (owners ++ rec.ownership_tag ∷ []) "TXT")))

  unfoldable pub ensure_record : Request → Act S (Unit {0})
  ensure_record rec =
      if not (str_eq rec.record_type "A")
        && not (str_eq rec.record_type "CNAME")
        && not (is_text rec)
      then raise (other "google cloud dns: unsupported record type")
      else do
        set ← records rec.name rec.record_type
        if is_text rec
            then ensure_text rec set
            else (do owner_set ← records rec.name "TXT"; ensure_owned rec set owner_set)

  -- what is left of a set of values: nothing is added where none are left
  unfoldable pub left_over : Request → String → List Text → List Text → Option ResourceRecordSet
  unfolding next_set
  left_over rec t [] written = none
  left_over rec t (v ∷ values) written = some (next_set rec t written)

  unfoldable pub delete_main : Request → Act S (Unit {0})
  unfolding left_over remove
  delete_main rec = if is_text rec then pure tt else do
    set ← records rec.name rec.record_type
    let values = remove (rrdatas_of set) rec.value
    service.create_change set (left_over rec rec.record_type values values)

  unfoldable pub delete_record : Request → Act S (Unit {0})
  unfolding contains left_over remove vals
  delete_record rec = do
    owner_set ← records rec.name "TXT"
    let owner = if is_text rec then rec.value else rec.ownership_tag
    if contains (rrdatas_of owner_set) owner
        then (do
          delete_main rec
          let owners = remove (rrdatas_of owner_set) owner
          service.create_change owner_set (left_over rec "TXT" owners (vals owners "TXT")))
        else raise ownership_mismatch
