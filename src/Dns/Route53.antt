-- ===== src/Dns/Route53.antt =====
-- The Route 53 provider: providers/dns/route53/route53.go. Values are texts of code points.
pub mod Values
use ramify.Prelude.{
  ℕ, String, Bool, true, false, not, ◌&&◌, ◌||◌, Option, none, some, List, [], ◌∷◌, ◌++◌, any, keep,
  find_first, length, ◌==◌, if◌then◌else◌, str_eq,
}
use ramify.Prelude.Texts.{trim_prefix, trim_suffix}
use ramify.Errors.{Err, other, wrap, permanent_error}
use ramify.Provider.{Result, ok, err}
use ramify.Dns.Client.{Act, pure, raise, wrapped, ◌>>=◌, ◌>>◌}
use ramify.Dns.Texts.{Text, Request, txt, untxt, same_text}

pub record RecordSet : Type 0 where
  pub name : String
  pub record_type : String
  pub values : List Text

pub record HostedZone : Type 0 where
  pub id : String
  pub name : String

pub data ChangeAction : Type 0 where
  upsert remove : ChangeAction

-- The calls of Amazon's client; `is_gone` is whether an error is one of the two that isNotFound names.
pub record Route53Api (S : Type 0) : Type 0 where
  pub list_hosted_zones_by_name : String → Act S (List HostedZone)
  pub list_resource_record_sets : String → String → String → Act S (List RecordSet)
  pub change_resource_record_sets :
      String → ChangeAction → String → String → List Text → Act S (Unit {0})
  pub is_gone : Err → Bool

abbrev pub ownership_mismatch : Err
ownership_mismatch = permanent_error (other "route53: ownership tag mismatch, refusing delete")

abbrev pub unmanaged_record : Err
unmanaged_record = permanent_error (other "route53: unmanaged record collision")

unfoldable pub has_value : List Text → Text → Bool
has_value rs value = any (λ r. same_text (untxt r) value) rs

unfoldable pub remove_value : List Text → Text → List Text
remove_value rs value = keep (λ r. not (same_text (untxt r) value)) rs

unfoldable pub one : Text → String → Text
one value t = if str_eq t "TXT" then txt value else value

abbrev pub is_text : Request → Bool
is_text rec = str_eq rec.record_type "TXT"

abbrev same_name : String → String → Bool
same_name a b = str_eq (trim_suffix a ".") (trim_suffix b ".")

unfoldable pub zone_of : String → Option HostedZone → Result String
zone_of zone none = err (other "hosted zone not found")
zone_of zone (some z) = ok (trim_prefix z.id "/hostedzone/")

unfoldable pub values_of : Option RecordSet → List Text
values_of none = []
values_of (some s) = s.values

module _ {S : Type 0} (api : Route53Api S) (hosted_zone_id : String) where
  unfoldable pub returned : {A : Type 0} → Result A → Act S A
  returned r s = (r, s)

  unfoldable pub zone_id : String → Act S String
  unfolding zone_of returned
  zone_id zone = if not (str_eq hosted_zone_id "") then pure hosted_zone_id else do
    zones ← api.list_hosted_zones_by_name zone
    returned (zone_of zone (find_first (λ z. same_name z.name zone) zones))

  unfoldable pub records : String → String → String → Act S (List Text)
  unfolding values_of
  records zone name t = do
    id ← zone_id zone
    sets ← api.list_resource_record_sets id name t
    pure (values_of (find_first (λ s. same_name s.name name && str_eq s.record_type t) sets))

  unfoldable pub change : String → ChangeAction → String → String → List Text → Act S (Unit {0})
  change zone action name t values = do
    id ← zone_id zone
    api.change_resource_record_sets id action name t values

  unfoldable pub ensure_text : Request → Act S (Unit {0})
  ensure_text rec = do
    values ← wrapped "route53: listing" (records rec.zone rec.name "TXT")
    if has_value values rec.value
        then pure tt
        else change rec.zone upsert rec.name "TXT" (values ++ one rec.value "TXT" ∷ [])

  -- `occupied` is whether the name holds values of the requested type.
  unfoldable pub place : Request → Bool → List Text → Act S (Unit {0})
  place rec occupied owners =
      let owned = has_value owners rec.ownership_tag in
      if occupied && not owned then raise (wrap "route53" unmanaged_record) else do
        wrapped "route53: upserting"
            (change rec.zone upsert rec.name rec.record_type (one rec.value rec.record_type ∷ []))
        if owned
            then pure tt
            else change rec.zone upsert rec.name "TXT" (owners ++ one rec.ownership_tag "TXT" ∷ [])

  unfoldable pub ensure_record : Request → Act S (Unit {0})
  ensure_record rec =
      if not (str_eq rec.record_type "A")
        && not (str_eq rec.record_type "CNAME")
        && not (is_text rec)
      then raise (other "route53: unsupported record type")
      else if is_text rec
      then ensure_text rec
      else do
        values ← wrapped "route53: listing" (records rec.zone rec.name rec.record_type)
        owners ← records rec.zone rec.name "TXT"
        place rec (not (length values == 0)) owners

  -- An empty set of values cannot be written: the set `previous` is deleted in its place.
  unfoldable pub write_back : Request → String → List Text → List Text → Act S (Unit {0})
  write_back rec t previous [] = change rec.zone remove rec.name t previous
  write_back rec t previous (v ∷ values) = change rec.zone upsert rec.name t (v ∷ values)

  unfoldable pub delete_text : Request → List Text → Act S (Unit {0})
  delete_text rec owners =
      if has_value owners rec.value
      then write_back rec "TXT" owners (remove_value owners rec.value)
      else raise ownership_mismatch

  -- `err != nil && !isNotFound(err)`
  unfoldable pub unless_gone : Result (Unit {0}) → Result (Unit {0})
  unless_gone (ok u) = ok u
  unless_gone (err e) = if api.is_gone e then ok tt else err (wrap "route53: deleting" e)

  unfoldable pub drop_main : Request → List Text → Act S (Unit {0})
  unfolding unless_gone
  drop_main rec [] s =
      let (r, s') =
        change rec.zone remove rec.name rec.record_type (one rec.value rec.record_type ∷ []) s in
      (unless_gone r, s')
  drop_main rec (v ∷ values) s = change rec.zone upsert rec.name rec.record_type (v ∷ values) s

  unfoldable pub delete_record : Request → Act S (Unit {0})
  delete_record rec = do
    owners ← records rec.zone rec.name "TXT"
    if is_text rec
        then delete_text rec owners
        else (if has_value owners rec.ownership_tag
            then (do
              values ← records rec.zone rec.name rec.record_type
              drop_main rec (remove_value values rec.value)
              write_back rec "TXT" (one rec.ownership_tag "TXT" ∷ [])
                  (remove_value owners rec.ownership_tag))
            else raise ownership_mismatch)
