-- ===== src/Tests/Values.antt =====
-- The theorems on quoted TXT values at a name that holds one of them.
use ramify.Prelude.{false, ◌≡◌, refl, some, List, [], ◌∷◌, ◌++◌, map, keep}
use ramify.Provider.{ok}
use ramify.Dns.Texts.{Text, Request, txt, untxt, untxt-txt}
use ramify.Dns.Route53
use ramify.Dns.Route53.{Route53Api, upsert}
use ramify.Dns.Route53.Values.{ensure_record-adds}
use ramify.Dns.Googlecloud.{CloudDns, ResourceRecordSet}

untxt-txt_example : untxt (txt (92 ∷ 34 ∷ 97 ∷ [])) ≡ 92 ∷ 34 ∷ 97 ∷ []
untxt-txt_example = untxt-txt (92 ∷ 34 ∷ 97 ∷ [])

abbrev challenge : Text → Request
challenge value = record {
  zone = "example";
  name = "_acme-challenge.example";
  record_type = "TXT";
  value = value;
  ownership_tag = [];
}

-- The state is the TXT values at the name.
abbrev api : Route53Api (List Text)
api = record {
  list_hosted_zones_by_name = λ zone s. (ok [], s);
  list_resource_record_sets = λ id name t s.
      (ok (record { name = "_acme-challenge.example."; record_type = "TXT"; values = s } ∷ []), s);
  change_resource_record_sets = λ id action name t values s. (ok tt, values);
  is_gone = λ e. false;
}

abbrev held : List Text
held = txt (97 ∷ []) ∷ txt (98 ∷ []) ∷ []

ensure_record-adds_example :
    (ws : List Text) × (Route53.ensure_record api "Z1" (challenge (99 ∷ [])) held
      ≡ Route53.change api "Z1" "example" upsert "_acme-challenge.example" "TXT" ws
          (Route53.records api "Z1" "example" "_acme-challenge.example" "TXT" held).1)
    × (map untxt ws ≡ map untxt held ++ (99 ∷ []) ∷ [])
unfolding Route53.records ramify.Dns.Client.◌>>=◌ Route53.zone_id ramify.Dns.Client.pure
    ramify.Prelude.find_first ramify.Prelude.Texts.trim_suffix Route53.has_value
    ramify.Dns.Texts.same_text untxt txt ramify.Dns.Texts.ends_in_quote
    ramify.Dns.Texts.without_last
ensure_record-adds_example =
    ensure_record-adds api "Z1" (challenge (99 ∷ [])) held held refl refl refl

abbrev set : ResourceRecordSet
set = record { name = "_acme-challenge.example."; record_type = "TXT"; rrdatas = held }

abbrev service : CloudDns (List Text)
service = record { list = λ name t s. (ok (set ∷ []), s); create_change = λ old new s. (ok tt, s) }
