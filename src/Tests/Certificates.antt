-- ===== src/Tests/Certificates.antt =====
-- The theorems on certificates, at an authority that answers and a directory that keeps its files.
use ramify.Prelude.{
  String, true, false, ◌≡◌, ◌≢◌, ◌∙◌, refl, none, some, List, [], ◌∷◌, str_eq, if◌then◌else◌, arith,
  eq_iff, sym, clash,
}
use ramify.Errors.{other, wrap}
use ramify.Provider.{ok, err}
use ramify.Dns.Triples.{Meets}
use ramify.Cert.{
  is_set, saved_as, without_tagged, Entry, keep_issued, IssuedCert, Surroundings, Memory,
  ensure_certificate, revoke_certificate,
}
use ramify.Cert.Loading.{load_entry}
use ramify.Cert.Storage.{IsFaithful, keep_issued-loaded}
use ramify.Cert.Cache.{IsFor, IsSound, Cached, ensure_certificate-Cached}
use ramify.Cert.Revocation.{revoke_retry}

abbrev Files : Type 0
Files = String → ramify.Prelude.Option String

abbrev cert : IssuedCert
cert = record {
  ref = record {
    domain = "shop.test";
    expires_at = "2030";
    certificate_pem = "pem";
    private_key_pem = "key";
  };
  pem = "pem";
  key = "key";
  leaf = some 9000000000000000;
}

abbrev host : Surroundings Files
host = record {
  now = λ s. 0;
  obtain = λ domain s. (ok (record { certificate = "pem"; private_key = "key" }), s);
  revoke = λ pem s. (ok tt, s);
  parse_bundle = λ pem. ok (9000000000000000 ∷ []);
  create_temp = λ s. (ok "temp", s);
  chmod = λ path mode s. (ok tt, s);
  write = λ path text s. (ok tt, λ q. if str_eq q path then some text else s q);
  close = λ path s. (ok tt, s);
  rename = λ from to s. (ok tt, λ q. if str_eq q to then s from else s q);
  remove = λ path s. (err (other "read-only file system"), s);
  is_not_exist = λ e. false;
  read_dir = λ s. (ok [], s);
  read_file =
      λ path s. (elim (s path) [ none ↦ err (other "no such file") | some text ↦ ok text ], s);
  marshal = λ saved. ok "json";
  unmarshal = λ text. ok (without_tagged (saved_as "shop.test" cert));
  format = λ at. "2030";
  ext = λ name. ".json";
  cache_path = λ domain. domain;
  member = λ name. name;
}

abbrev blank : Memory Files
blank = record { cache = λ d. none; outside = λ q. none }

abbrev holding : Memory Files
holding = record blank { cache = λ d. some cert }

blank-IsSound : IsSound blank.cache
blank-IsSound d c found = absurd (ground arith)

ensure_certificate-Cached_example :
    Meets
      (λ ref s. IsSound s.cache × Cached "shop.test" ref s.cache)
      (λ e s. IsSound s.cache)
      (ensure_certificate host (λ s. s) "shop.test" blank).0
      (ensure_certificate host (λ s. s) "shop.test" blank).1
ensure_certificate-Cached_example =
    ensure_certificate-Cached host (λ s. s) (λ s sound. sound) "shop.test" blank blank-IsSound

revoke_retry_example :
    let (r, s') = revoke_certificate host "shop.test" holding in
    (r ≡ err (wrap "removing persisted certificate" (other "read-only file system")))
    × (revoke_certificate host "shop.test" s' ≡ (ok tt, s'))
revoke_retry_example =
    revoke_retry host "shop.test" holding cert (other "read-only file system") refl refl refl refl

cert-IsFor : IsFor "shop.test" cert
unfolding is_set
cert-IsFor = record { named = refl; same_pem = refl; same_key = refl; expires = refl }

ok-injective : {A : Type 0} {a b : A} → ok a ≡ ok b → a ≡ b
ok-injective h = ground arith

different : (a b : String) → str_eq a b ≡ false → a ≢ b
different a b no_match same = clash ((eq_iff a b).1 same) no_match

host-IsFaithful : IsFaithful host "shop.test"
host-IsFaithful = record {
  files = λ s. s;
  create_differs = λ s tmp made same. different "temp" "shop.test" refl (ok-injective made ∙ same);
  write_sets = λ s q text e. rw ((eq_iff q q).1 refl) refl;
  close_keeps = λ s p q. refl;
  rename_moves = λ s p q e. rw ((eq_iff q q).1 refl) refl;
  remove_keeps = λ s p q differs. refl;
  read_gives = λ s q text read held e.
      let found : ok text ≡ ok read = rw held at e in sym (ok-injective found);
}

abbrev entry : Entry
entry = record { name = "shop.test"; is_dir = false }

keep_issued-loaded_example :
    (load_entry host entry (record {
      cache = λ d. none;
      outside = (keep_issued host "shop.test" cert blank).1.outside;
    })).1.cache
      "shop.test"
    ≡ (keep_issued host "shop.test" cert blank).1.cache "shop.test"
unfolding keep_issued ramify.Dns.Client.◌>>◌ ramify.Dns.Client.wrapped ramify.Cert.returning
    ramify.Cert.outer ramify.Api.Sockets.attempt ramify.Dns.Client.pure
keep_issued-loaded_example =
    keep_issued-loaded host "shop.test" "json" host-IsFaithful cert refl refl cert-IsFor
      (different "shop.test" "" refl) (different "pem" "" refl) blank cert.ref entry "json" refl
      refl refl refl refl
