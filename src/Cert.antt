-- ===== src/Cert.antt =====
-- The certificates of providers/cert/acme/acme.go, behind one mutex for the cache and one for the
-- issuance. The certificate authority, the files of the storage directory and JSON are parameters.

pub mod Cache
pub mod Loading
pub mod Revocation
pub mod Storage
use ramify.Prelude.{
  ℕ, ◌+◌, String, Bool, true, false, not, str_eq, ltb, ◌||◌, if◌then◌else◌, Option, none, some,
  List, [], ◌∷◌,
}
use ramify.Errors.{Err, other, wrap}
use ramify.Provider.{Result, ok, err, CertRef}
use ramify.Dns.Client.{Act, pure, raise, ◌>>=◌, ◌>>◌, wrapped}
use ramify.Api.Sockets.{attempt}

-- `leaf` is the instant at which the certificate expires.
pub record IssuedCert : Type 0 where
  pub ref : CertRef
  pub pem : String
  pub key : String
  pub leaf : Option ℕ

-- `expires_at` is `none` at the zero time.
pub record PersistedCertificate : Type 0 where
  pub domain : String
  pub ref : CertRef
  pub pem : String
  pub private_key : String
  pub expires_at : Option ℕ

pub record Entry : Type 0 where
  pub name : String
  pub is_dir : Bool

-- What lego returns of an order.
pub record Resource : Type 0 where
  pub certificate : String
  pub private_key : String

-- The clock, lego's client, the instants of expiry in a bundle, `os`, JSON, filepath.Ext, and the
-- RFC 3339 text of an instant.
-- `cache_path` is the path of the digest of a domain, `member` a path in the storage directory.
pub record Surroundings (S : Type 0) : Type 0 where
  pub now : S → ℕ
  pub obtain : String → Act S Resource
  pub revoke : String → Act S (Unit {0})
  pub parse_bundle : String → Result (List ℕ)
  pub create_temp : Act S String
  pub chmod : String → ℕ → Act S (Unit {0})
  pub write : String → String → Act S (Unit {0})
  pub close : String → Act S (Unit {0})
  pub rename : String → String → Act S (Unit {0})
  pub remove : String → Act S (Unit {0})
  pub is_not_exist : Err → Bool
  pub read_dir : Act S (List Entry)
  pub read_file : String → Act S String
  pub marshal : PersistedCertificate → Result String
  pub unmarshal : String → Result PersistedCertificate
  pub ext : String → String
  pub format : ℕ → String
  pub cache_path : String → String
  pub member : String → String

-- The cache, and what is outside of the process.
pub record Memory (S : Type 0) : Type 0 where
  pub cache : String → Option IssuedCert
  pub outside : S

-- 30 days in nanoseconds, and 0o600
abbrev pub renewal : ℕ
renewal = 2592000000000000

abbrev pub private_mode : ℕ
private_mode = 384

unfoldable pub is_set : Option ℕ → Bool
is_set none = false
is_set (some leaf) = true

-- the cached certificate, where it is not within 30 days of its expiry
unfoldable pub in_time : ℕ → IssuedCert → Option ℕ → Option CertRef
in_time now cached none = none
in_time now cached (some leaf) = if ltb (now + renewal) leaf then some cached.ref else none

unfoldable pub fresh : ℕ → Option IssuedCert → Option CertRef
unfolding in_time
fresh now none = none
fresh now (some cached) = in_time now cached cached.leaf

unfoldable pub first_of : List ℕ → Result ℕ
first_of [] = err (other "pem bundle contained no certificates")
first_of (expiry ∷ rest) = ok expiry

unfoldable pub first_expiry : Result (List ℕ) → Result ℕ
unfolding first_of
first_expiry (ok certs) = first_of certs
first_expiry (err e) = err (wrap "parsing pem bundle" e)

abbrev pub saved_as : String → IssuedCert → PersistedCertificate
saved_as domain cert = record {
  domain = domain;
  ref = cert.ref;
  pem = cert.pem;
  private_key = cert.key;
  expires_at = cert.leaf;
}

-- What is left of it in JSON: the fields of CertRef that are tagged `json:"-"` are left out.
abbrev pub without_tagged : PersistedCertificate → PersistedCertificate
without_tagged saved = record saved {
  ref = record saved.ref { certificate_pem = ""; private_key_pem = "" };
}

abbrev pub issued_as : (ℕ → String) → String → Resource → ℕ → IssuedCert
issued_as format domain res expiry = record {
  ref = record {
    domain = domain;
    expires_at = format expiry;
    certificate_pem = res.certificate;
    private_key_pem = res.private_key;
  };
  pem = res.certificate;
  key = res.private_key;
  leaf = some expiry;
}

module _ {S : Type 0} where
  -- an action on what is outside
  unfoldable pub outer : {A : Type 0} → Act S A → Act (Memory S) A
  outer m s = let (r, o) = m s.outside in (r, record s { outside = o })

  unfoldable pub returning : {A : Type 0} → Result A → Act (Memory S) A
  returning r s = (r, s)

  unfoldable pub put : String → Option IssuedCert → Act (Memory S) (Unit {0})
  put domain issued s =
      (ok tt, record s { cache = λ d. if str_eq d domain then issued else s.cache d })

  unfoldable pub cached_at : String → Act (Memory S) (Option IssuedCert)
  cached_at domain s = (ok (s.cache domain), s)

  module _ (o : Surroundings S) where
    unfoldable pub leaf_not_after : String → Result ℕ
    unfolding first_expiry
    leaf_not_after bundle = first_expiry (o.parse_bundle bundle)

    unfoldable pub fill : String → String → String → Act (Memory S) (Unit {0})
    fill tmp text target = do
      wrapped "securing certificate temp file" (outer (o.chmod tmp private_mode))
      wrapped "writing persisted certificate" (outer (o.write tmp text))
      wrapped "closing persisted certificate" (outer (o.close tmp))
      wrapped "replacing persisted certificate" (outer (o.rename tmp target))

    -- The deferred removal of the temporary file runs however the rest ends.
    unfoldable pub persist_text : String → String → Act (Memory S) (Unit {0})
    unfolding fill
    persist_text domain text = do
      tmp ← wrapped "creating certificate temp file" (outer o.create_temp)
      filled ← attempt (fill tmp text (o.cache_path domain))
      removed ← attempt (outer (o.remove tmp))
      returning filled

    unfoldable pub persist : String → IssuedCert → Act (Memory S) (Unit {0})
    unfolding persist_text
    persist domain cert = do
      text ← wrapped "encoding persisted certificate" (returning (o.marshal (saved_as domain cert)))
      persist_text domain text

    unfoldable pub keep_issued : String → IssuedCert → Act (Memory S) CertRef
    unfolding persist put
    keep_issued domain issued = do persist domain issued; put domain (some issued); pure issued.ref

    unfoldable pub issue : String → Act (Memory S) CertRef
    unfolding leaf_not_after keep_issued
    issue domain = do
      res ← wrapped "obtaining certificate" (outer (o.obtain domain))
      expiry ← wrapped "parsing issued certificate" (returning (leaf_not_after res.certificate))
      keep_issued domain (issued_as o.format domain res expiry)

    unfoldable pub or_issue : String → Option CertRef → Act (Memory S) CertRef
    unfolding issue
    or_issue domain (some ref) = pure ref
    or_issue domain none = issue domain

    unfoldable pub look : String → Act (Memory S) (Option CertRef)
    unfolding fresh
    look domain s = (ok (fresh (o.now s.outside) (s.cache domain)), s)

    -- `waits` is what other callers do while this one waits for the lock of the issuance.
    module _ (waits : Memory S → Memory S) where
      unfoldable pub wait : Act (Memory S) (Unit {0})
      wait s = (ok tt, waits s)

      unfoldable pub after_look : String → Option CertRef → Act (Memory S) CertRef
      unfolding wait look or_issue
      after_look domain (some ref) = pure ref
      after_look domain none = do wait; found ← look domain; or_issue domain found

      unfoldable pub ensure_certificate : String → Act (Memory S) CertRef
      unfolding look after_look
      ensure_certificate domain = do found ← look domain; after_look domain found

    unfoldable pub after_removal : Result (Unit {0}) → Act (Memory S) (Unit {0})
    after_removal (ok removed) = pure tt
    after_removal (err e) =
        if o.is_not_exist e then pure tt else raise (wrap "removing persisted certificate" e)

    unfoldable pub revoke_cached : String → Option IssuedCert → Act (Memory S) (Unit {0})
    unfolding put after_removal
    revoke_cached domain none = pure tt
    revoke_cached domain (some cached) = do
      wrapped "revoking certificate" (outer (o.revoke cached.pem))
      put domain none
      removed ← attempt (outer (o.remove (o.cache_path domain)))
      after_removal removed

    unfoldable pub revoke_certificate : String → Act (Memory S) (Unit {0})
    unfolding cached_at revoke_cached
    revoke_certificate domain = do cached ← cached_at domain; revoke_cached domain cached
