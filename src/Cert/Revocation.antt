-- ===== src/Cert/Revocation.antt =====
-- What RevokeCertificate of providers/cert/acme/acme.go leaves behind.
use ramify.Prelude.{String, false, str_eq, eq_iff, ◌≡◌, refl, if◌then◌else◌, none, some}
use ramify.Errors.{Err, wrap}
use ramify.Provider.{ok, err}
use ramify.Dns.Client.{pure, raise, ◌>>=◌, ◌>>◌, wrapped, follow, with_context}
use ramify.Api.Sockets.{attempt}
use ramify.Cert.{
  IssuedCert, Surroundings, Memory, outer, put, cached_at, after_removal, revoke_cached,
  revoke_certificate,
}

module _ {S : Type 0} (o : Surroundings S) (domain : String) where
  -- what is outside after the authority was asked to revoke the certificate, and after the removal
  -- of its file
  abbrev pub revoked : IssuedCert → Memory S → S
  revoked cert s = (o.revoke cert.pem s.outside).1

  abbrev pub removed : IssuedCert → Memory S → S
  removed cert s = (o.remove (o.cache_path domain) (revoked cert s)).1

  -- The state after the call.
  abbrev pub forgotten : IssuedCert → Memory S → Memory S
  forgotten cert s = record {
    cache = λ d. if str_eq d domain then none else s.cache d;
    outside = removed cert s;
  }

  revoke_absent :
      (s : Memory S) → s.cache domain ≡ none → revoke_certificate o domain s ≡ (ok tt, s)
  unfolding revoke_certificate revoke_cached cached_at ◌>>=◌ follow pure
  revoke_absent s absent = rw absent refl

  revoke_unremoved :
      (s : Memory S) (cert : IssuedCert) (e : Err)
      → s.cache domain ≡ some cert
      → (o.revoke cert.pem s.outside).0 ≡ ok tt
      → (o.remove (o.cache_path domain) (revoked cert s)).0 ≡ err e
      → o.is_not_exist e ≡ false
      → revoke_certificate o domain s
        ≡ (err (wrap "removing persisted certificate" e), forgotten cert s)
  unfolding revoke_certificate revoke_cached cached_at ◌>>=◌ ◌>>◌ follow wrapped with_context outer
      put attempt after_removal raise
  revoke_unremoved s cert e here accepted failed kept =
      rw here (rw accepted (rw failed (rw kept refl)))

  -- If the certificate of a domain is cached and the authority revokes it, but its file cannot be
  -- removed, RevokeCertificate returns an error, and when it is called again it returns none and changes
  -- nothing.
  pub revoke_retry :
      (s : Memory S) (cert : IssuedCert) (e : Err)
      → s.cache domain ≡ some cert
      → (o.revoke cert.pem s.outside).0 ≡ ok tt
      → (o.remove (o.cache_path domain) (revoked cert s)).0 ≡ err e
      → o.is_not_exist e ≡ false
      → let (r, s') = revoke_certificate o domain s in
        (r ≡ err (wrap "removing persisted certificate" e))
        × (revoke_certificate o domain s' ≡ (ok tt, s'))
  revoke_retry s cert e here accepted failed kept =
      rw (revoke_unremoved s cert e here accepted failed kept)
        (refl, revoke_absent (forgotten cert s) (rw ((eq_iff domain domain).1 refl) refl))
