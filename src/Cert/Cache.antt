-- ===== src/Cert/Cache.antt =====
-- What EnsureCertificate and RevokeCertificate of providers/cert/acme/acme.go do to the cache.
use ramify.Prelude.{
  ℕ, String, true, str_eq, eq_iff, ltb, ◌+◌, ◌≡◌, refl, if◌then◌else◌, Option, none, some,
  Bool-cases, inl, inr, arith,
}
use ramify.Provider.{Result, CertRef}
use ramify.Dns.Client.{Act, pure, wrapped}
use ramify.Dns.Triples.{Meets, Triple, pure-Triple, wrapped-Triple, bind, sequence, weaken}
use ramify.Dns.Calls.{steady, after}
use ramify.Api.Sockets.{attempt}
use ramify.Cert.{
  IssuedCert, Surroundings, Memory, renewal, is_set, in_time, fresh, outer, returning, put, fill,
  persist_text, persist, keep_issued, issued_as, issue, or_issue, look, wait, after_look,
  ensure_certificate,
}

-- A certificate is the one of its domain, it is what is handed out, and it has an expiry.
pub record IsFor (domain : String) (c : IssuedCert) : Type 0 where
  pub named : c.ref.domain ≡ domain
  pub same_pem : c.ref.certificate_pem ≡ c.pem
  pub same_key : c.ref.private_key_pem ≡ c.key
  pub expires : is_set c.leaf ≡ true

abbrev pub IsSound : (String → Option IssuedCert) → Type 0
IsSound cache = (domain : String) (c : IssuedCert) → cache domain ≡ some c → IsFor domain c

-- The cache has the certificate that was handed out.
pub record Cached (domain : String) (ref : CertRef) (cache : String → Option IssuedCert)
    : Type 0 where
  pub cert : IssuedCert
  pub here : cache domain ≡ some cert
  pub handed : cert.ref ≡ ref

some-injective : {A : Type 0} {a b : A} → some a ≡ some b → a ≡ b
some-injective h = ground arith

module _ (domain : String) (ref : CertRef) (cache : String → Option IssuedCert) (now : ℕ) where
  in_time-Cached :
      (c : IssuedCert) (leaf : Option ℕ)
      → cache domain ≡ some c
      → in_time now c leaf ≡ some ref
      → Cached domain ref cache
  unfolding in_time
  in_time-Cached c none here found = absurd (ground arith)
  in_time-Cached c (some leaf) here found = elim (Bool-cases (ltb (now + renewal) leaf)) [
    | inl later ↦ record { cert = c; here = here; handed = some-injective (rw later at found) }
    | inr soon ↦ let none_found : none ≡ some ref = rw soon at found in absurd (ground arith)
  ]

  fresh-Cached :
      (r : Option IssuedCert) → cache domain ≡ r → fresh now r ≡ some ref → Cached domain ref cache
  unfolding fresh
  fresh-Cached none here found = absurd (ground arith)
  fresh-Cached (some c) here found = in_time-Cached c c.leaf here found

module _ {S : Type 0} (o : Surroundings S) where
  module _ (J : (String → Option IssuedCert) → Type 0) where
    abbrev Kept : {A : Type 0} → Act (Memory S) A → Type 0
    Kept m = Triple (λ s. J s.cache) m (λ _ s. J s.cache) (λ _ s. J s.cache)

    outer-Kept : {A : Type 0} (m : Act S A) → Kept (outer m)
    unfolding outer
    outer-Kept m = steady (λ s p. p)

    returning-Kept : {A : Type 0} (r : Result A) → Kept (returning r)
    unfolding returning
    returning-Kept r = steady (λ s p. p)

    called : {A : Type 0} (text : String) (m : Act S A) → Kept (wrapped text (outer m))
    called text m = wrapped-Triple text (λ e s x. x) (outer-Kept m)

    attempt-Kept : {A : Type 0} (m : Act (Memory S) A) → Kept m → Kept (attempt m)
    unfolding attempt
    attempt-Kept m t = steady (after t)

    persist_text-Kept : (domain text : String) → Kept (persist_text o domain text)
    unfolding persist_text fill
    persist_text-Kept domain text = bind (called _ o.create_temp) (λ tmp.
        bind
          (attempt-Kept _ (
            sequence (called _ (o.chmod tmp _)) (λ _.
              sequence (called _ (o.write tmp text))
                (λ _. sequence (called _ (o.close tmp)) (λ _. called _ (o.rename tmp _))))))
          (λ filled.
            bind (attempt-Kept _ (outer-Kept (o.remove tmp))) (λ removed. returning-Kept filled)))

    persist-Kept : (domain : String) (cert : IssuedCert) → Kept (persist o domain cert)
    unfolding persist
    persist-Kept domain cert =
        bind (wrapped-Triple _ (λ e s x. x) (returning-Kept _)) (persist_text-Kept domain)

    pure-Kept : {A : Type 0} (a : A) → Kept (pure a)
    pure-Kept a = pure-Triple a

  put_here :
      (domain : String) (c : Option IssuedCert) (cache : String → Option IssuedCert)
      → (if str_eq domain domain then c else cache domain) ≡ c
  put_here domain c cache = rw ((eq_iff domain domain).1 refl) refl

  put-IsSound :
      (domain : String) (c : IssuedCert) (cache : String → Option IssuedCert)
      → IsFor domain c
      → IsSound cache
      → IsSound (λ d. if str_eq d domain then some c else cache d)
  put-IsSound domain c cache mine sound d c' found = elim (Bool-cases (str_eq d domain)) [
    | inl same ↦
        let here : some c ≡ some c' = rw same at found in
        rw ((eq_iff d domain).0 same) (rw (← some-injective here) mine)
    | inr other ↦ let kept : cache d ≡ some c' = rw other at found in sound d c' kept
  ]

  put-Cached :
      (domain : String) (c : IssuedCert)
      → IsFor domain c
      → Triple {S = Memory S}
          (λ s. IsSound s.cache)
          (put domain (some c))
          (λ _ s. IsSound s.cache × Cached domain c.ref s.cache)
          (λ _ s. IsSound s.cache)
  unfolding put Meets
  put-Cached domain c mine = record {
    run = λ s p. (
      put-IsSound domain c s.cache mine p,
      record { cert = c; here = put_here domain (some c) s.cache; handed = refl },
    );
  }

  keep_issued-Cached :
      (domain : String) (cert : IssuedCert)
      → IsFor domain cert
      → Triple
          (λ s. IsSound s.cache)
          (keep_issued o domain cert)
          (λ ref s. IsSound s.cache × Cached domain ref s.cache)
          (λ _ s. IsSound s.cache)
  unfolding keep_issued
  keep_issued-Cached domain cert mine =
      sequence (persist-Kept IsSound domain cert)
        (λ _. sequence (put-Cached domain cert mine) (λ _. pure-Triple _))

  issue-Cached :
      (domain : String)
      → Triple
          (λ s. IsSound s.cache)
          (issue o domain)
          (λ ref s. IsSound s.cache × Cached domain ref s.cache)
          (λ _ s. IsSound s.cache)
  unfolding issue is_set
  issue-Cached domain = bind (called IsSound _ _) (λ res.
      bind (wrapped-Triple _ (λ e s x. x) (returning-Kept IsSound _)) (λ expiry.
        keep_issued-Cached domain (issued_as o.format domain res expiry)
          (record { named = refl; same_pem = refl; same_key = refl; expires = refl })))

  -- What a look at the cache found is there, in a sound cache.
  abbrev Found : String → Option CertRef → Memory S → Type 0
  Found domain found s =
      IsSound s.cache × ((ref : CertRef) → found ≡ some ref → Cached domain ref s.cache)

  look-Found :
      (domain : String)
      → Triple {S = Memory S}
          (λ s. IsSound s.cache)
          (look o domain)
          (Found domain)
          (λ _ s. IsSound s.cache)
  unfolding look Meets
  look-Found domain = record {
    run = λ s p. (
      p,
      λ ref found. fresh-Cached domain ref s.cache (o.now s.outside) (s.cache domain) refl found,
    );
  }

  or_issue-Cached :
      (domain : String) (found : Option CertRef)
      → Triple
          (Found domain found)
          (or_issue o domain found)
          (λ ref s. IsSound s.cache × Cached domain ref s.cache)
          (λ _ s. IsSound s.cache)
  unfolding or_issue
  or_issue-Cached domain (some ref) =
      weaken (pure-Triple ref) (λ s p. (p.0, p.1 ref refl)) (λ a s p. p) (λ e s p. p)
  or_issue-Cached domain none = weaken (issue-Cached domain) (λ s p. p.0) (λ a s p. p) (λ e s p. p)

  module _ (waits : Memory S → Memory S)
      (sound : (s : Memory S) → IsSound s.cache → IsSound (waits s).cache) where
    after_look-Cached :
        (domain : String) (found : Option CertRef)
        → Triple
            (Found domain found)
            (after_look o waits domain found)
            (λ ref s. IsSound s.cache × Cached domain ref s.cache)
            (λ _ s. IsSound s.cache)
    unfolding after_look wait
    after_look-Cached domain (some ref) =
        weaken (pure-Triple ref) (λ s p. (p.0, p.1 ref refl)) (λ a s p. p) (λ e s p. p)
    after_look-Cached domain none =
        sequence (steady (λ s p. sound s p.0))
          (λ _. bind (look-Found domain) (or_issue-Cached domain))

    -- However EnsureCertificate ends, if every certificate of the cache was that of its domain, what
    -- is handed out for it, and with an expiry, and the callers that were waited for kept this so,
    -- then it is so; and if no error is returned, the cache has the certificate that is returned.
    pub ensure_certificate-Cached :
        (domain : String) (s : Memory S)
        → IsSound s.cache
        → Meets
            (λ ref s'. IsSound s'.cache × Cached domain ref s'.cache)
            (λ _ s'. IsSound s'.cache)
            (ensure_certificate o waits domain s).0
            (ensure_certificate o waits domain s).1
    unfolding ensure_certificate
    ensure_certificate-Cached domain s = (bind (look-Found domain) (after_look-Cached domain)).run s
