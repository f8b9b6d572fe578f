-- ===== src/Cert/Storage.antt =====
-- What persist of providers/cert/acme/acme.go writes, and what loadCache reads of it in a new process.
use ramify.Prelude.{
  String, false, str_eq-false, eq_iff, ◌≡◌, ◌≢◌, refl, ap, sym, ◌∙◌, Option, none, some,
}
use ramify.Provider.{Result, ok, CertRef}
use ramify.Dns.Client.{Act, ◌>>=◌, wrapped, follow, with_context}
use ramify.Dns.Triples.{Meets, Triple, pure-Triple, wrapped-Triple, bind, sequence, given}
use ramify.Dns.Calls.{steady, reads, after_ok}
use ramify.Api.Sockets.{attempt}
use ramify.Cert.{
  IssuedCert, Entry, Surroundings, Memory, outer, returning, put, fill, persist_text, persist,
  saved_as, without_tagged, keep_issued,
}
use ramify.Cert.Loading.{keep_saved, load_entry}
use ramify.Cert.Cache.{IsFor}

-- What `os` documents of the file at a path, for the calls of persist and loadCache.
pub record IsFaithful {S : Type 0} (o : Surroundings S) (path : String) : Type 0 where
  pub files : S → String → Option String
  pub create_differs : (s : S) (tmp : String) → (o.create_temp s).0 ≡ ok tmp → tmp ≢ path
  pub write_sets :
      (s : S) (q text : String)
      → (o.write q text s).0 ≡ ok tt
      → files (o.write q text s).1 q ≡ some text
  pub close_keeps : (s : S) (p q : String) → files (o.close p s).1 q ≡ files s q
  pub rename_moves :
      (s : S) (p q : String) → (o.rename p q s).0 ≡ ok tt → files (o.rename p q s).1 q ≡ files s p
  pub remove_keeps : (s : S) (p q : String) → p ≢ q → files (o.remove p s).1 q ≡ files s q
  pub read_gives :
      (s : S) (q text read : String)
      → files s q ≡ some text
      → (o.read_file q s).0 ≡ ok read
      → read ≡ text

module _ {S : Type 0} (o : Surroundings S) (domain text : String)
    (os : IsFaithful o (o.cache_path domain)) where
  abbrev path : String
  path = o.cache_path domain

  -- The file at a path has the text.
  abbrev Holds : String → Memory S → Type 0
  Holds q s = os.files s.outside q ≡ some text

  abbrev Any : Memory S → Type 0
  Any s = Unit {0}

  fill-Holds : (tmp : String) → Triple Any (fill o tmp text path) (λ _. Holds path) (λ _. Any)
  unfolding fill outer
  fill-Holds tmp = sequence (wrapped-Triple _ (λ e s x. x) (steady (λ s p. tt))) (λ _.
      sequence {Q = λ _. Holds tmp}
        (wrapped-Triple _ (λ e s x. x)
          (reads (λ s a p e. os.write_sets s.outside tmp text e) (λ s p. tt)))
        (λ _.
          sequence {Q = λ _. Holds tmp}
            (wrapped-Triple _ (λ e s x. x)
              (reads (λ s a p e. os.close_keeps s.outside tmp tmp ∙ p) (λ s p. tt)))
            (λ _.
              wrapped-Triple _ (λ e s x. x)
                (reads (λ s a p e. os.rename_moves s.outside tmp path e ∙ p) (λ s p. tt)))))

  -- The file holds the text where an earlier action returned no error.
  abbrev IfDone : Result (Unit {0}) → Memory S → Type 0
  IfDone r s = r ≡ ok tt → Holds path s

  returning-Holds :
      (r : Result (Unit {0})) → Triple (IfDone r) (returning r) (λ _. Holds path) (λ _. Any)
  unfolding returning
  returning-Holds r = reads (λ s a p e. p e) (λ s p. tt)

  attempt-IfDone :
      (m : Act (Memory S) (Unit {0}))
      → Triple Any m (λ _. Holds path) (λ _. Any)
      → Triple Any (attempt m) IfDone (λ _. Any)
  unfolding attempt Meets
  attempt-IfDone m t = record { run = λ s p e. after_ok t s tt e }

  removal-IfDone :
      (tmp : String) (r : Result (Unit {0}))
      → tmp ≢ path
      → Triple (IfDone r) (attempt (outer (o.remove tmp))) (λ _. IfDone r) (λ _. Any)
  unfolding attempt Meets outer
  removal-IfDone tmp r differs = record {
    run = λ s p e. os.remove_keeps s.outside tmp path differs ∙ p e;
  }

  persist_text-Holds : Triple Any (persist_text o domain text) (λ _. Holds path) (λ _. Any)
  unfolding persist_text outer
  persist_text-Holds =
      bind {Q = λ tmp s. (tmp ≢ path) × Any s}
        (wrapped-Triple _ (λ e s x. x)
          (reads (λ s a p e. (os.create_differs s.outside a e, tt)) (λ s p. tt)))
        (λ tmp. given (λ differs.
          bind (attempt-IfDone _ (fill-Holds tmp)) (λ filled.
            bind (removal-IfDone tmp filled differs) (λ removed. returning-Holds filled))))

  module _ (cert : IssuedCert) (written : o.marshal (saved_as domain cert) ≡ ok text) where
    persist-Holds : Triple Any (persist o domain cert) (λ _. Holds path) (λ _. Any)
    unfolding persist ◌>>=◌ follow wrapped with_context returning
    persist-Holds = record { run = λ s p. rw written (persist_text-Holds.run s tt) }

    keep_issued-Holds :
        Triple Any
          (keep_issued o domain cert)
          (λ _ s. (s.cache domain ≡ some cert) × Holds path s)
          (λ _. Any)
    unfolding keep_issued put
    keep_issued-Holds = sequence persist-Holds (λ _.
        sequence
          (reads {Q = λ _ s. (s.cache domain ≡ some cert) × Holds path s}
            (λ s a p e. (rw ((eq_iff domain domain).1 refl) refl, p)) (λ s p. tt))
          (λ _. pure-Triple _))

    -- The certificate is kept when it is read back.
    module _ (back : o.unmarshal text ≡ ok (without_tagged (saved_as domain cert)))
        (mine : IsFor domain cert) (named : domain ≢ "") (filled : cert.pem ≢ "") where
      ref-back :
          record cert.ref { certificate_pem = cert.pem; private_key_pem = cert.key } ≡ cert.ref
      ref-back = rw (← mine.same_pem) (rw (← mine.same_key) refl)

      keep_saved-back :
          (s : Memory S)
          → (keep_saved o (without_tagged (saved_as domain cert)) s).1.cache domain ≡ some cert
      unfolding keep_saved put
      keep_saved-back s = rw (str_eq-false named) (
          rw (str_eq-false filled) (
            rw mine.expires (
              rw ((eq_iff domain domain).1 refl)
                (ap (λ ref. some (record cert { ref = ref })) ref-back))))

      load_entry-back :
          (entry : Entry) (s : Memory S)
          → entry.is_dir ≡ false
          → o.ext entry.name ≡ ".json"
          → (o.read_file (o.member entry.name) s.outside).0 ≡ ok text
          → (load_entry o entry s).1.cache domain ≡ some cert
      unfolding load_entry ◌>>=◌ follow wrapped with_context returning outer
      load_entry-back entry s file json read =
          rw file (rw json (rw read (rw back (keep_saved-back _))))

      -- What EnsureCertificate keeps of a certificate that it was issued comes back in a new process:
      -- if keeping it returned no error and JSON gives back what was written, less the two fields of
      -- CertRef that are tagged to be left out, an entry of the storage directory that is the file of
      -- its domain, and that can be read, is loaded as the certificate that the cache had, those two
      -- fields included. The certificate is that of its domain, and neither its domain nor its PEM
      -- bundle is empty.
      pub keep_issued-loaded :
          (s : Memory S) (ref : CertRef) (entry : Entry) (read : String)
          → let (answer, s') = keep_issued o domain cert s in
            answer ≡ ok ref
            → entry.is_dir ≡ false
            → o.ext entry.name ≡ ".json"
            → o.member entry.name ≡ o.cache_path domain
            → (o.read_file (o.cache_path domain) s'.outside).0 ≡ ok read
            → (load_entry o entry (record { cache = λ d. none; outside = s'.outside })).1.cache
                domain
              ≡ s'.cache domain
      keep_issued-loaded s ref entry read kept file json here readable =
          let held = after_ok keep_issued-Holds s tt kept in
          let same =
            os.read_gives (keep_issued o domain cert s).1.outside path text read held.1 readable in
          load_entry-back entry _ file json (rw here (readable ∙ ap ok same)) ∙ sym held.0
