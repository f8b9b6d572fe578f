-- ===== src/Cert/Loading.antt =====
-- The certificates that a new process reads: loadCache of providers/cert/acme/acme.go.
use ramify.Prelude.{not, str_eq, ◌||◌, if◌then◌else◌, some, List, [], ◌∷◌}
use ramify.Dns.Client.{Act, pure, ◌>>=◌, ◌>>◌, wrapped}
use ramify.Cert.{PersistedCertificate, Entry, Surroundings, Memory, is_set, outer, returning, put}

module _ {S : Type 0} (o : Surroundings S) where
  unfoldable pub keep_saved : PersistedCertificate → Act (Memory S) (Unit {0})
  unfolding put is_set
  keep_saved saved =
      if str_eq saved.domain "" || str_eq saved.pem "" || not (is_set saved.expires_at)
      then pure tt
      else put saved.domain (
          some (record {
            ref = record saved.ref {
              certificate_pem = saved.pem;
              private_key_pem = saved.private_key;
            };
            pem = saved.pem;
            key = saved.private_key;
            leaf = saved.expires_at;
          }))

  unfoldable pub load_entry : Entry → Act (Memory S) (Unit {0})
  unfolding keep_saved
  load_entry entry =
      if entry.is_dir || not (str_eq (o.ext entry.name) ".json") then pure tt else (do
        text ← wrapped "reading persisted certificate" (outer (o.read_file (o.member entry.name)))
        saved ← wrapped "decoding persisted certificate" (returning (o.unmarshal text))
        keep_saved saved)

  unfoldable pub load_entries : List Entry → Act (Memory S) (Unit {0})
  unfolding load_entry
  load_entries [] = pure tt
  load_entries (entry ∷ rest) = load_entry entry >> load_entries rest

  unfoldable pub load_cache : Act (Memory S) (Unit {0})
  unfolding load_entries
  load_cache = do
    entries ← wrapped "reading certificate storage" (outer o.read_dir)
    load_entries entries
