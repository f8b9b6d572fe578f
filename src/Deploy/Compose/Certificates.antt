-- ===== src/Deploy/Compose/Certificates.antt =====
-- Certificates on the deploy host: InstallCertificate and RemoveCertificate of
-- providers/deploy/compose/compose.go.
use ramify.Prelude.{String, ◌≡◌, ◌≢◌, refl, some, List, [], ◌∷◌, ◌++◌}
use ramify.Provider.{err}
use ramify.Dns.Client.{raise}
use ramify.Dns.Texts.{Text}
use ramify.Deploy.Shell.{Token, word, operator, tokens_of, scan}
use ramify.Prelude.Codes.{chars}
use ramify.Deploy.Compose.{
  Library, Provider, certificate_path, install_command, remove_command, concat, install_certificate,
  remove_certificate, with_directory, directory_missing,
}
use ramify.Deploy.Compose.Quoting.{quoted_between}
use ramify.Deploy.Compose.Commands.{words, Sends, Sends-run}

-- FIRST && SECOND
abbrev pub and_then : List Token → List Token → List Token
and_then first second = first ++ operator 38 ∷ operator 38 ∷ second

-- printf '%s' ENCODED | base64 -d > PATH
abbrev pub decode_into : Text → Text → List Token
decode_into encoded path =
    words ("printf" ∷ "%s" ∷ [])
    ++ word encoded ∷ operator 124 ∷ (words ("base64" ∷ "-d" ∷ []) ++ operator 62 ∷ word path ∷ [])

-- chmod MODE PATH
abbrev pub chmod : Text → Text → List Token
chmod mode path = word (chars "chmod") ∷ word mode ∷ word path ∷ []

module _ (l : Library) {S : Type 0} (p : Provider S) (domain : Text) where
  abbrev pub crt : Text
  crt = certificate_path l p domain ".crt"

  abbrev pub key : Text
  key = certificate_path l p domain ".key"

  abbrev pub install_tokens : Text → Text → List Token
  install_tokens certificate_pem private_key_pem =
      and_then (words ("mkdir" ∷ "-p" ∷ []) ++ word p.certificate_dir ∷ []) (
        and_then (decode_into (l.base64 certificate_pem) crt) (
          and_then (decode_into (l.base64 private_key_pem) key)
            (and_then (chmod (chars "0644") crt) (chmod (chars "0600") key))))

  install-read :
      (certificate_pem private_key_pem : Text)
      → tokens_of (install_command l p domain certificate_pem private_key_pem)
        ≡ some (install_tokens certificate_pem private_key_pem)
  unfolding tokens_of install_command concat scan
  install-read certificate_pem private_key_pem =
      rw
        (
          quoted_between p.certificate_dir,
          quoted_between (l.base64 certificate_pem),
          quoted_between crt,
        )
        (rw (quoted_between (l.base64 private_key_pem), quoted_between key)
          (rw (quoted_between crt, quoted_between key) refl))

  remove-read :
      tokens_of (remove_command l p domain)
      ≡ some (words ("rm" ∷ "-f" ∷ []) ++ word crt ∷ word key ∷ [])
  unfolding tokens_of remove_command concat scan
  remove-read = rw (quoted_between crt, quoted_between key) refl

  with_directory-Sends :
      (dir : Text) (text : String) (command : Text) {tokens : List Token}
      → dir ≢ []
      → tokens_of command ≡ some tokens
      → Sends p (with_directory l p dir text command) tokens
  unfolding with_directory
  with_directory-Sends [] text command configured h = absurd (configured refl)
  with_directory-Sends (c ∷ dir) text command configured h = Sends-run p (λ _. tt) text command h

  -- Where the certificate directory is configured, InstallCertificate and RemoveCertificate send one
  -- command each, in which the shell reads the directory, the encoded certificate and key and the
  -- two paths, which hold the domain by its digest only, as one word each, whatever characters
  -- they hold.
  pub certificates-Sends :
      (certificate_pem private_key_pem : Text)
      → p.certificate_dir ≢ []
      → Sends p
          (install_certificate l p domain certificate_pem private_key_pem)
          (install_tokens certificate_pem private_key_pem)
        × Sends p
            (remove_certificate l p domain)
            (words ("rm" ∷ "-f" ∷ []) ++ word crt ∷ word key ∷ [])
  unfolding install_certificate remove_certificate
  certificates-Sends certificate_pem private_key_pem configured = (
    with_directory-Sends _ _ _ configured (install-read certificate_pem private_key_pem),
    with_directory-Sends _ _ _ configured remove-read,
  )

  -- Where the certificate directory is not configured, InstallCertificate and RemoveCertificate
  -- return an error and send the host nothing.
  pub certificates_refused :
      (certificate_pem private_key_pem : Text) (s : S)
      → p.certificate_dir ≡ []
      → (install_certificate l p domain certificate_pem private_key_pem s
          ≡ (err directory_missing, s))
        × (remove_certificate l p domain s ≡ (err directory_missing, s))
  unfolding install_certificate remove_certificate with_directory raise directory_missing
  certificates_refused certificate_pem private_key_pem s none' = rw none' (refl, refl)
