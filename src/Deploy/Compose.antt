-- ===== src/Deploy/Compose.antt =====
-- providers/deploy/compose/compose.go, over code points: `docker compose` on a host that runs the
-- commands it is sent. The connection to the host is the `commandRunner` of the source.
pub mod Quoting
pub mod Commands
pub mod Certificates
pub mod Names
use ramify.Prelude.{
  ℕ, ◌-◌, Bool, true, false, String, List, [], ◌∷◌, ◌++◌, ◌==◌, if◌then◌else◌, length,
}
use ramify.Prelude.Codes.{chars}
use ramify.Domain
use ramify.Errors.{Err, other}
use ramify.Provider.{Result, ok, err}
use ramify.Dns.Client.{Act, pure, raise, ◌>>=◌, wrapped}
use ramify.Dns.Texts.{Text, same_text}

-- fmt.Sprintf, at the parts of the format and the arguments between them
unfoldable pub concat : List Text → Text
concat [] = []
concat (s ∷ rest) = s ++ concat rest

-- The fields of providerapi.EnvSpec that the provider reads.
pub record Spec : Type 0 where
  pub project : Text
  pub branch : Text
  pub artifact_ref : Text
  pub previous_ref : Text

pub record Deployment : Type 0 where
  pub ref : Text
  pub internal_addr : Text

pub record Status : Type 0 where
  pub healthy : Bool
  pub detail : String

-- unicode.ToLower, the hexadecimal digits of sha256, base64 and unicode.IsSpace
pub record Library : Type 0 where
  pub lower : ℕ → ℕ
  pub hex_digest : Text → Text
  pub base64 : Text → Text
  pub is_space : ℕ → Bool

-- `run` is the runner's Run: the combined output of a command.
pub record Provider (S : Type 0) : Type 0 where
  pub run : Text → Act S Text
  pub compose_file : Text
  pub dns_target : Text
  pub certificate_dir : Text

unfoldable pub directory_missing : Err
directory_missing = other "compose: certificate directory is not configured"

-- `'` becomes `'"'"'`
unfoldable pub escape_quotes : Text → Text
escape_quotes [] = []
escape_quotes (c ∷ s) =
    let rest = escape_quotes s in if c == 39 then 39 ∷ 34 ∷ 39 ∷ 34 ∷ 39 ∷ rest else c ∷ rest

unfoldable pub shell_quote : Text → Text
unfolding escape_quotes
shell_quote s = 39 ∷ (escape_quotes s ++ 39 ∷ [])

abbrev pub max_project_name_length : ℕ
max_project_name_length = 63

unfoldable pub or_else : Text → Text → Text
or_else [] name = name
or_else (c ∷ s) name = c ∷ s

module _ (l : Library) where
  unfoldable pub project_name : Text → Text → Text
  project_name project branch =
      chars "ramify-"
      ++ Domain.normalize l.lower l.hex_digest (project ++ (chars "-" ++ branch))
          (max_project_name_length - length (chars "ramify-"))

  -- the name that Apply runs under
  unfoldable pub name_of : Spec → Text
  unfolding or_else project_name
  name_of spec = or_else spec.previous_ref (project_name spec.project spec.branch)

  unfoldable pub trim_space_left : Text → Text
  trim_space_left [] = []
  trim_space_left (c ∷ s) = let rest = trim_space_left s in if l.is_space c then rest else c ∷ s

  unfoldable pub trim_space_onto : ℕ → Text → Text
  trim_space_onto c [] = if l.is_space c then [] else c ∷ []
  trim_space_onto c (d ∷ s) = c ∷ d ∷ s

  unfoldable pub trim_space_right : Text → Text
  unfolding trim_space_onto
  trim_space_right [] = []
  trim_space_right (c ∷ s) = trim_space_onto c (trim_space_right s)

  -- strings.TrimSpace
  unfoldable pub trim_space : Text → Text
  unfolding trim_space_left trim_space_right
  trim_space s = trim_space_right (trim_space_left s)

  unfoldable pub status_of : Text → Status
  unfolding trim_space
  status_of out =
      if same_text (trim_space out) []
      then record { healthy = false; detail = "no running containers" }
      else record { healthy = true; detail = "running" }

  module _ {S : Type 0} (p : Provider S) where
    unfoldable pub apply_command : Spec → Text
    unfolding concat
    apply_command spec = concat (
        chars "IMAGE_TAG="
        ∷ shell_quote spec.artifact_ref
        ∷ chars " COMPOSE_PROJECT_NAME="
        ∷ shell_quote (name_of spec)
        ∷ chars " docker compose -f "
        ∷ shell_quote p.compose_file
        ∷ chars " up -d"
        ∷ [])

    unfoldable pub apply : Spec → Act S Deployment
    unfolding apply_command
    apply spec = do
      out ← wrapped "compose: apply" (p.run (apply_command spec))
      pure (record { ref = name_of spec; internal_addr = p.dns_target })

    -- "docker compose -p %s -f %s ..."
    unfoldable pub project_command : Text → String → Text
    unfolding concat
    project_command ref rest = concat (
        chars "docker compose -p "
        ∷ shell_quote ref
        ∷ chars " -f "
        ∷ shell_quote p.compose_file
        ∷ chars rest
        ∷ [])

    unfoldable pub sleep : Text → Act S (Unit {0})
    unfolding project_command
    sleep ref = do out ← wrapped "compose: sleep" (p.run (project_command ref " stop")); pure tt

    unfoldable pub wake : Text → Act S (Unit {0})
    unfolding project_command
    wake ref = do out ← wrapped "compose: wake" (p.run (project_command ref " start")); pure tt

    unfoldable pub destroy : Text → Act S (Unit {0})
    unfolding project_command
    destroy ref = do
      out ←
          wrapped "compose: destroy"
            (p.run (project_command ref " down --volumes --remove-orphans"))
      pure tt

    unfoldable pub health_check : Text → Act S Status
    unfolding project_command status_of
    health_check ref = do
      out ← wrapped "compose: health check" (p.run (project_command ref " ps --status running -q"))
      pure (status_of out)

    unfoldable pub logs : Text → Act S Text
    unfolding project_command
    logs ref = wrapped "compose: logs" (p.run (project_command ref " logs --no-color --tail=500"))

    unfoldable pub certificate_path : Text → String → Text
    unfolding concat
    certificate_path domain extension =
        concat (p.certificate_dir ∷ chars "/" ∷ l.hex_digest domain ∷ chars extension ∷ [])

    unfoldable pub install_command : Text → Text → Text → Text
    unfolding concat
    install_command domain certificate_pem private_key_pem =
        let cert = shell_quote (certificate_path domain ".crt") in
        let key = shell_quote (certificate_path domain ".key") in
        concat (
          chars "mkdir -p "
          ∷ shell_quote p.certificate_dir
          ∷ chars " && printf '%s' "
          ∷ shell_quote (l.base64 certificate_pem)
          ∷ chars " | base64 -d > "
          ∷ cert
          ∷ chars " && printf '%s' "
          ∷ shell_quote (l.base64 private_key_pem)
          ∷ chars " | base64 -d > "
          ∷ key
          ∷ chars " && chmod 0644 "
          ∷ cert
          ∷ chars " && chmod 0600 "
          ∷ key
          ∷ [])

    unfoldable pub remove_command : Text → Text
    unfolding concat
    remove_command domain = concat (
        chars "rm -f "
        ∷ shell_quote (certificate_path domain ".crt")
        ∷ chars " "
        ∷ shell_quote (certificate_path domain ".key")
        ∷ [])

    -- `if p.certificateDir == "" { return ... }`, then the command
    unfoldable pub with_directory : Text → String → Text → Act S (Unit {0})
    with_directory [] text command = raise directory_missing
    with_directory (c ∷ s) text command = do out ← wrapped text (p.run command); pure tt

    unfoldable pub install_certificate : Text → Text → Text → Act S (Unit {0})
    unfolding with_directory install_command
    install_certificate domain certificate_pem private_key_pem =
        with_directory p.certificate_dir "compose: install certificate"
          (install_command domain certificate_pem private_key_pem)

    unfoldable pub remove_certificate : Text → Act S (Unit {0})
    unfolding with_directory remove_command
    remove_certificate domain =
        with_directory p.certificate_dir "compose: remove certificate" (remove_command domain)
