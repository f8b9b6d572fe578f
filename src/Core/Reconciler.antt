-- ===== src/Core/Reconciler.antt =====
-- The reconciler's dependencies and its calls of them (internal/core/reconciler.go, event.go).
use Prim.Native.Char.{code}
use Prim.Native.String
use ramify.Prelude.{
  ℕ, String, Bool, false, Option, none, some, List, [], ◌∷◌, ◌++◌, take, str_eq, if◌then◌else◌,
}
use ramify.Provider.{
  Result, ok, err, GitEvent, EnvSpec, Deployment, Health, DnsRecord, CertRef, NotifyEvent,
  DeployProvider, DnsProvider, CertificateProvider, NotifierProvider,
}
use ramify.Policy.{Policy}
use ramify.World
use ramify.World.{Exec, Runtime, succeeded, call, pure}
use ramify.Domain

pub record ApplyRequest : Type 0 where
  pub project : String
  pub branch : String
  pub pr_number : ℕ
  pub subdomain : String
  pub artifact_ref : String

unfoldable pub apply_request_from_event : GitEvent → String → ApplyRequest
apply_request_from_event ev subdomain = record {
  project = ev.project;
  branch = ev.branch;
  pr_number = ev.pr_number;
  subdomain = subdomain;
  artifact_ref = ev.artifact;
}

-- encoding/json at the payloads of the event log
pub record Codec : Type 0 where
  pub marshal_apply : ApplyRequest → Result String
  pub unmarshal_apply : String → Result ApplyRequest
  pub marshal_target : String → String → Result String
  pub marshal_webhook : GitEvent → Result String
  pub unmarshal_webhook : String → Result GitEvent

-- the functions of Go's standard library on text
pub record TextLibrary : Type 0 where
  pub lower : ℕ → ℕ
  pub hex_digest : List ℕ → List ℕ
  pub of_codes : List ℕ → String
  pub path_match : String → String → Option Bool
  pub equal_fold : String → String → Bool

-- The fields of the source's struct, less its locks and its logger, which have
-- no effect on the state of a run. A `max_concurrent` of 0 is no ceiling.
pub record Reconciler : Type 0 where
  pub runtime : Runtime
  pub deploy : DeployProvider
  pub dns : DnsProvider
  pub cert : CertificateProvider
  pub notifier : NotifierProvider
  pub codec : Codec
  pub text : TextLibrary
  pub base_domain : String
  pub default_ttl : ℕ
  pub policy : Policy
  pub max_concurrent : ℕ
  pub jitter : ℕ → ℕ → ℕ
  pub readiness_timeout : ℕ
  pub readiness_poll_interval : ℕ

abbrev codes : String → List ℕ
codes String.[] = []
codes (String.◌∷◌ c s) = code c ∷ codes s

module _ (r : Reconciler) where
  unfoldable pub ownership_tag : String → String → String
  ownership_tag project branch = r.text.of_codes (
      codes "ramify-" ++ take 16 (r.text.hex_digest (codes project ++ (codes "/" ++ codes branch))))

  unfoldable pub fqdn : String → String
  fqdn subdomain = String.◌++◌ subdomain (String.◌++◌ "." r.base_domain)

  unfoldable pub normalized_branch : String → ℕ → String
  normalized_branch branch max_length =
      r.text.of_codes (Domain.normalize r.text.lower r.text.hex_digest (codes branch) max_length)

  unfoldable pub deploy_apply : EnvSpec → Exec Deployment
  deploy_apply spec =
      call r.runtime (λ o. World.deployment_applied spec (succeeded o)) (λ n. r.deploy.apply n spec)

  abbrev pub reports_healthy : Result Health → Bool
  reports_healthy (ok h) = h.healthy
  reports_healthy (err e) = false

  unfoldable pub health_check : String → Exec Health
  health_check ref =
      call r.runtime (λ o. World.health_checked ref (reports_healthy o))
        (λ n. r.deploy.health_check n ref)

  unfoldable pub ensure_record : DnsRecord → Exec (Unit {0})
  ensure_record rec =
      call r.runtime (λ o. World.record_ensured rec (succeeded o)) (λ n. r.dns.ensure_record n rec)

  unfoldable pub delete_record : DnsRecord → Exec (Unit {0})
  delete_record rec =
      call r.runtime (λ o. World.record_deleted rec (succeeded o)) (λ n. r.dns.delete_record n rec)

  unfoldable pub ensure_certificate : String → Exec CertRef
  ensure_certificate name =
      call r.runtime (λ o. World.certificate_ensured name (succeeded o))
        (λ n. r.cert.ensure_certificate n name)

  unfoldable pub revoke_certificate : String → Exec (Unit {0})
  revoke_certificate name =
      call r.runtime (λ o. World.certificate_revoked name (succeeded o))
        (λ n. r.cert.revoke_certificate n name)

  unfoldable pub install_with :
      Option (ℕ → String → CertRef → Result (Unit {0})) → String → CertRef → Exec (Unit {0})
  install_with none name cert = pure tt
  install_with (some install) name cert =
      if str_eq cert.certificate_pem ""
      then pure tt
      else if str_eq cert.private_key_pem ""
      then pure tt
      else call r.runtime (λ o. World.certificate_installed name (succeeded o))
          (λ n. install n name cert)

  -- only a provider with the capability is asked, and only for a complete certificate
  unfoldable pub install_certificate : String → CertRef → Exec (Unit {0})
  unfolding install_with
  install_certificate name cert = install_with r.deploy.install_certificate name cert

  unfoldable pub remove_with : Option (ℕ → String → Result (Unit {0})) → String → Exec (Unit {0})
  remove_with none name = pure tt
  remove_with (some remove) name =
      call r.runtime (λ o. World.certificate_removed name (succeeded o)) (λ n. remove n name)

  unfoldable pub remove_certificate : String → Exec (Unit {0})
  unfolding remove_with
  remove_certificate name = remove_with r.deploy.remove_certificate name

  unfoldable pub deploy_destroy : String → Exec (Unit {0})
  deploy_destroy ref =
      call r.runtime (λ o. World.deployment_destroyed ref (succeeded o))
        (λ n. r.deploy.destroy n ref)

  unfoldable pub deploy_sleep : String → Exec (Unit {0})
  deploy_sleep ref = call r.runtime (λ o. World.slept ref (succeeded o)) (λ n. r.deploy.sleep n ref)

  unfoldable pub deploy_wake : String → Exec (Unit {0})
  deploy_wake ref = call r.runtime (λ o. World.woken ref (succeeded o)) (λ n. r.deploy.wake n ref)

  -- a failure of the notifier is only logged
  unfoldable pub notify : String → ℕ → NotifyEvent → Exec (Unit {0})
  notify project pr_number ev = World.logged (
      call r.runtime (λ o. World.notified ev (succeeded o))
        (λ n. r.notifier.notify n project pr_number ev))
