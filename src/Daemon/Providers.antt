-- ===== src/Daemon/Providers.antt =====
-- The providers that the daemon is built with: newDNSProvider, newDeployProvider,
-- deployHostKeyCallback and acmeStorageDir of cmd/ramifyd/main.go. Reading and parsing keys is done by
-- os, golang.org/x/crypto/ssh and its knownhosts, which are parameters.
pub mod Startup
use ramify.Prelude.{String, Bool, true, not, ◌&&◌, str_eq, if◌then◌else◌}
use ramify.Errors.{Err, other, wrap}
use ramify.Provider.{Result, ok, err}
use ramify.Config.{or_default}
use ramify.Config.Types.{Config, DeployConfig, DnsConfig}
use ramify.Config.Loading.{with_context, ◌>>=◌}

pub data DnsHost : Type 0 where
  cloudflare route53 googlecloud digitalocean : DnsHost

-- The choice of the provider, before its host's library is set up.
unfoldable pub new_dns_provider : String → Result DnsHost
new_dns_provider provider =
    if str_eq provider "cloudflare"
    then ok cloudflare
    else if str_eq provider "route53"
    then ok route53
    else if str_eq provider "googlecloud"
    then ok googlecloud
    else if str_eq provider "digitalocean"
    then ok digitalocean
    else err (other "unsupported dns provider")

-- os.ReadFile, ssh.ParsePrivateKey, knownhosts.New and ssh.InsecureIgnoreHostKey; keys and callbacks are
-- what these return.
pub record SshLibrary (Signer HostKeyCallback : Type 0) : Type 0 where
  pub read_file : String → Result String
  pub parse_private_key : String → Result Signer
  pub known_hosts : String → Result HostKeyCallback
  pub insecure_ignore_host_key : HostKeyCallback

-- The arguments of compose.New, and of kubernetes.New as far as they are checked.
pub data DeployTarget (Signer HostKeyCallback : Type 0) : Type 0 where
  compose :
      String
      → String
      → Signer
      → HostKeyCallback
      → String
      → String
      → DeployTarget Signer HostKeyCallback
  kubernetes : String → String → DeployTarget Signer HostKeyCallback

module _ {K C : Type 0} (x : SshLibrary K C) where
  unfoldable pub deploy_host_key_callback : String → Bool → Result C
  unfolding with_context
  deploy_host_key_callback known_hosts_path insecure =
      if str_eq known_hosts_path ""
      then (if not insecure
          then err (other "deploy.ssh_known_hosts_path is required")
          else ok x.insecure_ignore_host_key)
      else with_context "loading known_hosts" (x.known_hosts known_hosts_path)

  unfoldable pub new_compose : DeployConfig → Result (DeployTarget K C)
  unfolding with_context
  new_compose d = do
    key_bytes ← with_context "reading ssh private key" (x.read_file d.ssh_private_key_path)
    signer ← with_context "parsing ssh private key" (x.parse_private_key key_bytes)
    host_key_callback ←
        deploy_host_key_callback d.ssh_known_hosts_path d.ssh_insecure_skip_host_key_verify
    ok (compose d.ssh_addr d.ssh_user signer host_key_callback d.compose_file d.dns_target)

  -- Both providers implement CertificateInstaller.
  unfoldable pub installs_certificates : DeployTarget K C → Bool
  installs_certificates (compose addr user signer callback file target) = true
  installs_certificates (kubernetes namespace target) = true

  unfoldable pub with_certificates : DeployConfig → DeployTarget K C → Result (DeployTarget K C)
  with_certificates d target =
      if not (str_eq d.certificate_dir "") && not (installs_certificates target)
      then err (
          other
            "deploy provider does not support certificate installation but deploy.certificate_dir is set")
      else ok target

  unfoldable pub new_deploy_provider : DeployConfig → Result (DeployTarget K C)
  unfolding new_compose with_certificates
  new_deploy_provider d =
      let provider = or_default d.provider "compose" in
      do
        target ←
            (if str_eq provider "kubernetes"
              then ok (kubernetes d.kubernetes_namespace d.dns_target)
              else if str_eq provider "compose"
              then new_compose d
              else err (other "unsupported deploy provider"))
        with_certificates d target
