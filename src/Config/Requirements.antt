-- ===== src/Config/Requirements.antt =====
-- What startup requires of a configuration.
use ramify.Prelude.{ℕ, String, true, ◌≡◌, ◌≢◌, ◌⊎◌}
use ramify.Config.{or_default, Network, is_loopback_addr}
use ramify.Config.Types.{pos, Config, ServerConfig, DeployConfig, DnsConfig}

-- How the control API may be reached over TCP: not at all, or with a token, and then over TLS, on the
-- loopback interface, or by an explicit choice.
pub record IsGuarded (n : Network) (s : ServerConfig) : Type 0 where
  pub has_socket : s.socket_path ≢ ""
  pub has_token : s.tcp_addr ≢ "" → s.tcp_token ≢ ""
  pub is_private :
      s.tcp_addr ≢ ""
      → (s.tcp_insecure_allow_remote ≡ true)
        ⊎ (is_loopback_addr n s.tcp_addr ≡ true)
        ⊎ ((s.tcp_tls_cert_file ≢ "") × (s.tcp_tls_key_file ≢ ""))

pub record IsGitReady (provider token secret : String) : Type 0 where
  pub has_token : token ≢ ""
  pub has_secret : secret ≢ ""
  pub is_known : (provider ≡ "github") ⊎ (provider ≡ "gitlab") ⊎ (provider ≡ "bitbucket")

-- A Compose host is reached with a key, and its own key is checked or explicitly not.
pub record IsComposeReady (d : DeployConfig) : Type 0 where
  pub has_host : d.ssh_addr ≢ ""
  pub has_file : d.compose_file ≢ ""
  pub has_key : d.ssh_private_key_path ≢ ""
  pub has_certificates : d.certificate_dir ≢ ""
  pub is_verified : (d.ssh_known_hosts_path ≢ "") ⊎ (d.ssh_insecure_skip_host_key_verify ≡ true)

pub record IsDeployReady (provider : String) (d : DeployConfig) : Type 0 where
  pub is_known : (provider ≡ "compose") ⊎ (provider ≡ "kubernetes")
  pub has_target : d.dns_target ≢ ""
  pub has_namespace : provider ≡ "kubernetes" → d.kubernetes_namespace ≢ ""
  pub has_compose : provider ≡ "compose" → IsComposeReady d

-- Only Google Cloud and Route 53 take their credentials from the surroundings.
pub record IsDnsReady (provider : String) (d : DnsConfig) : Type 0 where
  pub has_zone : d.zone ≢ ""
  pub has_token :
      provider ≢ "googlecloud"
      → provider ≢ "route53"
      → (d.api_token ≢ "") ⊎ (d.cloudflare_api_token ≢ "")
  pub is_known :
      (provider ≡ "cloudflare")
      ⊎ (provider ≡ "route53")
      ⊎ (provider ≡ "googlecloud")
      ⊎ (provider ≡ "digitalocean")
  pub has_project : provider ≡ "googlecloud" → (d.project ≢ "") × (d.zone_id ≢ "")

pub record IsStartable (n : Network) (c : Config) : Type 0 where
  pub has_domain : c.base_domain ≢ ""
  pub has_store : c.store_path ≢ ""
  pub guarded : IsGuarded n c.server
  pub git_ready :
      IsGitReady
        (or_default c.git.provider "github")
        (or_default c.git.token c.github.token)
        (or_default c.git.webhook_secret c.github.webhook_secret)
  pub deploy_ready : IsDeployReady (or_default c.deploy.provider "compose") c.deploy
  pub dns_ready : IsDnsReady (or_default c.dns.provider "cloudflare") c.dns
  pub has_email : c.acme.email ≢ ""
  pub has_directory : c.acme.ca_dir_url ≢ ""
  pub has_ceiling : (m : ℕ) × (c.filter.max_concurrent_envs ≡ pos m)

-- The legacy blocks carry the same secrets as the blocks that replace them.
pub record IsUnified (c : Config) : Type 0 where
  pub same_token : c.github.token ≡ c.git.token
  pub same_secret : c.github.webhook_secret ≡ c.git.webhook_secret
  pub same_dns_token : c.dns.cloudflare_api_token ≡ c.dns.api_token
