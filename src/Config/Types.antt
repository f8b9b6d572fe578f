-- ===== src/Config/Types.antt =====
-- The fields of internal/config's Config that the program reads at startup.
use ramify.Prelude.{String, Bool, List, ℕ}

-- A Go `int`, as the library's integers are written: `negsuc n` is -(n + 1).
pub data ℤ : Type 0 where
  pos : ℕ → ℤ
  negsuc : ℕ → ℤ

pub record ServerConfig : Type 0 where
  pub socket_path : String
  pub tcp_addr : String
  pub tcp_token : String
  pub tcp_tls_cert_file : String
  pub tcp_tls_key_file : String
  pub tcp_insecure_allow_remote : Bool

pub record GitHubConfig : Type 0 where
  pub token : String
  pub webhook_secret : String

pub record GitConfig : Type 0 where
  pub provider : String
  pub token : String
  pub webhook_secret : String
  pub base_url : String

pub record DeployConfig : Type 0 where
  pub provider : String
  pub ssh_addr : String
  pub ssh_user : String
  pub ssh_private_key_path : String
  pub ssh_known_hosts_path : String
  pub ssh_insecure_skip_host_key_verify : Bool
  pub compose_file : String
  pub dns_target : String
  pub certificate_dir : String
  pub kubernetes_namespace : String

pub record DnsConfig : Type 0 where
  pub provider : String
  pub zone : String
  pub cloudflare_api_token : String
  pub api_token : String
  pub project : String
  pub zone_id : String

pub record AcmeConfig : Type 0 where
  pub email : String
  pub ca_dir_url : String
  pub storage_dir : String

pub record FilterConfig : Type 0 where
  pub pr_only : Bool
  pub allow_branches : List String
  pub deny_branches : List String
  pub required_labels : List String
  pub max_concurrent_envs : ℤ

pub record Config : Type 0 where
  pub base_domain : String
  pub server : ServerConfig
  pub store_path : String
  pub github : GitHubConfig
  pub git : GitConfig
  pub deploy : DeployConfig
  pub dns : DnsConfig
  pub acme : AcmeConfig
  pub filter : FilterConfig
