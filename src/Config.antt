-- ===== src/Config.antt =====
-- The configuration file: internal/config/config.go. The YAML decoder, the file system, the
-- environment and the `net` package are its parameters.
pub mod Loading
pub mod Types
pub mod Acceptance
pub mod Checks
pub mod Requirements
use ramify.Prelude.{
  String, Bool, true, false, not, ◌&&◌, ◌||◌, Option, none, some, List, [], ◌∷◌, if◌then◌else◌,
  str_eq,
}
use ramify.Prelude.Texts.{has_prefix, trim_prefix, trim_suffix}
use ramify.Errors.{Err, other, wrap}
use ramify.Provider.{Result, ok, err}
use ramify.Config.Types.{
  ℤ, pos, negsuc, ServerConfig, GitHubConfig, GitConfig, DeployConfig, DnsConfig, AcmeConfig,
  FilterConfig, Config,
}

abbrev pub is_empty : String → Bool
is_empty s = str_eq s ""

unfoldable pub or_default : String → String → String
or_default s default = if is_empty s then default else s

-- net.SplitHostPort's host, strings.EqualFold, and net.ParseIP with IsLoopback
pub record Network : Type 0 where
  pub split_host : String → Option String
  pub equal_fold : String → String → Bool
  pub parse_ip_is_loopback : String → Option Bool

-- os.ReadFile, whether a text is blank, yaml's Decode, and os.LookupEnv
pub record Surroundings : Type 0 where
  pub network : Network
  pub read_file : String → Result String
  pub is_blank : String → Bool
  pub decode : String → Result Config
  pub zero_config : Config
  pub lookup_env : String → Option String

unfoldable pub host_of : String → Option String → String
host_of addr none = addr
host_of addr (some host) = host

unfoldable pub is_loopback_ip : Option Bool → Bool
is_loopback_ip none = false
is_loopback_ip (some loopback) = loopback

unfoldable pub is_loopback_addr : Network → String → Bool
unfolding host_of is_loopback_ip
is_loopback_addr n addr =
    let host = host_of addr (n.split_host addr) in
    n.equal_fold host "localhost" || is_loopback_ip (n.parse_ip_is_loopback host)

-- `if missing { missing = append(missing, text) }`, and the checks that follow
unfoldable pub lacking : Bool → String → List String → List String
lacking missing text rest = if missing then text ∷ rest else rest

unfoldable pub lacking_server : Network → ServerConfig → List String → List String
unfolding lacking
lacking_server n s rest =
    let remote = not (is_empty s.tcp_addr) in
    let tls_configured = not (is_empty s.tcp_tls_cert_file) && not (is_empty s.tcp_tls_key_file) in
    lacking (is_empty s.socket_path) "server.socket_path" (
      lacking (remote && is_empty s.tcp_token) "server.tcp_token" (
        lacking
          (remote
            && not tls_configured
            && not s.tcp_insecure_allow_remote
            && not (is_loopback_addr n s.tcp_addr))
          "server.tcp_tls_cert_file and server.tcp_tls_key_file" rest))

unfoldable pub lacking_git : String → String → String → List String → List String
unfolding lacking
lacking_git provider token secret rest = lacking (is_empty token) "git.token" (
    lacking (is_empty secret) "git.webhook_secret" (
      lacking
        (not (str_eq provider "github")
          && not (str_eq provider "gitlab")
          && not (str_eq provider "bitbucket"))
        "git.provider (github, gitlab, or bitbucket)" rest))

unfoldable pub lacking_compose : DeployConfig → List String → List String
unfolding lacking
lacking_compose d rest = lacking (is_empty d.ssh_addr) "deploy.ssh_addr" (
    lacking (is_empty d.compose_file) "deploy.compose_file" (
      lacking (is_empty d.ssh_private_key_path) "deploy.ssh_private_key_path" (
        lacking (is_empty d.certificate_dir) "deploy.certificate_dir" (
          lacking (is_empty d.ssh_known_hosts_path && not d.ssh_insecure_skip_host_key_verify)
            "deploy.ssh_known_hosts_path" rest))))

unfoldable pub lacking_platform : String → DeployConfig → List String → List String
unfolding lacking
lacking_platform provider d rest =
    lacking (not (str_eq provider "compose") && not (str_eq provider "kubernetes"))
      "deploy.provider (compose or kubernetes)"
      (lacking (is_empty d.dns_target) "deploy.dns_target" (
        lacking (str_eq provider "kubernetes" && is_empty d.kubernetes_namespace)
          "deploy.kubernetes_namespace" rest))

unfoldable pub lacking_deploy : String → DeployConfig → List String → List String
unfolding lacking_compose lacking_platform
lacking_deploy provider d rest =
    if str_eq provider "compose"
    then lacking_compose d (lacking_platform provider d rest)
    else lacking_platform provider d rest

unfoldable pub lacking_dns : String → DnsConfig → List String → List String
unfolding lacking
lacking_dns provider d rest = lacking (is_empty d.zone) "dns.zone" (
    lacking
      (not (str_eq provider "googlecloud")
        && not (str_eq provider "route53")
        && is_empty d.api_token
        && is_empty d.cloudflare_api_token)
      "dns.api_token"
      (lacking
        (not (str_eq provider "cloudflare")
          && not (str_eq provider "route53")
          && not (str_eq provider "googlecloud")
          && not (str_eq provider "digitalocean"))
        "dns.provider (cloudflare, route53, googlecloud, or digitalocean)"
        (lacking (str_eq provider "googlecloud" && is_empty d.project) "dns.project"
          (lacking (str_eq provider "googlecloud" && is_empty d.zone_id) "dns.zone_id" rest))))

abbrev pub is_negative : ℤ → Bool
is_negative (pos n) = false
is_negative (negsuc n) = true

unfoldable pub missing_fields : Network → Config → List String
unfolding or_default lacking lacking_server lacking_git lacking_deploy lacking_dns
missing_fields n c = lacking (is_empty c.base_domain) "base_domain" (
    lacking (is_empty c.store_path) "store.path" (
      lacking_server n c.server (
        lacking_git (or_default c.git.provider "github") (or_default c.git.token c.github.token)
          (or_default c.git.webhook_secret c.github.webhook_secret)
          (lacking_deploy (or_default c.deploy.provider "compose") c.deploy (
            lacking_dns (or_default c.dns.provider "cloudflare") c.dns (
              lacking (is_empty c.acme.email) "acme.email" (
                lacking (is_empty c.acme.ca_dir_url) "acme.ca_dir_url" (
                  lacking (is_negative c.filter.max_concurrent_envs) "filter.max_concurrent_envs"
                    []))))))))

unfoldable pub refused : List String → Option Err
refused [] = none
refused (text ∷ rest) = some (other "missing required fields")

unfoldable pub validate : Network → Config → Option Err
unfolding refused missing_fields
validate n c = refused (missing_fields n c)
