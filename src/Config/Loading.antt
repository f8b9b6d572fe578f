-- ===== src/Config/Loading.antt =====
-- Load and resolveEnv of internal/config/config.go.
use ramify.Prelude.{String, not, ◌||◌, Option, none, some, if◌then◌else◌}
use ramify.Prelude.Texts.{has_prefix, trim_prefix, trim_suffix}
use ramify.Errors.{Err, other, wrap}
use ramify.Provider.{Result, ok, err}
use ramify.Config.{is_empty, or_default, Surroundings, validate}
use ramify.Config.Types.{Config}

-- `if err != nil { return nil, err }`, and what follows
unfoldable pub proceed : {Next Read : Type 0} → (Read → Result Next) → Result Read → Result Next
proceed next (err e) = err e
proceed next (ok read) = next read

infixl 10 ◌>>=◌
unfoldable pub ◌>>=◌ : {Read Next : Type 0} → Result Read → (Read → Result Next) → Result Next
unfolding proceed
r >>= next = proceed next r

unfoldable pub with_context : {A : Type 0} → String → Result A → Result A
with_context text (ok a) = ok a
with_context text (err e) = err (wrap text e)

unfoldable pub looked_up : Option String → Result String
looked_up none = err (other "environment variable is not set")
looked_up (some value) = ok value

unfoldable pub resolve_env : (String → Option String) → String → Result String
unfolding looked_up
resolve_env lookup value =
    if is_empty value || not (has_prefix value "$")
    then ok value
    else looked_up (lookup (trim_suffix (trim_prefix (trim_prefix value "$") "{") "}"))

unfoldable pub resolve_git : (String → Option String) → Config → Result Config
unfolding or_default with_context
resolve_git lookup cfg = do
  token ←
      with_context "config: git.token"
        (resolve_env lookup (or_default cfg.git.token cfg.github.token))
  secret ←
      with_context "config: git.webhook_secret"
        (resolve_env lookup (or_default cfg.git.webhook_secret cfg.github.webhook_secret))
  ok (record cfg {
    git = record cfg.git {
      provider = or_default cfg.git.provider "github";
      token = token;
      webhook_secret = secret;
    };
    github = record { token = token; webhook_secret = secret };
  })

unfoldable pub resolve_dns : (String → Option String) → Config → Result Config
unfolding or_default with_context
resolve_dns lookup cfg = do
  token ←
      with_context "config: dns.api_token"
        (resolve_env lookup (or_default cfg.dns.api_token cfg.dns.cloudflare_api_token))
  ok (record cfg {
    dns = record cfg.dns {
      provider = or_default cfg.dns.provider "cloudflare";
      api_token = token;
      cloudflare_api_token = token;
    };
  })

unfoldable pub resolve_server : (String → Option String) → Config → Result Config
unfolding with_context
resolve_server lookup cfg = do
  token ← with_context "config: server.tcp_token" (resolve_env lookup cfg.server.tcp_token)
  ok (record cfg { server = record cfg.server { tcp_token = token } })

unfoldable pub decoded : Surroundings → String → Result Config
unfolding with_context
decoded x data_text =
    if x.is_blank data_text
    then ok x.zero_config
    else with_context "config: parsing" (x.decode data_text)

unfoldable pub accepted : Config → Option Err → Result Config
accepted cfg none = ok cfg
accepted cfg (some e) = err (wrap "config" e)

unfoldable pub load : Surroundings → String → Result Config
unfolding decoded with_context accepted
load x path = do
  text ← with_context "config: reading" (x.read_file path)
  read ← decoded x text
  with_git ← resolve_git x.lookup_env read
  with_dns ← resolve_dns x.lookup_env with_git
  cfg ← resolve_server x.lookup_env with_dns
  accepted cfg (validate x.network cfg)
