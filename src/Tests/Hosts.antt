-- ===== src/Tests/Hosts.antt =====
-- The theorems on the Git providers and the configuration at concrete deliveries and files.
use ramify.Prelude.{
  String, true, false, ◌≡◌, refl, Option, none, some, List, [], ◌∷◌, ◌+◌, if◌then◌else◌, str_eq,
}
use ramify.Provider.{ok, GitEvent}
use ramify.Git.{github, Unmarshal, parse_with, verified_by}
use ramify.Git.Github
use ramify.Git.Hooks.{Codecs}
use ramify.Git.Trust.{IsNormal, parse_with-IsNormal}
use ramify.Config.{Network, Surroundings}
use ramify.Config.Acceptance.{load-IsStartable}
use ramify.Config.Loading.{load}
use ramify.Config.Requirements.{IsStartable, IsUnified}
use ramify.Config.Types.{Config, pos}

-- A digest is the secret itself here.
abbrev codecs : Codecs
codecs = record {
  decode_hex = λ t. some t;
  hmac_sha256 = λ secret payload. secret;
  to_upper = λ t. t;
}

abbrev pull_request : Github.PullRequest
pull_request = record {
  number = 7;
  head_ref = "feature/x";
  head_sha = "c0ffee";
  labels = "preview" ∷ [];
}

abbrev unmarshal : Unmarshal
unmarshal = record {
  to_github = λ text. ok (record {
    ref = none;
    deleted = none;
    after = none;
    action = some "opened";
    full_name = "acme/app";
    pull_request = some pull_request;
  });
  to_gitlab = λ text. ok (record {
    object_kind = "push";
    ref = "refs/heads/main";
    after = "c0ffee";
    path_with_namespace = "acme/app";
    action = "";
    state = "";
    iid = 0;
    source_branch = "";
    last_commit_id = "";
    labels = [];
  });
  to_bitbucket = λ text. ok (record { full_name = "acme/app"; changes = []; pull_request = none });
}

abbrev opened : GitEvent
opened = record {
  kind = "pr_synchronized";
  project = "acme/app";
  branch = "feature/x";
  pr_number = 7;
  artifact = "c0ffee";
  labels = "preview" ∷ [];
  labels_known = true;
}

parse_with-IsNormal_example :
    (verified_by codecs "s3cret" github "{}" "sha256=s3cret" ≡ true) × IsNormal opened
unfolding parse_with Github.verify_signature ramify.Prelude.Texts.trim_prefix Github.parse_payload
parse_with-IsNormal_example =
    parse_with-IsNormal codecs unmarshal "s3cret" github "{}" "sha256=s3cret" refl

abbrev settings : String → String → Config
settings token secret = record {
  base_domain = "preview.example";
  server = record {
    socket_path = "/run/ramify.sock";
    tcp_addr = "127.0.0.1:8080";
    tcp_token = "t0ken";
    tcp_tls_cert_file = "";
    tcp_tls_key_file = "";
    tcp_insecure_allow_remote = false;
  };
  store_path = "/var/lib/ramify.db";
  github = record { token = token; webhook_secret = secret };
  git = record { provider = ""; token = ""; webhook_secret = ""; base_url = "" };
  deploy = record {
    provider = "kubernetes";
    ssh_addr = "";
    ssh_user = "";
    ssh_private_key_path = "";
    ssh_known_hosts_path = "";
    ssh_insecure_skip_host_key_verify = false;
    compose_file = "";
    dns_target = "203.0.113.7";
    certificate_dir = "";
    kubernetes_namespace = "previews";
  };
  dns = record {
    provider = "route53";
    zone = "example";
    cloudflare_api_token = "";
    api_token = "";
    project = "";
    zone_id = "";
  };
  acme = record { email = "ops@example"; ca_dir_url = "https://ca.example"; storage_dir = "" };
  filter = record {
    pr_only = false;
    allow_branches = [];
    deny_branches = [];
    required_labels = [];
    max_concurrent_envs = pos 0;
  };
}

abbrev network : Network
network = record {
  split_host = λ addr. some "127.0.0.1";
  equal_fold = str_eq;
  parse_ip_is_loopback = λ host. some (str_eq host "127.0.0.1");
}

abbrev pub surroundings : Surroundings
surroundings = record {
  network = network;
  read_file = λ path. ok "a file";
  is_blank = λ text. str_eq text "";
  decode = λ text. ok (settings "$GITHUB_TOKEN" "${WEBHOOK_SECRET}");
  zero_config = settings "" "";
  lookup_env = λ name.
      if str_eq name "GITHUB_TOKEN"
      then some "ghp"
      else if str_eq name "WEBHOOK_SECRET"
      then some "s3cret"
      else none;
}

abbrev pub loaded_config : Config
loaded_config =
    let read = settings "ghp" "s3cret" in
    record read {
      git = record { provider = "github"; token = "ghp"; webhook_secret = "s3cret"; base_url = "" };
    }

load-IsStartable_example : IsStartable network loaded_config × IsUnified loaded_config
unfolding load ramify.Config.Loading.◌>>=◌ ramify.Config.Loading.resolve_git
    ramify.Config.Loading.resolve_env ramify.Prelude.Texts.has_prefix
    ramify.Prelude.Texts.trim_suffix ramify.Prelude.Texts.trim_prefix
    ramify.Config.Loading.resolve_dns ramify.Config.Loading.resolve_server ramify.Config.validate
    ramify.Config.is_loopback_addr
load-IsStartable_example = load-IsStartable surroundings "ramify.yaml" loaded_config refl
