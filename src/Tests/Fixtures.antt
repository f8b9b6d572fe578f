-- ===== src/Tests/Fixtures.antt =====
-- A small installation: providers that answer, a database that does not fail, and one environment.
use ramify.Prelude.{
  ℕ, zero, suc, String, Bool, true, false, none, some, [], ◌∷◌, str_eq, if◌then◌else◌,
}
use ramify.Errors.{other, sentinel, invalid_webhook_signature}
use ramify.Api.{Server}
use ramify.Api.Inbox.{Inbox, WebhookRequest}
use ramify.Provider.{ok, err, GitEvent}
use ramify.World.{World, Runtime}
use ramify.Store.Types.{Environment, Event, Status, ready, zero_event}
use ramify.Core.Reconciler.{Reconciler, ApplyRequest}

abbrev pub ids : ℕ → String
ids zero = "id"
ids (suc n) = Prim.Native.String.◌++◌ "i" (ids n)

abbrev pub runtime : Runtime
runtime = record {
  db_fault = λ n. none;
  new_id = λ n. ok (ids n);
  elapsed = λ n. 1;
  cancelled = λ n. none;
}

-- the answers of the health checks and of the removals
abbrev pub reconciler : Bool → Bool → Reconciler
reconciler healthy removes = record {
  runtime = runtime;
  deploy = record {
    apply = λ n spec. ok (record { ref = "ref"; internal_addr = "10.0.0.1" });
    sleep = λ n ref. ok tt;
    wake = λ n ref. ok tt;
    destroy = λ n ref. answer removes;
    health_check = λ n ref. ok (record { healthy = healthy; detail = "" });
    install_certificate = none;
    remove_certificate = none;
  };
  dns = record { ensure_record = λ n rec. ok tt; delete_record = λ n rec. ok tt };
  cert = record {
    ensure_certificate = λ n name.
        ok (record { domain = name; expires_at = ""; certificate_pem = ""; private_key_pem = "" });
    revoke_certificate = λ n name. ok tt;
  };
  notifier = record { notify = λ n project pr_number ev. ok tt };
  codec = record {
    marshal_apply = λ req. ok req.branch;
    unmarshal_apply = λ text. err (other "bad payload");
    marshal_target = λ project branch. ok branch;
    marshal_webhook = λ ev. ok ev.branch;
    unmarshal_webhook = λ text. err (other "bad payload");
  };
  text = record {
    lower = λ c. c;
    hex_digest = λ s. 97 ∷ 98 ∷ 99 ∷ 49 ∷ 50 ∷ 51 ∷ 52 ∷ [];
    of_codes = λ s. "slug";
    path_match = λ pattern name. some (str_eq pattern name);
    equal_fold = str_eq;
  };
  base_domain = "dev.test";
  default_ttl = 100;
  policy = record {
    pr_only = false;
    allow_branches = [];
    deny_branches = "secret" ∷ [];
    required_labels = [];
  };
  max_concurrent = 1;
  jitter = λ call d. d;
  readiness_timeout = 30;
  readiness_poll_interval = 10;
}
  where
    answer : Bool → ramify.Provider.Result (Unit {0})
    answer true = ok tt
    answer false = err (other "the provider is down")

abbrev pub environment : Status → Environment
environment status = record {
  id = "env";
  project = "shop";
  branch = "main";
  pr_number = 7;
  subdomain = "main";
  artifact_ref = "image:1";
  deploy_ref = "ref";
  status = status;
  last_good_artifact_ref = "image:1";
  last_good_deploy_ref = "ref";
  pinned = false;
  ttl_expires_at = none;
  created_at = 0;
  updated_at = 0;
}

abbrev pub event : Event
event = record zero_event {
  id = "event";
  environment_id = "env";
  kind = "destroy_requested";
  payload = "main";
}

abbrev pub world : Status → World
world status = record {
  db = record { environments = environment status ∷ []; dns_records = []; events = event ∷ [] };
  past = [];
  journal = [];
  calls = 0;
  now = 1000;
  metrics = record {
    reconciliations = 0;
    reconciliation_failures = 0;
    cleanup_runs = 0;
    cleanup_failures = 0;
  };
}

abbrev pub push : String → GitEvent
push branch = record {
  kind = "branch_pushed";
  project = "shop";
  branch = branch;
  pr_number = 7;
  artifact = "image:2";
  labels = [];
  labels_known = true;
}

abbrev pub request : String → ApplyRequest
request branch = record {
  project = "shop";
  branch = branch;
  pr_number = 7;
  subdomain = branch;
  artifact_ref = "image:2";
}

abbrev pub server : Server
server = record {
  reconciler = reconciler true true;
  parse_webhook = λ body signature.
      if str_eq signature "good" then ok (push body) else err (sentinel invalid_webhook_signature);
  logs = none;
  subdomain_max = 63;
  queue_capacity = 1;
}

abbrev pub inbox : Inbox
inbox = record { queue = []; received = 0; rejected = 0; duplicates = 0 }

abbrev pub delivery : String → WebhookRequest
delivery id = record { body = ok "main"; signature = "good"; delivery = id }

-- the world after the delivery "d-1"
abbrev pub delivered_world : World
delivered_world = record (world ready) {
  db = record (world ready).db {
    events = record event { kind = "webhook_received"; dedupe_key = "d-1" } ∷ [];
  };
}
