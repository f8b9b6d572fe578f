-- ===== src/Store/Types.antt =====
-- The rows of the store (internal/store/store.go). Times are instants on one clock, counted from a
-- fixed origin; an optional time is a nullable column.
use ramify.Prelude.{ℕ, String, Bool, false, Option, none, List, [], ◌==◌, str_eq}
use ramify.Errors.{Err}

-- The column is text: `unknown` is any other text.
pub data Status : Type 0 where
  pending deploying ready failed sleeping destroying destroyed degraded : Status
  unknown : String → Status

status_code : Status → ℕ
status_code pending = 0
status_code deploying = 1
status_code ready = 2
status_code failed = 3
status_code sleeping = 4
status_code destroying = 5
status_code destroyed = 6
status_code degraded = 7
status_code (unknown s) = 8

-- `==` on the texts
unfoldable pub same_status : Status → Status → Bool
unfolding status_code
same_status (unknown s) (unknown t) = str_eq s t
same_status s t = status_code s == status_code t

pub record Environment : Type 0 where
  pub id : String
  pub project : String
  pub branch : String
  pub pr_number : ℕ
  pub subdomain : String
  pub artifact_ref : String
  pub deploy_ref : String
  pub status : Status
  pub last_good_artifact_ref : String
  pub last_good_deploy_ref : String
  pub pinned : Bool
  pub ttl_expires_at : Option ℕ
  pub created_at : ℕ
  pub updated_at : ℕ

-- `Environment{}`
abbrev pub zero_environment : Environment
zero_environment = record {
  id = "";
  project = "";
  branch = "";
  pr_number = 0;
  subdomain = "";
  artifact_ref = "";
  deploy_ref = "";
  status = unknown "";
  last_good_artifact_ref = "";
  last_good_deploy_ref = "";
  pinned = false;
  ttl_expires_at = none;
  created_at = 0;
  updated_at = 0;
}

pub record DnsRow : Type 0 where
  pub id : String
  pub environment_id : String
  pub record_type : String
  pub name : String
  pub value : String
  pub ownership_tag : String
  pub created_at : ℕ

pub record Event : Type 0 where
  pub id : String
  pub environment_id : String
  pub kind : String
  pub dedupe_key : String
  pub payload : String
  pub attempts : ℕ
  pub next_attempt_at : Option ℕ
  -- The error whose text the column holds; `none` is the empty text.
  pub last_error : Option Err
  pub processed_at : Option ℕ
  pub dead_lettered_at : Option ℕ
  pub created_at : ℕ

abbrev pub zero_event : Event
zero_event = record {
  id = "";
  environment_id = "";
  kind = "";
  dedupe_key = "";
  payload = "";
  attempts = 0;
  next_attempt_at = none;
  last_error = none;
  processed_at = none;
  dead_lettered_at = none;
  created_at = 0;
}

-- The three tables, each in the order of insertion.
pub record Db : Type 0 where
  pub environments : List Environment
  pub dns_records : List DnsRow
  pub events : List Event

abbrev pub empty_db : Db
empty_db = record { environments = []; dns_records = []; events = [] }
