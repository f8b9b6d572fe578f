-- ===== src/Git/Github.antt =====
-- The webhooks of GitHub: providers/git/github/github.go.
use ramify.Prelude.{
  String, ℕ, Bool, true, false, not, ◌||◌, Option, none, some, List, if◌then◌else◌, str_eq,
}
use ramify.Prelude.Texts.{has_prefix, trim_prefix}
use ramify.Provider.{Result, ok, err, GitEvent}
use ramify.Git.Hooks.{
  Codecs, branch_ref_prefix, unhandled, invalid_signature, once_verified, digest_matches, no_event,
  decoded,
}

-- `labels` are their names.
pub record PullRequest : Type 0 where
  pub number : ℕ
  pub head_ref : String
  pub head_sha : String
  pub labels : List String

pub record WebhookPayload : Type 0 where
  pub ref : Option String
  pub deleted : Option Bool
  pub after : Option String
  pub action : Option String
  pub full_name : String
  pub pull_request : Option PullRequest

unfoldable pub verify_signature : Codecs → String → String → String → Bool
unfolding digest_matches
verify_signature c secret payload signature =
    digest_matches (c.decode_hex (trim_prefix signature "sha256=")) (c.hmac_sha256 secret payload)

abbrev text_or_empty : Option String → String
text_or_empty none = ""
text_or_empty (some text) = text

abbrev is_set : Option Bool → Bool
is_set none = false
is_set (some b) = b

unfoldable pub pull_request_event : String → WebhookPayload → PullRequest → GitEvent
pull_request_event kind wp pr = record {
  kind = kind;
  project = wp.full_name;
  branch = pr.head_ref;
  pr_number = pr.number;
  artifact = pr.head_sha;
  labels = pr.labels;
  labels_known = true;
}

unfoldable pub parse_pull_request_payload : WebhookPayload → PullRequest → Result GitEvent
unfolding pull_request_event unhandled
parse_pull_request_payload wp pr =
    let action = text_or_empty wp.action in
    if str_eq action "opened" || str_eq action "reopened" || str_eq action "synchronize"
    then ok (pull_request_event "pr_synchronized" wp pr)
    else if str_eq action "closed"
    then ok (pull_request_event "pr_closed" wp pr)
    else err (unhandled "github: pull_request action")

unfoldable pub parse_ref_payload : WebhookPayload → String → Result GitEvent
unfolding unhandled
parse_ref_payload wp ref =
    if not (has_prefix ref branch_ref_prefix)
    then err (unhandled "github: ref is not a branch")
    else if is_set wp.deleted
    then ok (record no_event {
      kind = "branch_deleted";
      project = wp.full_name;
      branch = trim_prefix ref branch_ref_prefix;
    })
    else ok (record no_event {
      kind = "branch_pushed";
      project = wp.full_name;
      branch = trim_prefix ref branch_ref_prefix;
      artifact = text_or_empty wp.after;
    })

unfoldable pub parse_fields : WebhookPayload → Option PullRequest → Option String → Result GitEvent
unfolding parse_pull_request_payload parse_ref_payload unhandled
parse_fields wp (some pr) ref = parse_pull_request_payload wp pr
parse_fields wp none (some ref) = parse_ref_payload wp ref
parse_fields wp none none = err (unhandled "github: payload has neither pull_request nor ref")

unfoldable pub parse_payload : WebhookPayload → Result GitEvent
unfolding parse_fields
parse_payload wp = parse_fields wp wp.pull_request wp.ref

-- `unmarshal` is json.Unmarshal of a payload.
unfoldable pub parse_webhook :
    Codecs → (String → Result WebhookPayload) → String → String → String → Result GitEvent
unfolding once_verified decoded
parse_webhook c unmarshal secret payload signature =
    once_verified (verify_signature c secret payload signature)
      (invalid_signature "github: invalid webhook signature")
      (decoded "github: parsing webhook payload" (unmarshal payload) parse_payload)
