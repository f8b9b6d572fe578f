-- ===== src/Git/Gitlab.antt =====
-- The webhooks of GitLab: providers/git/gitlab/gitlab.go.
use ramify.Prelude.{String, ℕ, Bool, true, not, ◌||◌, ◌&&◌, List, if◌then◌else◌, str_eq}
use ramify.Prelude.Texts.{has_prefix, trim_prefix}
use ramify.Provider.{Result, ok, err, GitEvent}
use ramify.Git.Hooks.{
  branch_ref_prefix, unhandled, invalid_signature, once_verified, no_event, decoded,
}

abbrev pub deleted_sha : String
deleted_sha = "0000000000000000000000000000000000000000"

-- `labels` are their titles.
pub record WebhookPayload : Type 0 where
  pub object_kind : String
  pub ref : String
  pub after : String
  pub path_with_namespace : String
  pub action : String
  pub state : String
  pub iid : ℕ
  pub source_branch : String
  pub last_commit_id : String
  pub labels : List String

unfoldable pub verify_signature : String → String → Bool
verify_signature secret signature = not (str_eq secret "") && str_eq signature secret

unfoldable pub parse_merge_request_payload : WebhookPayload → Result GitEvent
unfolding unhandled
parse_merge_request_payload wp =
    if (str_eq wp.state "merged" || str_eq wp.state "closed")
      || (str_eq wp.action "close" || str_eq wp.action "merge")
    then ok (record no_event {
      kind = "pr_closed";
      project = wp.path_with_namespace;
      branch = wp.source_branch;
      pr_number = wp.iid;
    })
    else if str_eq wp.action "open" || str_eq wp.action "reopen" || str_eq wp.action "update"
    then ok (record {
      kind = "pr_synchronized";
      project = wp.path_with_namespace;
      branch = wp.source_branch;
      pr_number = wp.iid;
      artifact = wp.last_commit_id;
      labels = wp.labels;
      labels_known = true;
    })
    else err (unhandled "gitlab: merge_request action")

unfoldable pub parse_push_payload : WebhookPayload → Result GitEvent
unfolding unhandled
parse_push_payload wp =
    if not (has_prefix wp.ref branch_ref_prefix)
    then err (unhandled "gitlab: ref is not a branch")
    else if str_eq wp.after deleted_sha
    then ok (record no_event {
      kind = "branch_deleted";
      project = wp.path_with_namespace;
      branch = trim_prefix wp.ref branch_ref_prefix;
    })
    else if str_eq wp.after ""
    then err (unhandled "gitlab: push payload has no after commit")
    else ok (record no_event {
      kind = "branch_pushed";
      project = wp.path_with_namespace;
      branch = trim_prefix wp.ref branch_ref_prefix;
      artifact = wp.after;
    })

unfoldable pub parse_payload : WebhookPayload → Result GitEvent
unfolding parse_merge_request_payload parse_push_payload unhandled
parse_payload wp =
    if str_eq wp.object_kind "merge_request"
    then parse_merge_request_payload wp
    else if str_eq wp.object_kind "push"
    then parse_push_payload wp
    else err (unhandled "gitlab: object_kind")

unfoldable pub parse_webhook :
    (String → Result WebhookPayload) → String → String → String → Result GitEvent
unfolding once_verified decoded
parse_webhook unmarshal secret payload signature =
    once_verified (verify_signature secret signature)
      (invalid_signature "gitlab: invalid webhook signature")
      (decoded "gitlab: parsing webhook payload" (unmarshal payload) parse_payload)
