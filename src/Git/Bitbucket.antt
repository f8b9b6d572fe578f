-- ===== src/Git/Bitbucket.antt =====
-- The webhooks of Bitbucket: providers/git/bitbucket/bitbucket.go.
use ramify.Prelude.{
  String, ℕ, Bool, not, ◌||◌, ◌&&◌, ◌==◌, Option, none, some, List, [], ◌∷◌, if◌then◌else◌, str_eq,
}
use ramify.Prelude.Texts.{trim_prefix}
use ramify.Provider.{Result, ok, err, GitEvent}
use ramify.Git.Hooks.{
  Codecs, unhandled, invalid_signature, once_verified, digest_matches, no_event, decoded,
}

pub record ChangeRef : Type 0 where
  pub ref_type : String
  pub name : String
  pub hash : String

pub record Change : Type 0 where
  pub new_ref : Option ChangeRef
  pub old_ref : Option ChangeRef

pub record PullRequest : Type 0 where
  pub id : ℕ
  pub state : String
  pub branch : String
  pub hash : String

pub record WebhookPayload : Type 0 where
  pub full_name : String
  pub changes : List Change
  pub pull_request : Option PullRequest

unfoldable pub verify_signature : Codecs → String → String → String → Bool
unfolding digest_matches
verify_signature c secret payload signature =
    not (str_eq secret "")
    && digest_matches (c.decode_hex (trim_prefix signature "sha256="))
        (c.hmac_sha256 secret payload)

unfoldable pub is_branch : ChangeRef → Bool
is_branch ref =
    not (str_eq ref.name "")
    && not (str_eq ref.ref_type "tag")
    && not (str_eq ref.ref_type "annotated_tag")
    && not (str_eq ref.ref_type "bookmark")

unfoldable pub pull_request_event : String → WebhookPayload → PullRequest → GitEvent
pull_request_event kind wp pr = record no_event {
  kind = kind;
  project = wp.full_name;
  branch = pr.branch;
  pr_number = pr.id;
  artifact = pr.hash;
}

unfoldable pub parse_pull_request_payload : Codecs → WebhookPayload → PullRequest → Result GitEvent
unfolding pull_request_event unhandled
parse_pull_request_payload c wp pr =
    let state = c.to_upper pr.state in
    if str_eq state "MERGED" || str_eq state "DECLINED" || str_eq state "SUPERSEDED"
    then ok (pull_request_event "pr_closed" wp pr)
    else if str_eq state "OPEN"
    then ok (pull_request_event "pr_synchronized" wp pr)
    else err (unhandled "bitbucket: pull request state")

unfoldable pub deleted_branch : String → Option ChangeRef → Result GitEvent → Result GitEvent
deleted_branch project none later = later
deleted_branch project (some ref) later =
    if is_branch ref
    then ok (record no_event { kind = "branch_deleted"; project = project; branch = ref.name })
    else later

-- one change of a push, with what the later ones give
unfoldable pub changed_branch :
    String → Option ChangeRef → Option ChangeRef → Result GitEvent → Result GitEvent
unfolding deleted_branch
changed_branch project (some ref) old later =
    if is_branch ref
    then ok (record no_event {
      kind = "branch_pushed";
      project = project;
      branch = ref.name;
      artifact = ref.hash;
    })
    else later
changed_branch project none old later = deleted_branch project old later

unfoldable pub parse_changes : String → List Change → Result GitEvent
unfolding changed_branch unhandled
parse_changes project [] = err (unhandled "bitbucket: push payload has no branch change")
parse_changes project (change ∷ rest) =
    changed_branch project change.new_ref change.old_ref (parse_changes project rest)

unfoldable pub parse_fields : Codecs → WebhookPayload → Option PullRequest → Result GitEvent
unfolding parse_pull_request_payload parse_changes
parse_fields c wp none = parse_changes wp.full_name wp.changes
parse_fields c wp (some pr) =
    if pr.id == 0 then parse_changes wp.full_name wp.changes else parse_pull_request_payload c wp pr

unfoldable pub parse_payload : Codecs → WebhookPayload → Result GitEvent
unfolding parse_fields
parse_payload c wp = parse_fields c wp wp.pull_request

unfoldable pub parse_webhook :
    Codecs → (String → Result WebhookPayload) → String → String → String → Result GitEvent
unfolding once_verified decoded
parse_webhook c unmarshal secret payload signature =
    once_verified (verify_signature c secret payload signature)
      (invalid_signature "bitbucket: invalid webhook signature")
      (decoded "bitbucket: parsing webhook payload" (unmarshal payload) (parse_payload c))
