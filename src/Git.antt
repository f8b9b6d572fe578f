-- ===== src/Git.antt =====
-- The Git providers (providers/git), and the one that the daemon is configured with
-- (newGitProvider of cmd/ramifyd/main.go).
pub mod Hooks
pub mod Github
pub mod Gitlab
pub mod Bitbucket
pub mod Trust
use ramify.Prelude.{String, Bool, if◌then◌else◌, str_eq}
use ramify.Errors.{other}
use ramify.Provider.{Result, ok, err, GitEvent}
use ramify.Git.Hooks.{Codecs}
use Github
use Gitlab
use Bitbucket

pub data GitHost : Type 0 where
  github gitlab bitbucket : GitHost

unfoldable pub new_git_provider : String → Result GitHost
new_git_provider provider =
    if str_eq provider "github"
    then ok github
    else if str_eq provider "gitlab"
    then ok gitlab
    else if str_eq provider "bitbucket"
    then ok bitbucket
    else err (other "unsupported git provider")

-- json.Unmarshal into the payload of each provider
pub record Unmarshal : Type 0 where
  pub to_github : String → Result Github.WebhookPayload
  pub to_gitlab : String → Result Gitlab.WebhookPayload
  pub to_bitbucket : String → Result Bitbucket.WebhookPayload

module _ (c : Codecs) (u : Unmarshal) (secret : String) where
  unfoldable pub parse_with : GitHost → String → String → Result GitEvent
  unfolding Github.parse_webhook Gitlab.parse_webhook Bitbucket.parse_webhook
  parse_with github payload signature = Github.parse_webhook c u.to_github secret payload signature
  parse_with gitlab payload signature = Gitlab.parse_webhook u.to_gitlab secret payload signature
  parse_with bitbucket payload signature =
      Bitbucket.parse_webhook c u.to_bitbucket secret payload signature

unfoldable pub verified_by : Codecs → String → GitHost → String → String → Bool
verified_by c secret github payload signature = Github.verify_signature c secret payload signature
verified_by c secret gitlab payload signature = Gitlab.verify_signature secret signature
verified_by c secret bitbucket payload signature =
    Bitbucket.verify_signature c secret payload signature
