-- ===== src/Policy.antt =====
-- Which webhook events may have an environment (internal/core/policy/policy.go).
pub mod Decisions
use Prim.Native.String
use ramify.Prelude.{
  ℕ, ◌-◌, String, Bool, true, false, not, ◌&&◌, ◌||◌, Option, none, some, List, [], ◌∷◌, any, ◌==◌,
  str_eq, if◌then◌else◌,
}
use ramify.Provider.{GitEvent}
use text.Mathlib.Text.{starts_with}

pub record Policy : Type 0 where
  pub pr_only : Bool
  pub allow_branches : List String
  pub deny_branches : List String
  pub required_labels : List String

-- The reasons, each with what its text shows.
pub data Reason : Type 0 where
  pull_request_missing : Reason
  branch_denied : String → String → Reason
  branch_not_allowed : String → List String → Reason
  label_missing : List String → Reason
  ceiling_reached : ℕ → ℕ → Reason

pub record Decision : Type 0 where
  pub allowed : Bool
  pub reason : Option Reason

abbrev pub allow : Decision
allow = record { allowed = true; reason = none }

abbrev pub refuse : Reason → Decision
refuse r = record { allowed = false; reason = some r }

unfoldable pub is_empty : List String → Bool
is_empty [] = true
is_empty (_ ∷ _) = false

has_suffix : String → String → Bool
has_suffix s t = str_eq (String.slice s (String.len s - String.len t) (String.len s)) t

-- the text without its last two bytes
without_stars : String → String
without_stars s = String.slice s 0 (String.len s - 2)

-- `path_match` is path.Match, `none` where the pattern is malformed; `equal_fold` is
-- strings.EqualFold.
module _ (path_match : String → String → Option Bool) (equal_fold : String → String → Bool) where
  unfoldable pub matched : Option Bool → Bool
  matched none = false
  matched (some b) = b

  unfoldable pub matches : String → String → Bool
  unfolding matched has_suffix without_stars
  matches pattern branch =
      if has_suffix pattern "/**"
      then starts_with branch (without_stars pattern)
      else if str_eq pattern "**"
      then true
      else matched (path_match pattern branch)

  unfoldable pub matches_any : List String → String → Bool
  matches_any patterns branch = any (λ pattern. matches pattern branch) patterns

  unfoldable pub has_any : List String → List String → Bool
  has_any want have = any (λ w. any (λ h. equal_fold w h) have) want

  unfoldable pub first_denied : String → List String → Option String
  first_denied branch [] = none
  first_denied branch (pattern ∷ rest) =
      let later = first_denied branch rest in if matches pattern branch then some pattern else later

  -- what follows the loop over the deny patterns
  unfoldable pub after_deny : Policy → GitEvent → Option String → Decision
  after_deny p ev (some pattern) = refuse (branch_denied ev.branch pattern)
  after_deny p ev none =
      if not (is_empty p.allow_branches) && not (matches_any p.allow_branches ev.branch)
      then refuse (branch_not_allowed ev.branch p.allow_branches)
      else if not (is_empty p.required_labels)
          && ev.labels_known
          && not (has_any p.required_labels ev.labels)
      then refuse (label_missing p.required_labels)
      else allow

  unfoldable pub decide : Policy → GitEvent → Decision
  unfolding after_deny is_empty
  decide p ev =
      if p.pr_only && ev.pr_number == 0
      then refuse pull_request_missing
      else after_deny p ev (first_denied ev.branch p.deny_branches)
