-- ===== src/Git/Trust.antt =====
-- Which deliveries become events, and which events.
use ramify.Prelude.{
  String, Bool, true, false, ◌≡◌, refl, ap, ◌⊎◌, inl, inr, Option, none, some, List, [], ◌∷◌,
  if◌then◌else◌, clash, arith, subst, ◌+◌,
}
use ramify.Errors.{Err, is, invalid_webhook_signature}
use ramify.Provider.{Result, ok, err, GitEvent}
use ramify.Api.{Server, failure}
use ramify.Api.Inbox.{Inbox, WebhookRequest, reject, handle_webhook, after_read, after_parse}
use ramify.World.{World}
use ramify.Git.{GitHost, github, gitlab, bitbucket, Unmarshal, parse_with, verified_by}
use ramify.Git.Github
use ramify.Git.Gitlab
use ramify.Git.Bitbucket
use ramify.Git.Hooks.{Codecs, once_verified, decoded, invalid_signature}

-- The kinds that the reconciler handles, with labels only on a pull request that asks for a deploy
-- or a close.
pub record IsNormal (ev : GitEvent) : Type 0 where
  pub is_known :
      ((ev.kind ≡ "branch_pushed") ⊎ (ev.kind ≡ "branch_deleted"))
      ⊎ ((ev.kind ≡ "pr_synchronized") ⊎ (ev.kind ≡ "pr_closed"))
  pub has_labels : ev.labels_known ≡ true → (ev.kind ≡ "pr_synchronized") ⊎ (ev.kind ≡ "pr_closed")

value_or : {A : Type 0} → A → Result A → A
value_or a (ok b) = b
value_or a (err e) = a

ok-injective : {A : Type 0} {a b : A} → ok a ≡ ok b → a ≡ b
unfolding value_or
ok-injective {a = a} e = ap (value_or a) e

record Normal (r : Result GitEvent) : Type 0 where
  normal : (ev : GitEvent) → r ≡ ok ev → IsNormal ev

Normal-ok : {ev : GitEvent} → IsNormal ev → Normal (ok ev)
Normal-ok n = record { normal = λ ev e. subst IsNormal (ok-injective e) n }

Normal-err : {e : Err} → Normal (err e)
Normal-err = record { normal = λ ev e. absurd (ground arith) }

Normal-if : (b : Bool) (x y : Result GitEvent) → Normal x → Normal y → Normal (if b then x else y)
Normal-if true x y p q = p
Normal-if false x y p q = q

Normal-decoded :
    {A : Type 0} (text : String) (r : Result A) (parse : A → Result GitEvent)
    → ((a : A) → Normal (parse a))
    → Normal (decoded text r parse)
unfolding decoded
Normal-decoded text (ok a) parse f = f a
Normal-decoded text (err e) parse f = Normal-err

module _ (ev : GitEvent) where
  IsNormal-synchronized : ev.kind ≡ "pr_synchronized" → IsNormal ev
  IsNormal-synchronized k = record { is_known = inr (inl k); has_labels = λ _. inl k }

  IsNormal-closed : ev.kind ≡ "pr_closed" → IsNormal ev
  IsNormal-closed k = record { is_known = inr (inr k); has_labels = λ _. inr k }

  IsNormal-pushed : ev.kind ≡ "branch_pushed" → ev.labels_known ≡ false → IsNormal ev
  IsNormal-pushed k unlabelled = record {
    is_known = inl (inl k);
    has_labels = λ l. absurd (clash l unlabelled);
  }

  IsNormal-deleted : ev.kind ≡ "branch_deleted" → ev.labels_known ≡ false → IsNormal ev
  IsNormal-deleted k unlabelled = record {
    is_known = inl (inr k);
    has_labels = λ l. absurd (clash l unlabelled);
  }

ruleset normal_rules = (
  Normal-if, Normal-ok, Normal-err, IsNormal-synchronized, IsNormal-closed, IsNormal-pushed,
  IsNormal-deleted, refl,
)

github_fields-Normal :
    (wp : Github.WebhookPayload) (pr : Option Github.PullRequest) (ref : Option String)
    → Normal (Github.parse_fields wp pr ref)
unfolding Github.parse_fields Github.parse_pull_request_payload Github.parse_ref_payload
    Github.pull_request_event
github_fields-Normal wp (some pr) ref = search (normal_rules) depth 12
github_fields-Normal wp none (some ref) = search (normal_rules) depth 12
github_fields-Normal wp none none = search (normal_rules) depth 12

github-Normal : (wp : Github.WebhookPayload) → Normal (Github.parse_payload wp)
unfolding Github.parse_payload
github-Normal wp = github_fields-Normal wp wp.pull_request wp.ref

gitlab-Normal : (wp : Gitlab.WebhookPayload) → Normal (Gitlab.parse_payload wp)
unfolding Gitlab.parse_payload Gitlab.parse_merge_request_payload Gitlab.parse_push_payload
gitlab-Normal wp = search (normal_rules) depth 12

module _ (project : String) where
  deleted-Normal :
      (old : Option Bitbucket.ChangeRef) {later : Result GitEvent}
      → Normal later
      → Normal (Bitbucket.deleted_branch project old later)
  unfolding Bitbucket.deleted_branch
  deleted-Normal none p = p
  deleted-Normal (some ref) p = search (normal_rules)

  changed-Normal :
      (new old : Option Bitbucket.ChangeRef) {later : Result GitEvent}
      → Normal later
      → Normal (Bitbucket.changed_branch project new old later)
  unfolding Bitbucket.changed_branch
  changed-Normal (some ref) old p = search (normal_rules)
  changed-Normal none old p = deleted-Normal old p

  changes-Normal :
      (changes : List Bitbucket.Change) → Normal (Bitbucket.parse_changes project changes)
  unfolding Bitbucket.parse_changes
  changes-Normal [] = Normal-err
  changes-Normal (change ∷ rest) =
      changed-Normal change.new_ref change.old_ref (changes-Normal rest)

module _ (c : Codecs) where
  bitbucket_fields-Normal :
      (wp : Bitbucket.WebhookPayload) (pr : Option Bitbucket.PullRequest)
      → Normal (Bitbucket.parse_fields c wp pr)
  unfolding Bitbucket.parse_fields Bitbucket.parse_pull_request_payload Bitbucket.pull_request_event
  bitbucket_fields-Normal wp none = changes-Normal wp.full_name wp.changes
  bitbucket_fields-Normal wp (some pr) = search (normal_rules, changes-Normal) depth 12

  bitbucket-Normal : (wp : Bitbucket.WebhookPayload) → Normal (Bitbucket.parse_payload c wp)
  unfolding Bitbucket.parse_payload
  bitbucket-Normal wp = bitbucket_fields-Normal wp wp.pull_request

genuine :
    (verified : Bool) (invalid : Err) (r : Result GitEvent) {ev : GitEvent}
    → Normal r
    → once_verified verified invalid r ≡ ok ev
    → (verified ≡ true) × IsNormal ev
unfolding once_verified
genuine true invalid r n h = (refl, n.normal _ h)
genuine false invalid r n h = absurd (ground arith)

unverified :
    (verified : Bool) (invalid : Err) (r : Result GitEvent)
    → verified ≡ false
    → once_verified verified invalid r ≡ err invalid
unfolding once_verified
unverified verified invalid r h = rw h refl

module _ (c : Codecs) (u : Unmarshal) (secret : String) where
  abbrev invalid : GitHost → Err
  invalid github = invalid_signature "github: invalid webhook signature"
  invalid gitlab = invalid_signature "gitlab: invalid webhook signature"
  invalid bitbucket = invalid_signature "bitbucket: invalid webhook signature"

  forged-err :
      (host : GitHost) (payload signature : String)
      → verified_by c secret host payload signature ≡ false
      → parse_with c u secret host payload signature ≡ err (invalid host)
  unfolding parse_with verified_by Github.parse_webhook Gitlab.parse_webhook Bitbucket.parse_webhook
  forged-err github payload signature h = unverified _ _ _ h
  forged-err gitlab payload signature h = unverified _ _ _ h
  forged-err bitbucket payload signature h = unverified _ _ _ h

  invalid-is : (host : GitHost) → is (invalid host) invalid_webhook_signature ≡ true
  unfolding is invalid_signature
  invalid-is github = refl
  invalid-is gitlab = refl
  invalid-is bitbucket = refl

  -- An event comes only out of a delivery whose signature, or token, verifies, and it is of one of
  -- the four kinds that the reconciler handles, with labels only where it comes from a pull request.
  pub parse_with-IsNormal :
      (host : GitHost) (payload signature : String) {ev : GitEvent}
      → parse_with c u secret host payload signature ≡ ok ev
      → (verified_by c secret host payload signature ≡ true) × IsNormal ev
  unfolding parse_with verified_by Github.parse_webhook Gitlab.parse_webhook Bitbucket.parse_webhook
  parse_with-IsNormal github payload signature h =
      genuine _ _ _ (Normal-decoded _ _ _ github-Normal) h
  parse_with-IsNormal gitlab payload signature h =
      genuine _ _ _ (Normal-decoded _ _ _ gitlab-Normal) h
  parse_with-IsNormal bitbucket payload signature h =
      genuine _ _ _ (Normal-decoded _ _ _ (bitbucket-Normal c)) h

  -- At each of the Git hosts, a delivery whose signature does not verify is answered 401 and counted
  -- as rejected, and neither the tables nor the queue change.
  pub forged_refused :
      (host : GitHost) (s : Server) (req : WebhookRequest) (body : String) (i : Inbox) (w : World)
      → req.body ≡ ok body
      → verified_by c secret host body req.signature ≡ false
      → handle_webhook (record s { parse_webhook = parse_with c u secret host }) req i w ≡ (
        (failure 401 "invalid webhook signature", reject (record i { received = i.received + 1 })),
        w,
      )
  unfolding handle_webhook after_read after_parse
  forged_refused host s req body i w read forged =
      rw read (rw (forged-err host body req.signature forged) (rw (invalid-is host) refl))
