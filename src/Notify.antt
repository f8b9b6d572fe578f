-- ===== src/Notify.antt =====
-- The notices on pull requests: providers/notify/prcomment/prcomment.go. text/template is a parameter,
-- and so are the comments of the Git provider.
pub mod Templates
use ramify.Prelude.{ℕ, String, Bool, ◌==◌, str_eq, if◌then◌else◌, Option, none, some, List, [], ◌∷◌}
use ramify.Errors.{Err, other, wrap}
use ramify.Provider.{Result, ok, err, NotifyEvent}
use ramify.Config.Loading.{with_context, ◌>>=◌}

-- A map from keys to values, as an association list with the latest value of a key.
abbrev pub Table : Type 0 → Type 0
Table V = List (String × V)

module _ {V : Type 0} where
  unfoldable pub lookup : String → Table V → Option V
  lookup key [] = none
  lookup key ((k, v) ∷ rest) = let later = lookup key rest in if str_eq k key then some v else later

  unfoldable pub put : String → V → Table V → Table V
  put key value [] = (key, value) ∷ []
  put key value ((k, v) ∷ rest) =
      let later = put key value rest in if str_eq k key then (k, value) ∷ rest else (k, v) ∷ later

  -- maps.Copy(dst, src), whose keys are distinct
  unfoldable pub copy : Table V → Table V → Table V
  unfolding put
  copy dst [] = dst
  copy dst ((k, v) ∷ rest) = put k v (copy dst rest)

unfoldable pub default_templates : Table String
default_templates =
    ("ready", "Preview environment ready: {{.URL}}")
    ∷ ("updated", "Preview environment updated: {{.URL}}")
    ∷ ("failed", "Preview environment failed to deploy.\n\n{{.Detail}}")
    ∷ (
      "degraded",
      "Preview environment update failed and was rolled back to the last known-good revision; it is still serving, but not the requested change.\n\n{{.Detail}}",
    )
    ∷ ("expiring", "This preview environment will expire soon.")
    ∷ ("destroyed", "Preview environment destroyed.")
    ∷ []

-- template.New(kind).Parse(text), and Execute into a buffer
pub record TemplateLibrary (T : Type 0) : Type 0 where
  pub parse : String → String → Result T
  pub execute : T → NotifyEvent → Result String

-- The comments of a Git provider; `upsert_preview_comment` is a type assertion in the source.
pub record Comments (S : Type 0) : Type 0 where
  pub comment_on_pr : String → ℕ → String → S → Result (Unit {0}) × S
  pub upsert_preview_comment : Option (String → ℕ → String → S → Result (Unit {0}) × S)

module _ {T : Type 0} (x : TemplateLibrary T) where
  unfoldable pub parse_all : Table String → Result (Table T)
  unfolding with_context
  parse_all [] = ok []
  parse_all ((kind, text) ∷ rest) = do
    t ← with_context "prcomment: parsing template" (x.parse kind text)
    parsed ← parse_all rest
    ok ((kind, t) ∷ parsed)

  -- New
  unfoldable pub new_templates : Table String → Result (Table T)
  unfolding parse_all default_templates copy
  new_templates overrides = parse_all (copy default_templates overrides)

  module _ {S : Type 0} (git : Comments S) where
    unfoldable pub posted : Result (Unit {0}) × S → Result (Unit {0}) × S
    unfolding with_context
    posted (o, s) = (with_context "prcomment: notify" o, s)

    unfoldable pub post :
        Option (String → ℕ → String → S → Result (Unit {0}) × S)
        → String
        → ℕ
        → String
        → S
        → Result (Unit {0}) × S
    unfolding posted
    post none project pr_number body s = posted (git.comment_on_pr project pr_number body s)
    post (some upsert) project pr_number body s = posted (upsert project pr_number body s)

    unfoldable pub rendered : Result String → String → ℕ → S → Result (Unit {0}) × S
    unfolding post
    rendered (err e) project pr_number s = (err (wrap "prcomment: rendering template" e), s)
    rendered (ok body) project pr_number s =
        post git.upsert_preview_comment project pr_number body s

    unfoldable pub notify_with : Option T → String → ℕ → NotifyEvent → S → Result (Unit {0}) × S
    unfolding rendered
    notify_with none project pr_number ev s =
        (err (other "prcomment: no template configured for notify kind"), s)
    notify_with (some t) project pr_number ev s = rendered (x.execute t ev) project pr_number s

    unfoldable pub notify : Table T → String → ℕ → NotifyEvent → S → Result (Unit {0}) × S
    unfolding notify_with
    notify templates project pr_number ev s =
        if pr_number == 0
        then (ok tt, s)
        else notify_with (lookup ev.kind templates) project pr_number ev s
