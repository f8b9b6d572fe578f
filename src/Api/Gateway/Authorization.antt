-- ===== src/Api/Gateway/Authorization.antt =====
-- Which requests over TCP reach a handler of the control API.
use Prim.Native.String
use ramify.Prelude.{
  ℕ, String, Bool, true, false, not, ◌||◌, ◌&&◌, ◌==◌, ◌≡◌, ◌≢◌, ◌⊎◌, inl, inr, refl, sym, ◌∙◌, ap,
  str_eq, eq_iff, Bool-cases, Option-cases, Option, none, some, List, [], ◌∷◌, clash, arith,
}
use ramify.Prelude.Codes.{chars, starts_with}
use ramify.Prelude.Membership.{In}
use ramify.Dns.Texts.{Text, same_text}
use ramify.Api.Gateway.{
  Endpoint, dashboard, dashboard_config, Route, routes, literal, HttpRequest, Router, IsRouter,
  is_dashboard_asset, handled, answer_of, serve_http, token_auth, serve_tcp,
}

-- The page of the dashboard and its configuration, which show no environment.
abbrev pub is_shell : Endpoint → Bool
is_shell dashboard = true
is_shell dashboard_config = true
is_shell _ = false

-- the character behind the first one
abbrev second : Text → Option ℕ
second (a ∷ b ∷ s) = some b
second _ = none

starts-second :
    (s p : Text) (b : ℕ) → second p ≡ some b → starts_with s p ≡ true → second s ≡ some b
unfolding starts_with
starts-second [] (a ∷ c ∷ p) b e h = absurd (ground arith)
starts-second (x ∷ []) (a ∷ c ∷ p) b e h = absurd (ground arith)
starts-second (x ∷ y ∷ s) (a ∷ c ∷ p) b e h = ground arith
starts-second s (a ∷ []) b e h = absurd (ground arith)
starts-second s [] b e h = absurd (ground arith)

same-second : (s p : Text) (b : ℕ) → second p ≡ some b → same_text s p ≡ true → second s ≡ some b
unfolding same_text
same-second [] (a ∷ c ∷ p) b e h = absurd (ground arith)
same-second (x ∷ []) (a ∷ c ∷ p) b e h = absurd (ground arith)
same-second (x ∷ y ∷ s) (a ∷ c ∷ p) b e h = ground arith
same-second s (a ∷ []) b e h = absurd (ground arith)
same-second s [] b e h = absurd (ground arith)

asset-second : (path : Text) → is_dashboard_asset path ≡ true → second path ≡ some 100
unfolding is_dashboard_asset
asset-second path h = elim (Bool-cases (same_text path (chars "/dashboard"))) [
  | inl same ↦ same-second path _ 100 refl same
  | inr other ↦ starts-second path (chars "/dashboard/") 100 refl (rw other at h)
]

abbrev differs : Option ℕ → Bool
differs (some b) = not (b == 100)
differs none = false

-- Only the routes of the shell lie under a segment that starts with a `d`.
abbrev fits : Route → Bool
fits r = is_shell r.endpoint || differs (second (literal r.pattern))

abbrev all : (Route → Bool) → List Route → Bool
all p [] = true
all p (r ∷ rest) = p r && all p rest

all-In : (p : Route → Bool) (rs : List Route) (r : Route) → all p rs ≡ true → In r rs → p r ≡ true
all-In p [] r h m = elim m [ ]
all-In p (x ∷ rest) r h (inl e) = ap p (sym e) ∙ ground arith
all-In p (x ∷ rest) r h (inr m) = all-In p rest r (ground arith) m

routes-fit : all fits routes ≡ true
unfolding routes literal
routes-fit = refl

asset-shell :
    (r : Route) (path : Text)
    → fits r ≡ true
    → starts_with path (literal r.pattern) ≡ true
    → second path ≡ some 100
    → is_shell r.endpoint ≡ true
asset-shell r path f s h = elim (Option-cases (second (literal r.pattern))) [
  | inl short ↦ ground arith
  | inr (b, e) ↦
      let same : some b ≡ some 100 = sym (starts-second path (literal r.pattern) b e s) ∙ h in
      ground arith
]

endpoint-answer :
    (o : Option Route) {e : Endpoint}
    → answer_of o ≡ handled e
    → (r : Route) × (o ≡ some r) × (r.endpoint ≡ e)
unfolding answer_of
endpoint-answer none h = absurd (ground arith)
endpoint-answer (some r) h = (r, refl, ground arith)

module _ (find : Router) (sound : IsRouter find) where
  shell-asset :
      (req : HttpRequest) {e : Endpoint}
      → is_dashboard_asset req.path ≡ true
      → serve_http find req ≡ handled e
      → is_shell e ≡ true
  unfolding serve_http
  shell-asset req asset h =
      let (r, found, same) = endpoint-answer _ h in
      let (listed, method, prefix) = sound.finds routes req.method req.path r found in
      ap is_shell (sym same)
      ∙ asset-shell r req.path (all-In fits routes r routes-fit listed) prefix
          (asset-second req.path asset)

  -- A request over TCP that reaches a handler either reaches the page of the dashboard or its
  -- configuration, or carries the token, which is then not empty.
  pub serve_tcp-authorized :
      (token : String) (req : HttpRequest) {e : Endpoint}
      → serve_tcp token find req ≡ handled e
      → (is_shell e ≡ true) ⊎ ((token ≢ "") × (req.authorization ≡ String.◌++◌ "Bearer " token))
  unfolding serve_tcp token_auth
  serve_tcp-authorized token req h = elim (Bool-cases (is_dashboard_asset req.path)) [
    | inl asset ↦ inl (shell-asset req asset (rw asset at h))
    | inr other ↦ elim (Bool-cases (str_eq token "")) [
      | inl empty ↦ absurd (ground arith)
      | inr token' ↦ elim (Bool-cases (str_eq req.authorization (String.◌++◌ "Bearer " token))) [
        | inl bearer ↦ inr (λ e. clash ((eq_iff token "").1 e) token', (eq_iff _ _).0 bearer)
        | inr wrong ↦ absurd (ground arith)
      ]
    ]
  ]
