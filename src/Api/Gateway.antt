-- ===== src/Api/Gateway.antt =====
-- The routes of the control API and the bearer token of its TCP listener: routes, tokenAuth and
-- isDashboardAsset of internal/api/server.go. The router, github.com/go-chi/chi, is a parameter.
pub mod Authorization
use Prim.Native.String
use ramify.Prelude.{
  ℕ, String, Bool, true, false, not, ◌||◌, ◌==◌, ◌≡◌, str_eq, if◌then◌else◌, Option, none, some,
  List, [], ◌∷◌,
}
use ramify.Prelude.Codes.{chars, starts_with}
use ramify.Prelude.Membership.{In}
use ramify.Dns.Texts.{Text, same_text}

pub data Endpoint : Type 0 where
  healthz readyz metrics : Endpoint
  dashboard dashboard_config : Endpoint
  webhook : Endpoint
  list_environments create_environment : Endpoint
  get_environment update_environment delete_environment : Endpoint
  sleep_environment wake_environment rollback_environment logs : Endpoint

pub record Route : Type 0 where
  pub method : String
  pub pattern : Text
  pub endpoint : Endpoint

abbrev at : String → String → Endpoint → Route
at method pattern endpoint = record {
  method = method;
  pattern = chars pattern;
  endpoint = endpoint;
}

-- The patterns of nested routers are written out.
unfoldable pub routes : List Route
routes =
    at "GET" "/healthz" healthz
    ∷ at "GET" "/readyz" readyz
    ∷ at "GET" "/metrics" metrics
    ∷ at "GET" "/dashboard" dashboard
    ∷ at "HEAD" "/dashboard" dashboard
    ∷ at "GET" "/dashboard/config" dashboard_config
    ∷ at "GET" "/dashboard/*" dashboard
    ∷ at "HEAD" "/dashboard/*" dashboard
    ∷ at "POST" "/webhooks/{provider}" webhook
    ∷ at "GET" "/environments" list_environments
    ∷ at "POST" "/environments" create_environment
    ∷ at "GET" "/environments/{id}" get_environment
    ∷ at "PUT" "/environments/{id}" update_environment
    ∷ at "DELETE" "/environments/{id}" delete_environment
    ∷ at "POST" "/environments/{id}/sleep" sleep_environment
    ∷ at "POST" "/environments/{id}/wake" wake_environment
    ∷ at "POST" "/environments/{id}/rollback" rollback_environment
    ∷ at "GET" "/environments/{id}/logs" logs
    ∷ []

-- What stands before the first parameter or wildcard of a pattern.
unfoldable pub literal : Text → Text
literal [] = []
literal (c ∷ s) = let rest = literal s in if c == 123 || c == 42 then [] else c ∷ rest

pub record HttpRequest : Type 0 where
  pub method : String
  pub path : Text
  pub authorization : String

-- chi's router: the route that a request is sent to
abbrev pub Router : Type 0
Router = List Route → String → Text → Option Route

-- What chi documents: the route is one of the table, of that method, and the path begins with the
-- literal part of its pattern.
pub record IsRouter (find : Router) : Type 0 where
  pub finds :
      (table : List Route) (method : String) (path : Text) (r : Route)
      → find table method path ≡ some r
      → In r table × (r.method ≡ method) × (starts_with path (literal r.pattern) ≡ true)

unfoldable pub is_dashboard_asset : Text → Bool
is_dashboard_asset path =
    same_text path (chars "/dashboard") || starts_with path (chars "/dashboard/")

-- Who answers a request: the handler of an endpoint, the router with 404 or 405, or tokenAuth with 401.
pub data Answer : Type 0 where
  handled : Endpoint → Answer
  no_route unauthorized : Answer

unfoldable pub answer_of : Option Route → Answer
answer_of none = no_route
answer_of (some r) = handled r.endpoint

unfoldable pub serve_http : Router → HttpRequest → Answer
unfolding answer_of
serve_http find req = answer_of (find routes req.method req.path)

unfoldable pub token_auth : String → (HttpRequest → Answer) → HttpRequest → Answer
unfolding is_dashboard_asset
token_auth token next req =
    if is_dashboard_asset req.path
    then next req
    else if str_eq token "" || not (str_eq req.authorization (String.◌++◌ "Bearer " token))
    then unauthorized
    else next req

-- the handlers of the two listeners
unfoldable pub serve_unix : Router → HttpRequest → Answer
serve_unix find = serve_http find

unfoldable pub serve_tcp : String → Router → HttpRequest → Answer
unfolding token_auth
serve_tcp token find = token_auth token (serve_http find)
