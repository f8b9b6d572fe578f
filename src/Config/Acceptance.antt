-- ===== src/Config/Acceptance.antt =====
-- Validate and Load as a whole.
use ramify.Prelude.{
  Option, some, ap, sym, ◌∙◌, ℕ, String, false, ◌≡◌, refl, none, List, [], ◌∷◌, clash, arith,
}
use ramify.Config.{Network, is_negative, missing_fields, refused, validate}
use ramify.Config.Types.{ℤ, pos, negsuc, Config}
use ramify.Config.Requirements.{IsStartable}
use ramify.Config.Checks.{
  lacking-empty, empty-false, lacking_server-empty, lacking_git-empty, lacking_deploy-empty,
  lacking_dns-empty,
}
use ramify.Config.Loading.{
  proceed, ◌>>=◌, resolve_git, resolve_dns, resolve_server, accepted, load, with_context,
}
use ramify.Config.Requirements.{IsUnified}
use ramify.Config.{Surroundings}
use ramify.Config.Types.{GitConfig, GitHubConfig}
use ramify.Provider.{Result, ok, err}
use ramify.Errors.{Err}

ceiling_of : (i : ℤ) → is_negative i ≡ false → (m : ℕ) × (i ≡ pos m)
ceiling_of (pos m) h = (m, refl)
ceiling_of (negsuc m) h = absurd (clash refl h)

missing_fields-empty : (n : Network) (c : Config) → missing_fields n c ≡ [] → IsStartable n c
unfolding missing_fields
missing_fields-empty n c h =
    let (d, h1) = lacking-empty _ _ _ h in
    let (s, h2) = lacking-empty _ _ _ h1 in
    let (guarded, h3) = lacking_server-empty n c.server _ h2 in
    let (git, h4) = lacking_git-empty _ _ _ _ h3 in
    let (deploy, h5) = lacking_deploy-empty _ c.deploy _ h4 in
    let (dns, h6) = lacking_dns-empty _ c.dns _ h5 in
    let (e, h7) = lacking-empty _ _ _ h6 in
    let (u, h8) = lacking-empty _ _ _ h7 in
    let (m, h9) = lacking-empty _ _ _ h8 in
    record {
      has_domain = empty-false d;
      has_store = empty-false s;
      guarded = guarded;
      git_ready = git;
      deploy_ready = deploy;
      dns_ready = dns;
      has_email = empty-false e;
      has_directory = empty-false u;
      has_ceiling = ceiling_of _ m;
    }

refused-none : (fields : List String) → refused fields ≡ none → fields ≡ []
unfolding refused
refused-none [] h = refl
refused-none (text ∷ rest) h = absurd (ground arith)

pub validate-IsStartable : (n : Network) (c : Config) → validate n c ≡ none → IsStartable n c
unfolding validate
validate-IsStartable n c h = missing_fields-empty n c (refused-none (missing_fields n c) h)

split :
    {Next Read : Type 0} {end : Next} {next : Read → Result Next} (r : Result Read)
    → proceed next r ≡ ok end
    → (read : Read) × (r ≡ ok read) × (next read ≡ ok end)
unfolding proceed
split (err e) ends = absurd (ground arith)
split (ok read) ends = (read, refl, ends)

-- A load that ends well went well before its last step.
pub came_from :
    {Next Read : Type 0} {end : Next} (next : Read → Result Next) (r : Result Read)
    → (r >>= next) ≡ ok end
    → (read : Read) × (r ≡ ok read) × (next read ≡ ok end)
unfolding ◌>>=◌
came_from next r ends = split r ends

value_or : {A : Type 0} → A → Result A → A
value_or a (ok b) = b
value_or a (err e) = a

pub ok-injective : {A : Type 0} {a b : A} → ok a ≡ ok b → a ≡ b
unfolding value_or
ok-injective {a = a} e = ap (value_or a) e

-- An error that is given a context stays one.
pub without_context :
    {A : Type 0} {a : A} (text : String) (r : Result A) → with_context text r ≡ ok a → r ≡ ok a
unfolding with_context
without_context text (ok b) h = h
without_context text (err e) h = absurd (ground arith)

pub accepted-ok : (c c' : Config) (o : Option Err) → accepted c o ≡ ok c' → (o ≡ none) × (c ≡ c')
unfolding accepted
accepted-ok c c' none h = (refl, ok-injective h)
accepted-ok c c' (some e) h = absurd (ground arith)

resolve_git-same :
    (l : String → Option String) (c c' : Config)
    → resolve_git l c ≡ ok c'
    → (c'.github.token ≡ c'.git.token) × (c'.github.webhook_secret ≡ c'.git.webhook_secret)
unfolding resolve_git
resolve_git-same l c c' h =
    let (token, e1, h1) = came_from _ _ h in
    let (secret, e2, h2) = came_from _ _ h1 in let e = ok-injective h2 in rw (← e) (refl, refl)

pub resolve_dns-same :
    (l : String → Option String) (c c' : Config)
    → resolve_dns l c ≡ ok c'
    → (c'.github ≡ c.github) × (c'.git ≡ c.git) × (c'.dns.cloudflare_api_token ≡ c'.dns.api_token)
unfolding resolve_dns
resolve_dns-same l c c' h =
    let (token, e1, h1) = came_from _ _ h in let e = ok-injective h1 in rw (← e) (refl, refl, refl)

pub resolve_server-same :
    (l : String → Option String) (c c' : Config)
    → resolve_server l c ≡ ok c'
    → (c'.github ≡ c.github) × (c'.git ≡ c.git) × (c'.dns ≡ c.dns)
unfolding resolve_server
resolve_server-same l c c' h =
    let (token, e1, h1) = came_from _ _ h in let e = ok-injective h1 in rw (← e) (refl, refl, refl)

-- Whatever the file and the environment hold, a configuration that Load returns has every required
-- field and known providers, exposes the control API over TCP only with a token and behind TLS, on
-- the loopback interface or by an explicit choice, and has the same secrets in the legacy blocks.
pub load-IsStartable :
    (x : Surroundings) (path : String) (cfg : Config)
    → load x path ≡ ok cfg
    → IsStartable x.network cfg × IsUnified cfg
unfolding load
load-IsStartable x path cfg h =
    let (text, e1, h1) = came_from _ _ h in
    let (c0, e2, h2) = came_from _ _ h1 in
    let (c1, e3, h3) = came_from _ _ h2 in
    let (c2, e4, h4) = came_from _ _ h3 in
    let (c3, e5, h5) = came_from _ _ h4 in
    let (valid, e) = accepted-ok c3 cfg _ h5 in
    let (t, w) = resolve_git-same x.lookup_env c0 c1 e3 in
    let (hub, git, dns) = resolve_dns-same x.lookup_env c1 c2 e4 in
    let (hub', git', dns') = resolve_server-same x.lookup_env c2 c3 e5 in
    let hubs = hub' ∙ hub in
    let gits = git' ∙ git in
    rw (← e) (
      validate-IsStartable x.network c3 valid,
      record {
        same_token =
            ap (λ (g : GitHubConfig). g.token) hubs
            ∙ t
            ∙ sym (ap (λ (g : GitConfig). g.token) gits);
        same_secret =
            ap (λ (g : GitHubConfig). g.webhook_secret) hubs
            ∙ w
            ∙ sym (ap (λ (g : GitConfig). g.webhook_secret) gits);
        same_dns_token = rw dns' dns;
      },
    )
