-- ===== src/Daemon/Providers/Startup.antt =====
-- The providers of a loaded configuration: run of cmd/ramifyd/main.go with Load of
-- internal/config/config.go.
use ramify.Prelude.{
  String, Bool, true, false, not, ◌≡◌, ◌≢◌, ◌⊎◌, inl, inr, refl, ap, sym, ◌∙◌, str_eq, eq_iff,
  Bool-cases, clash, arith, if◌then◌else◌, Option, subst,
}
use ramify.Errors.{Err, other}
use ramify.Provider.{Result, ok, err}
use ramify.Git.{GitHost, new_git_provider}
use ramify.Config.{Surroundings, or_default}
use ramify.Config.Types.{Config, DeployConfig, GitConfig, DnsConfig}
use ramify.Config.Requirements.{IsDeployReady, IsComposeReady}
use ramify.Config.Loading.{load, resolve_git, resolve_dns, with_context, ◌>>=◌, proceed}
use ramify.Config.Acceptance.{
  came_from, without_context, ok-injective, accepted-ok, resolve_dns-same, resolve_server-same,
  load-IsStartable,
}
use ramify.Daemon.Providers.{
  DnsHost, new_dns_provider, SshLibrary, DeployTarget, compose, kubernetes,
  deploy_host_key_callback, new_compose, with_certificates, installs_certificates,
  new_deploy_provider,
}

same_branches : (b : Bool) (s : String) → (if b then s else s) ≡ s
same_branches true s = refl
same_branches false s = refl

or_default-again :
    (p default : String) → or_default (or_default p default) default ≡ or_default p default
unfolding or_default
or_default-again p default = elim (Bool-cases (str_eq p "")) [
  | inl empty ↦ rw empty (same_branches (str_eq default "") default)
  | inr named ↦ rw named (rw named refl)
]

resolve_git-named :
    (l : String → Option String) (c c' : Config)
    → resolve_git l c ≡ ok c'
    → c'.git.provider ≡ or_default c.git.provider "github"
unfolding resolve_git
resolve_git-named l c c' h =
    let (token, e1, h1) = came_from _ _ h in
    let (secret, e2, h2) = came_from _ _ h1 in rw (← ok-injective h2) refl

resolve_dns-named :
    (l : String → Option String) (c c' : Config)
    → resolve_dns l c ≡ ok c'
    → c'.dns.provider ≡ or_default c.dns.provider "cloudflare"
unfolding resolve_dns
resolve_dns-named l c c' h = let (token, e1, h1) = came_from _ _ h in rw (← ok-injective h1) refl

-- The defaults of the two providers have been filled in.
load-named :
    (x : Surroundings) (path : String) (cfg : Config)
    → load x path ≡ ok cfg
    → (or_default cfg.git.provider "github" ≡ cfg.git.provider)
      × (or_default cfg.dns.provider "cloudflare" ≡ cfg.dns.provider)
unfolding load
load-named x path cfg h =
    let (text, e1, h1) = came_from _ _ h in
    let (c0, e2, h2) = came_from _ _ h1 in
    let (c1, e3, h3) = came_from _ _ h2 in
    let (c2, e4, h4) = came_from _ _ h3 in
    let (c3, e5, h5) = came_from _ _ h4 in
    let (valid, e) = accepted-ok c3 cfg _ h5 in
    let (hub, git, dns) = resolve_dns-same x.lookup_env c1 c2 e4 in
    let (hub', git', dns') = resolve_server-same x.lookup_env c2 c3 e5 in
    let gits : c3.git.provider ≡ or_default c0.git.provider "github" =
      ap (λ (g : GitConfig). g.provider) (git' ∙ git) ∙ resolve_git-named x.lookup_env c0 c1 e3 in
    let names : c3.dns.provider ≡ or_default c1.dns.provider "cloudflare" =
      ap (λ (d : DnsConfig). d.provider) dns' ∙ resolve_dns-named x.lookup_env c1 c2 e4 in
    rw (← e) (
      rw gits (or_default-again c0.git.provider "github"),
      rw names (or_default-again c1.dns.provider "cloudflare"),
    )

git-known :
    (p : String)
    → (p ≡ "github") ⊎ (p ≡ "gitlab") ⊎ (p ≡ "bitbucket")
    → (h : GitHost) × (new_git_provider p ≡ ok h)
unfolding new_git_provider
git-known p (inl e) = rw e (_, refl)
git-known p (inr (inl e)) = rw e (_, refl)
git-known p (inr (inr e)) = rw e (_, refl)

dns-known :
    (p : String)
    → (p ≡ "cloudflare") ⊎ (p ≡ "route53") ⊎ (p ≡ "googlecloud") ⊎ (p ≡ "digitalocean")
    → (h : DnsHost) × (new_dns_provider p ≡ ok h)
unfolding new_dns_provider
dns-known p (inl e) = rw e (_, refl)
dns-known p (inr (inl e)) = rw e (_, refl)
dns-known p (inr (inr (inl e))) = rw e (_, refl)
dns-known p (inr (inr (inr e))) = rw e (_, refl)

skipped :
    {C : Type 0} {c' : C} (c : C) (e : Err) (insecure : Bool)
    → (if not insecure then err e else ok c) ≡ ok c'
    → insecure ≡ true
skipped c e true h = refl
skipped c e false h = absurd (ground arith)

module _ {K C : Type 0} (x : SshLibrary K C) (d : DeployConfig) where
  with_certificates-ok : (t : DeployTarget K C) → with_certificates x d t ≡ ok t
  unfolding with_certificates installs_certificates
  with_certificates-ok (compose addr user signer callback file target) =
      elim (Bool-cases (str_eq d.certificate_dir "")) [ inl e ↦ rw e refl | inr n ↦ rw n refl ]
  with_certificates-ok (kubernetes namespace target) =
      elim (Bool-cases (str_eq d.certificate_dir "")) [ inl e ↦ rw e refl | inr n ↦ rw n refl ]

  abbrev pub host_key : Result C
  host_key = deploy_host_key_callback x d.ssh_known_hosts_path d.ssh_insecure_skip_host_key_verify

  -- What Validate requires of a Compose deployment is enough for the callback.
  callback-made :
      (callback : C)
      → IsComposeReady d
      → x.known_hosts d.ssh_known_hosts_path ≡ ok callback
      → (c : C) × (host_key ≡ ok c)
  unfolding deploy_host_key_callback with_context
  callback-made callback ready trusted = elim (Bool-cases (str_eq d.ssh_known_hosts_path "")) [
    | inl empty ↦ elim ready.is_verified [
      | inl named ↦ absurd (named ((eq_iff _ _).0 empty))
      | inr insecure ↦ (x.insecure_ignore_host_key, rw empty (rw insecure refl))
    ]
    | inr named ↦ (callback, rw named (rw trusted refl))
  ]

  deploy-known :
      (key_bytes : String) (signer : K) (callback : C)
      → IsDeployReady (or_default d.provider "compose") d
      → x.read_file d.ssh_private_key_path ≡ ok key_bytes
      → x.parse_private_key key_bytes ≡ ok signer
      → x.known_hosts d.ssh_known_hosts_path ≡ ok callback
      → (t : DeployTarget K C) × (new_deploy_provider x d ≡ ok t)
  unfolding new_deploy_provider new_compose with_context ◌>>=◌ proceed
  deploy-known key_bytes signer callback ready read parsed trusted = elim ready.is_known [
    | inl e ↦
        let (c, made) = callback-made callback (ready.has_compose e) trusted in
        (
          compose d.ssh_addr d.ssh_user signer c d.compose_file d.dns_target,
          rw e (rw (read, proceed) (rw (parsed, proceed) (rw made (with_certificates-ok _)))),
        )
    | inr e ↦ (kubernetes d.kubernetes_namespace d.dns_target, rw e (with_certificates-ok _))
  ]

  callback-checked :
      (callback : C)
      → host_key ≡ ok callback
      → ((d.ssh_known_hosts_path ≢ "") × (x.known_hosts d.ssh_known_hosts_path ≡ ok callback))
        ⊎ ((d.ssh_known_hosts_path ≡ "") × (d.ssh_insecure_skip_host_key_verify ≡ true))
  unfolding deploy_host_key_callback
  callback-checked callback h = elim (Bool-cases (str_eq d.ssh_known_hosts_path "")) [
    | inl empty ↦ inr (
      (eq_iff _ _).0 empty,
      skipped x.insecure_ignore_host_key (other "deploy.ssh_known_hosts_path is required")
          d.ssh_insecure_skip_host_key_verify (rw empty at h),
    )
    | inr named ↦ inl (
      λ e. clash ((eq_iff d.ssh_known_hosts_path "").1 e) named,
      without_context "loading known_hosts" (x.known_hosts d.ssh_known_hosts_path) (rw named at h),
    )
  ]

  abbrev pub IsChecked : DeployTarget K C → Type 0
  IsChecked (kubernetes namespace target) = Unit {0}
  IsChecked (compose addr user signer callback file target) =
      ((d.ssh_known_hosts_path ≢ "") × (x.known_hosts d.ssh_known_hosts_path ≡ ok callback))
      ⊎ ((d.ssh_known_hosts_path ≡ "") × (d.ssh_insecure_skip_host_key_verify ≡ true))

  new_compose-IsChecked : (t : DeployTarget K C) → new_compose x d ≡ ok t → IsChecked t
  unfolding new_compose
  new_compose-IsChecked t h =
      let (key_bytes, e1, h1) = came_from _ _ h in
      let (signer, e2, h2) = came_from _ _ h1 in
      let (callback, e3, h3) = came_from _ _ h2 in
      subst IsChecked (ok-injective h3) (callback-checked callback e3)

  branch-IsChecked :
      (a b : Bool) (t : DeployTarget K C) (e : Err)
      → (if a
          then ok (kubernetes d.kubernetes_namespace d.dns_target)
          else if b
          then new_compose x d
          else err e)
        ≡ ok t
      → IsChecked t
  branch-IsChecked true b t e h = subst IsChecked (ok-injective h) tt
  branch-IsChecked false true t e h = new_compose-IsChecked t h
  branch-IsChecked false false t e h = absurd (ground arith)

  -- A Compose provider is built with a callback that checks the host's key against the configured
  -- file of known hosts, unless no file is configured and the check is switched off explicitly.
  pub deploy-IsChecked : {t : DeployTarget K C} → new_deploy_provider x d ≡ ok t → IsChecked t
  unfolding new_deploy_provider
  deploy-IsChecked h =
      let (t, e1, h1) = came_from _ _ h in
      subst IsChecked (ok-injective (sym (with_certificates-ok t) ∙ h1))
        (branch-IsChecked _ _ t _ e1)

-- A configuration that Load returns names providers that the daemon has: the choice of the Git and of
-- the DNS provider succeeds, and so does the construction of the deployment provider, if the files of
-- the private key and of the known hosts can be read and parsed.
pub load_constructs :
    {K C : Type 0} (x : Surroundings) (ssh : SshLibrary K C) (path : String) (cfg : Config)
    (key_bytes : String) (signer : K) (callback : C)
    → load x path ≡ ok cfg
    → ssh.read_file cfg.deploy.ssh_private_key_path ≡ ok key_bytes
    → ssh.parse_private_key key_bytes ≡ ok signer
    → ssh.known_hosts cfg.deploy.ssh_known_hosts_path ≡ ok callback
    → ((h : GitHost) × (new_git_provider cfg.git.provider ≡ ok h))
      × ((h : DnsHost) × (new_dns_provider cfg.dns.provider ≡ ok h))
      × ((t : DeployTarget K C) × (new_deploy_provider ssh cfg.deploy ≡ ok t))
load_constructs x ssh path cfg key_bytes signer callback h read parsed trusted =
    let (ready, unified) = load-IsStartable x path cfg h in
    let (git, dns) = load-named x path cfg h in
    (
      git-known cfg.git.provider (rw git at ready.git_ready.is_known),
      dns-known cfg.dns.provider (rw dns at ready.dns_ready.is_known),
      deploy-known ssh cfg.deploy key_bytes signer callback ready.deploy_ready read parsed trusted,
    )
