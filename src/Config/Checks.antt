-- ===== src/Config/Checks.antt =====
-- The checks of Validate, one by one.
use ramify.Prelude.{
  if◌then◌else◌, str_eq-false, String, Bool, true, false, not, ◌&&◌, ◌≡◌, ◌≢◌, ◌⊎◌, inl, inr, refl,
  List, [], str_eq, eq_iff, Bool-cases, clash, arith,
}
use ramify.Config.{
  is_empty, Network, lacking, lacking_server, lacking_git, lacking_compose, lacking_platform,
  lacking_deploy, lacking_dns,
}
use ramify.Config.Types.{ServerConfig, DeployConfig, DnsConfig}
use ramify.Config.Requirements.{IsGuarded, IsGitReady, IsComposeReady, IsDeployReady, IsDnsReady}

module _ {a : String} where
  pub empty-false : is_empty a ≡ false → a ≢ ""
  empty-false h e = clash ((eq_iff a "").1 e) h

  false-empty : a ≢ "" → is_empty a ≡ false
  false-empty h = str_eq-false h

pub lacking-empty :
    (b : Bool) (text : String) (rest : List String)
    → lacking b text rest ≡ []
    → (b ≡ false) × (rest ≡ [])
unfolding lacking
lacking-empty true text rest h = absurd (ground arith)
lacking-empty false text rest h = (refl, h)

excluded : {a b : Bool} → (a && not b) ≡ false → b ≡ false → a ≡ false
excluded h b = ground arith

present : {a : String} → not (is_empty a) ≡ true → a ≢ ""
present h e = let h' = (eq_iff _ "").1 e in ground arith

absent : {a : String} → a ≢ "" → not (is_empty a) ≡ true
absent h = let h' = str_eq-false h in ground arith

excludes : {a b : Bool} → (a && b) ≡ false → a ≡ true → b ≡ false
excludes h a = ground arith

private_of :
    {remote cert key allowed loopback : Bool}
    → (remote && not (cert && key) && not allowed && not loopback) ≡ false
    → remote ≡ true
    → (allowed ≡ true) ⊎ (loopback ≡ true) ⊎ ((cert ≡ true) × (key ≡ true))
private_of {allowed = true} h r = inl refl
private_of {allowed = false} {loopback = true} h r = inr (inl refl)
private_of {allowed = false} {loopback = false} h r = inr (inr (ground arith, ground arith))

pub lacking_server-empty :
    (n : Network) (s : ServerConfig) (rest : List String)
    → lacking_server n s rest ≡ []
    → IsGuarded n s × (rest ≡ [])
unfolding lacking_server
lacking_server-empty n s rest h =
    let (socket, h1) = lacking-empty _ _ _ h in
    let (token, h2) = lacking-empty _ _ _ h1 in
    let (exposed, h3) = lacking-empty _ _ _ h2 in
    (
      record {
        has_socket = empty-false socket;
        has_token = λ remote. empty-false (excludes token (absent remote));
        is_private = λ remote.
            elim (private_of {cert = not (is_empty s.tcp_tls_cert_file)}
              {key = not (is_empty s.tcp_tls_key_file)} exposed (absent remote)) [
                | inl allowed ↦ inl allowed
                | inr (inl loopback) ↦ inr (inl loopback)
                | inr (inr (cert, key)) ↦ inr (inr (present cert, present key))
              ];
      },
      h3,
    )

second : {a b : Bool} → (not a && not b) ≡ false → a ≡ false → b ≡ true
second h a = ground arith

-- Of three names at least one.
one_of_three :
    {p a b c : String}
    → (not (str_eq p a) && not (str_eq p b) && not (str_eq p c)) ≡ false
    → (p ≡ a) ⊎ (p ≡ b) ⊎ (p ≡ c)
one_of_three {p} {a} {b} {c} h = elim (Bool-cases (str_eq p a)) [
  | inl first ↦ inl ((eq_iff p a).0 first)
  | inr not_first ↦ elim (Bool-cases (str_eq p b)) [
    | inl second ↦ inr (inl ((eq_iff p b).0 second))
    | inr not_second ↦ inr (inr ((eq_iff p c).0 (ground arith)))
  ]
]

pub lacking_git-empty :
    (provider token secret : String) (rest : List String)
    → lacking_git provider token secret rest ≡ []
    → IsGitReady provider token secret × (rest ≡ [])
unfolding lacking_git
lacking_git-empty provider token secret rest h =
    let (t, h1) = lacking-empty _ _ _ h in
    let (w, h2) = lacking-empty _ _ _ h1 in
    let (k, h3) = lacking-empty _ _ _ h2 in
    (
      record { has_token = empty-false t; has_secret = empty-false w; is_known = one_of_three k },
      h3,
    )

lacking_compose-empty :
    (d : DeployConfig) (rest : List String)
    → lacking_compose d rest ≡ []
    → IsComposeReady d × (rest ≡ [])
unfolding lacking_compose
lacking_compose-empty d rest h =
    let (a, h1) = lacking-empty _ _ _ h in
    let (f, h2) = lacking-empty _ _ _ h1 in
    let (k, h3) = lacking-empty _ _ _ h2 in
    let (c, h4) = lacking-empty _ _ _ h3 in
    let (v, h5) = lacking-empty _ _ _ h4 in
    (
      record {
        has_host = empty-false a;
        has_file = empty-false f;
        has_key = empty-false k;
        has_certificates = empty-false c;
        is_verified = elim (Bool-cases d.ssh_insecure_skip_host_key_verify) [
          | inl skipped ↦ inr skipped
          | inr strict ↦ inl (empty-false (excluded v strict))
        ];
      },
      h5,
    )

IsPlatform : String → DeployConfig → Type 0
IsPlatform provider d =
    ((not (str_eq provider "compose") && not (str_eq provider "kubernetes")) ≡ false)
    × (d.dns_target ≢ "")
    × (provider ≡ "kubernetes" → d.kubernetes_namespace ≢ "")

lacking_platform-empty :
    (provider : String) (d : DeployConfig) (rest : List String)
    → lacking_platform provider d rest ≡ []
    → IsPlatform provider d × (rest ≡ [])
unfolding lacking_platform IsPlatform
lacking_platform-empty provider d rest h =
    let (k, h1) = lacking-empty _ _ _ h in
    let (t, h2) = lacking-empty _ _ _ h1 in
    let (m, h3) = lacking-empty _ _ _ h2 in
    ((k, empty-false t, λ e. empty-false (excludes m ((eq_iff provider "kubernetes").1 e))), h3)

taken : (b : Bool) (x y : List String) → (if b then x else y) ≡ [] → b ≡ true → x ≡ []
taken true x y h e = h
taken false x y h e = absurd (clash e refl)

passed : (b : Bool) (x y : List String) → (if b then x else y) ≡ [] → b ≡ false → y ≡ []
passed true x y h e = absurd (clash refl e)
passed false x y h e = h

pub lacking_deploy-empty :
    (provider : String) (d : DeployConfig) (rest : List String)
    → lacking_deploy provider d rest ≡ []
    → IsDeployReady provider d × (rest ≡ [])
unfolding lacking_deploy IsPlatform
lacking_deploy-empty provider d rest h = elim (Bool-cases (str_eq provider "compose")) [
  | inl compose ↦
      let (ready, h0) =
        lacking_compose-empty d (lacking_platform provider d rest) (taken _ _ _ h compose) in
      let ((k, t, m), h1) = lacking_platform-empty provider d rest h0 in
      (
        record {
          is_known = inl ((eq_iff provider "compose").0 compose);
          has_target = t;
          has_namespace = m;
          has_compose = λ e. ready;
        },
        h1,
      )
  | inr other ↦
      let ((k, t, m), h1) = lacking_platform-empty provider d rest (passed _ _ _ h other) in
      (
        record {
          is_known = inr ((eq_iff provider "kubernetes").0 (second k other));
          has_target = t;
          has_namespace = m;
          has_compose = λ e. absurd (clash ((eq_iff provider "compose").1 e) other);
        },
        h1,
      )
]

token_of :
    {google route empty_token empty_legacy : Bool}
    → (not google && not route && empty_token && empty_legacy) ≡ false
    → google ≡ false
    → route ≡ false
    → (empty_token ≡ false) ⊎ (empty_legacy ≡ false)
token_of {empty_token = false} h g r = inl refl
token_of {empty_token = true} h g r = inr (ground arith)

one_of_four :
    {p a b c d : String}
    → (not (str_eq p a) && not (str_eq p b) && not (str_eq p c) && not (str_eq p d)) ≡ false
    → (p ≡ a) ⊎ (p ≡ b) ⊎ (p ≡ c) ⊎ (p ≡ d)
one_of_four {p} {a} {b} {c} {d} h = elim (Bool-cases (str_eq p d)) [
  | inl last ↦ inr (inr (inr ((eq_iff p d).0 last)))
  | inr other ↦ elim (one_of_three (excluded h other)) [
    | inl e ↦ inl e
    | inr (inl e) ↦ inr (inl e)
    | inr (inr e) ↦ inr (inr (inl e))
  ]
]

pub lacking_dns-empty :
    (provider : String) (d : DnsConfig) (rest : List String)
    → lacking_dns provider d rest ≡ []
    → IsDnsReady provider d × (rest ≡ [])
unfolding lacking_dns
lacking_dns-empty provider d rest h =
    let (z, h1) = lacking-empty _ _ _ h in
    let (t, h2) = lacking-empty _ _ _ h1 in
    let (k, h3) = lacking-empty _ _ _ h2 in
    let (p, h4) = lacking-empty _ _ _ h3 in
    let (i, h5) = lacking-empty _ _ _ h4 in
    (
      record {
        has_zone = empty-false z;
        has_token = λ g r. elim (token_of t (str_eq-false g) (str_eq-false r)) [
          | inl e ↦ inl (empty-false e)
          | inr e ↦ inr (empty-false e)
        ];
        is_known = one_of_four k;
        has_project = λ e.
            let google = (eq_iff provider "googlecloud").1 e in
            (empty-false (excludes p google), empty-false (excludes i google));
      },
      h5,
    )
