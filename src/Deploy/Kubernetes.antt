-- ===== src/Deploy/Kubernetes.antt =====
-- providers/deploy/kubernetes/kubernetes.go, over code points: kubectl on one namespace. Running it is
-- the `commandRunner` of the source, which takes the arguments and what it is given to read.
pub mod Manifest
pub mod Labels
pub mod Refs
use ramify.Prelude.{
  ℕ, String, Bool, true, false, not, ◌&&◌, ◌||◌, leb, ltb, ◌==◌, if◌then◌else◌, List, [], ◌∷◌, ◌++◌,
  length, take,
}
use ramify.Prelude.Codes.{chars}
use ramify.Domain.{is_label_char, dash}
use ramify.Errors.{Err, sentinel, wrap, permanent_failure}
use ramify.Provider.{Result, ok, err}
use ramify.Dns.Client.{Act, pure, raise, ◌>>=◌, wrapped}
use ramify.Dns.Texts.{Text, same_text}
use ramify.Deploy.Compose.{concat, Deployment, Status, Library, trim_space}
use ramify.Deploy.Kubernetes.Manifest.{Values, manifest, text_of, secret_lines}

-- The fields of providerapi.EnvSpec that the provider reads.
pub record Spec : Type 0 where
  pub project : Text
  pub branch : Text
  pub subdomain : Text
  pub artifact_ref : Text
  pub previous_ref : Text

-- The provider: its runner, its settings, and the functions of Go's standard library that it uses;
-- `itoa` and `quote_yaml` are strconv.Itoa and strconv.Quote.
pub record Cluster (S : Type 0) : Type 0 where
  pub library : Library
  pub itoa : ℕ → Text
  pub quote_yaml : Text → Text
  pub run : List Text → Text → Act S Text
  pub namespace : Text
  pub base_domain : Text
  pub dns_target : Text
  pub ingress_class : Text
  pub container_port : ℕ
  pub service_port : ℕ

unfoldable pub or_number : ℕ → ℕ → ℕ
or_number n default = if n == 0 then default else n

unfoldable pub or_text : Text → Text → Text
or_text [] default = default
or_text (c ∷ s) default = c ∷ s

unfoldable pub without_dot : Text → Text
without_dot [] = []
without_dot (c ∷ []) = if c == 46 then [] else c ∷ []
without_dot (c ∷ d ∷ s) = c ∷ without_dot (d ∷ s)

unfoldable pub new_with_runner : {S : Type 0} → Cluster S → Cluster S
unfolding or_number or_text without_dot
new_with_runner k =
    let container = or_number k.container_port 8080 in
    record k {
      namespace = or_text k.namespace (chars "default");
      base_domain = without_dot k.base_domain;
      container_port = container;
      service_port = or_number k.service_port container;
    }

abbrev pub max_name_length : ℕ
max_name_length = 63

-- [a-z0-9]
unfoldable pub is_alphanumeric : ℕ → Bool
is_alphanumeric c = (leb 97 c && leb c 122) || (leb 48 c && leb c 57)

-- ([-a-z0-9]*[a-z0-9])? from a character on
unfoldable pub matches_rest : ℕ → Text → Bool
unfolding is_alphanumeric
matches_rest c [] = is_alphanumeric c
matches_rest c (d ∷ s) = (is_alphanumeric c || c == dash) && matches_rest d s

-- ^[a-z0-9]([-a-z0-9]*[a-z0-9])?$
unfoldable pub matches_name : Text → Bool
unfolding matches_rest
matches_name [] = false
matches_name (c ∷ s) = is_alphanumeric c && matches_rest c s

unfoldable pub valid_name : Text → Bool
unfolding matches_name
valid_name ref = not (same_text ref []) && leb (length ref) max_name_length && matches_name ref

unfoldable pub host_name : Text → Text → Text
host_name subdomain [] = subdomain
host_name subdomain (c ∷ s) = subdomain ++ (chars "." ++ c ∷ s)

unfoldable pub printable_ascii : Text → Bool
printable_ascii [] = true
printable_ascii (c ∷ s) = if ltb c 32 || ltb 126 c then false else printable_ascii s

-- `fmt.Errorf("...: %w ...", providerapi.ErrPermanent)`
unfoldable pub refuse : {S A : Type 0} → String → Act S A
refuse text = raise (wrap text (sentinel permanent_failure))

module _ {S : Type 0} (k : Cluster S) where
  unfoldable pub deployment_name : Text → Text → Text
  deployment_name project branch =
      chars "ramify-" ++ take 16 (k.library.hex_digest (project ++ (chars "/" ++ branch)))

  unfoldable pub tls_secret_name : Text → Text
  tls_secret_name domain = chars "ramify-tls-" ++ take 16 (k.library.hex_digest domain)

  -- `if p.ingressClass != ""`
  unfoldable pub quoted_class : Text → Text
  quoted_class [] = []
  quoted_class (c ∷ s) = k.quote_yaml (c ∷ s)

  unfoldable pub values : Text → Spec → Values
  unfolding quoted_class
  values name spec =
      let host = host_name spec.subdomain k.base_domain in
      record {
        name = name;
        image = k.quote_yaml spec.artifact_ref;
        container_port = k.itoa k.container_port;
        service_port = k.itoa k.service_port;
        class = quoted_class k.ingress_class;
        host = k.quote_yaml host;
        secret = tls_secret_name host;
      }

  unfoldable pub apply_as : Text → Spec → Act S Deployment
  unfolding values
  apply_as name spec =
      if not (printable_ascii spec.artifact_ref)
        || not (printable_ascii (host_name spec.subdomain k.base_domain))
      then refuse "kubernetes: apply"
      else (do
        out ← wrapped "kubernetes: apply" (
            k.run (chars "apply" ∷ chars "-n" ∷ k.namespace ∷ chars "-f" ∷ chars "-" ∷ [])
              (manifest (values name spec)))
        pure (record { ref = name; internal_addr = k.dns_target }))

  unfoldable pub apply_named : Text → Spec → Act S Deployment
  unfolding apply_as
  apply_named [] spec = apply_as (deployment_name spec.project spec.branch) spec
  apply_named (c ∷ s) spec =
      if valid_name (c ∷ s) then apply_as (c ∷ s) spec else refuse "kubernetes: apply"

  unfoldable pub apply : Spec → Act S Deployment
  unfolding apply_named
  apply spec = apply_named spec.previous_ref spec

  -- `if !validName(ref) { return ... }`, and the command
  unfoldable pub kubectl : {A : Type 0} → String → Text → List Text → (Text → A) → Act S A
  kubectl text ref args answer =
      if valid_name ref
      then (do out ← wrapped text (k.run args []); pure (answer out))
      else refuse text

  abbrev in_namespace : List Text → List Text
  in_namespace rest = chars "-n" ∷ k.namespace ∷ rest

  unfoldable pub scale : Text → ℕ → Act S (Unit {0})
  unfolding kubectl
  scale ref replicas =
      kubectl "kubernetes: scale" ref
        (chars "scale"
          ∷ (chars "deployment/" ++ ref)
          ∷ in_namespace ((chars "--replicas=" ++ k.itoa replicas) ∷ []))
        (λ out. tt)

  unfoldable pub sleep : Text → Act S (Unit {0})
  unfolding scale
  sleep ref = scale ref 0

  unfoldable pub wake : Text → Act S (Unit {0})
  unfolding scale
  wake ref = scale ref 1

  unfoldable pub destroy : Text → Act S (Unit {0})
  unfolding kubectl
  destroy ref =
      kubectl "kubernetes: destroy" ref
        (chars "delete"
          ∷ chars "deployment,service,ingress"
          ∷ ref
          ∷ in_namespace (chars "--ignore-not-found" ∷ []))
        (λ out. tt)

  -- The detail is kept by its constant text.
  unfoldable pub status_of_ready : Text → Status
  status_of_ready ready =
      if same_text ready [] || same_text ready (chars "0")
      then record { healthy = false; detail = "no ready replicas" }
      else record { healthy = true; detail = "ready replica(s)" }

  unfoldable pub health_check : Text → Act S Status
  unfolding kubectl status_of_ready
  health_check ref =
      kubectl "kubernetes: health check" ref
        (chars "get"
          ∷ (chars "deployment/" ++ ref)
          ∷ in_namespace (chars "-o" ∷ chars "jsonpath={.status.readyReplicas}" ∷ []))
        (λ out. status_of_ready (trim_space k.library out))

  unfoldable pub logs : Text → Act S Text
  unfolding kubectl
  logs ref =
      kubectl "kubernetes: logs" ref
        (chars "logs"
          ∷ (chars "deployment/" ++ ref)
          ∷ in_namespace (chars "--all-containers" ∷ chars "--tail=500" ∷ []))
        (λ out. out)

  unfoldable pub install_certificate : Text → Text → Text → Act S (Unit {0})
  unfolding text_of
  install_certificate domain certificate_pem private_key_pem = do
    out ← wrapped "kubernetes: install certificate" (
        k.run (chars "apply" ∷ in_namespace (chars "-f" ∷ chars "-" ∷ [])) (
          text_of (
            secret_lines (tls_secret_name domain) (k.library.base64 certificate_pem)
              (k.library.base64 private_key_pem))))
    pure tt

  unfoldable pub remove_certificate : Text → Act S (Unit {0})
  remove_certificate domain = do
    out ← wrapped "kubernetes: remove certificate" (
        k.run
          (chars "delete"
            ∷ chars "secret"
            ∷ tls_secret_name domain
            ∷ in_namespace (chars "--ignore-not-found" ∷ []))
          [])
    pure tt
