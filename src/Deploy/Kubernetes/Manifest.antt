-- ===== src/Deploy/Kubernetes/Manifest.antt =====
-- The manifests of providers/deploy/kubernetes/kubernetes.go, line by line.
pub mod Lines
use ramify.Prelude.{ℕ, String, List, [], ◌∷◌, ◌++◌}
use ramify.Prelude.Codes.{chars}
use ramify.Dns.Texts.{Text}

abbrev pub newline : ℕ
newline = 10

-- The text of a manifest: each line, with a newline behind it.
unfoldable pub text_of : List Text → Text
text_of [] = []
text_of (line ∷ rest) = line ++ newline ∷ text_of rest

-- The values that are put into a manifest; `image`, `host` and `class` are quoted scalars, and `class` is
-- empty where no ingress class is configured.
pub record Values : Type 0 where
  pub name : Text
  pub image : Text
  pub container_port : Text
  pub service_port : Text
  pub class : Text
  pub host : Text
  pub secret : Text

abbrev line : String → Text → Text
line text value = chars text ++ value

unfoldable pub class_line : Text → List Text
class_line [] = []
class_line (c ∷ s) = line "    ingressClassName: " (c ∷ s) ∷ []

module _ (v : Values) where
  abbrev labels : List Text
  labels =
      line "  name: " v.name
      ∷ chars "  labels:"
      ∷ chars "    app.kubernetes.io/managed-by: ramify"
      ∷ line "    ramify.io/deployment: " v.name
      ∷ chars "spec:"
      ∷ []

  unfoldable pub deployment_lines : List Text
  deployment_lines =
      chars "apiVersion: apps/v1"
      ∷ chars "kind: Deployment"
      ∷ chars "metadata:"
      ∷ (labels
          ++ chars "  replicas: 1"
            ∷ chars "  selector:"
            ∷ chars "    matchLabels:"
            ∷ line "      ramify.io/deployment: " v.name
            ∷ chars "  template:"
            ∷ chars "    metadata:"
            ∷ chars "      labels:"
            ∷ line "        ramify.io/deployment: " v.name
            ∷ chars "    spec:"
            ∷ chars "      containers:"
            ∷ chars "      - name: app"
            ∷ line "        image: " v.image
            ∷ chars "        imagePullPolicy: IfNotPresent"
            ∷ chars "        ports:"
            ∷ chars "        - name: http"
            ∷ line "          containerPort: " v.container_port
            ∷ chars "---"
            ∷ [])

  unfoldable pub service_lines : List Text
  service_lines =
      chars "apiVersion: v1"
      ∷ chars "kind: Service"
      ∷ chars "metadata:"
      ∷ (labels
          ++ chars "  selector:"
            ∷ line "    ramify.io/deployment: " v.name
            ∷ chars "  ports:"
            ∷ chars "  - name: http"
            ∷ line "    port: " v.service_port
            ∷ line "    targetPort: " v.container_port
            ∷ chars "---"
            ∷ [])

  unfoldable pub ingress_lines : List Text
  unfolding class_line
  ingress_lines =
      chars "apiVersion: networking.k8s.io/v1"
      ∷ chars "kind: Ingress"
      ∷ chars "metadata:"
      ∷ (labels
          ++ (class_line v.class
              ++ chars "  tls:"
                ∷ chars "  - hosts:"
                ∷ line "    - " v.host
                ∷ line "    secretName: " v.secret
                ∷ chars "  rules:"
                ∷ line "  - host: " v.host
                ∷ chars "    http:"
                ∷ chars "      paths:"
                ∷ chars "      - path: /"
                ∷ chars "        pathType: Prefix"
                ∷ chars "        backend:"
                ∷ chars "          service:"
                ∷ line "            name: " v.name
                ∷ chars "            port:"
                ∷ line "              number: " v.service_port
                ∷ []))

  unfoldable pub manifest_lines : List Text
  unfolding deployment_lines service_lines ingress_lines
  manifest_lines = deployment_lines ++ (service_lines ++ ingress_lines)

  unfoldable pub manifest : Text
  unfolding text_of manifest_lines
  manifest = text_of manifest_lines

unfoldable pub secret_lines : Text → Text → Text → List Text
secret_lines name certificate key =
    chars "apiVersion: v1"
    ∷ chars "kind: Secret"
    ∷ chars "metadata:"
    ∷ line "  name: " name
    ∷ chars "  labels:"
    ∷ chars "    app.kubernetes.io/managed-by: ramify"
    ∷ chars "type: kubernetes.io/tls"
    ∷ chars "data:"
    ∷ line "  tls.crt: " certificate
    ∷ line "  tls.key: " key
    ∷ []
