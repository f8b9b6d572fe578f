-- ===== src/Tests/Deployments.antt =====
-- The theorems on the providers of deployments, at a host that notes the commands it is sent.
use ramify.Prelude.{
  true, false, ◌≡◌, refl, List, [], ◌∷◌, ◌++◌, arith, ◌==◌, if◌then◌else◌, Bool-cases, inl, inr,
  clash, ◌⊎◌,
}
use ramify.Prelude.Codes.{chars}
use ramify.Domain.Normal.{IsLabel}
use ramify.Provider.{ok}
use ramify.Dns.Texts.{Text}
use ramify.Deploy.Shell.{between, in_word, scan}
use ramify.Deploy.Compose
use ramify.Deploy.Compose.{Spec, Library, Provider, shell_quote, name_of}
use ramify.Deploy.Compose.Quoting.{shell_quote-read}
use ramify.Deploy.Compose.Commands.{Sends, in_project, lifecycle-Sends}
use ramify.Deploy.Compose.Names.{project_name-IsLabel}
use ramify.Deploy.Kubernetes
use ramify.Deploy.Kubernetes.{Cluster, values, valid_name}
use ramify.Deploy.Kubernetes.Manifest.{manifest, manifest_lines}
use ramify.Deploy.Kubernetes.Manifest.Lines.{lines_of, is_line}
use ramify.Deploy.Kubernetes.Refs.{IsFaithful, IsRefused, manifest-template, invalid_ref-IsRefused}

-- it's; rm -rf /
abbrev hostile : Text
hostile = chars "it's; rm -rf /"

abbrev library : Library
library = record {
  lower = λ c. c;
  hex_digest = λ t. 97 ∷ 98 ∷ 99 ∷ 49 ∷ 50 ∷ 51 ∷ [];
  base64 = λ t. t;
  is_space = λ c. false;
}

abbrev provider : Provider (List Text)
provider = record {
  run = λ command s. (ok [], command ∷ s);
  compose_file = chars "/srv/compose.yml";
  dns_target = chars "10.0.0.1";
  certificate_dir = [];
}

abbrev spec : Spec
spec = record {
  project = chars "shop";
  branch = chars "feature/x";
  artifact_ref = hostile;
  previous_ref = [];
}

shell_quote-read_example :
    (scan
        (record { mode = between; pending = []; tokens = [] })
        (shell_quote hostile ++ chars " up")
      ≡ scan (record { mode = in_word; pending = hostile; tokens = [] }) (chars " up"))
    × (scan
          (record { mode = in_word; pending = chars "TAG="; tokens = [] })
          (shell_quote hostile ++ chars " up")
        ≡ scan
            (record { mode = in_word; pending = chars "TAG=" ++ hostile; tokens = [] })
            (chars " up"))
shell_quote-read_example = shell_quote-read hostile (chars " up") (chars "TAG=") []

lifecycle-Sends_example :
    Sends provider
      (Compose.sleep library provider hostile)
      (in_project provider hostile ("stop" ∷ []))
    × Sends provider
        (Compose.wake library provider hostile)
        (in_project provider hostile ("start" ∷ []))
    × Sends provider
        (Compose.destroy library provider hostile)
        (in_project provider hostile ("down" ∷ "--volumes" ∷ "--remove-orphans" ∷ []))
    × Sends provider
        (Compose.health_check library provider hostile)
        (in_project provider hostile ("ps" ∷ "--status" ∷ "running" ∷ "-q" ∷ []))
lifecycle-Sends_example = lifecycle-Sends library provider hostile

project_name-IsLabel_example : IsLabel 63 (Compose.project_name library (chars "shop") (chars "x"))
unfolding ramify.Domain.short_hash ramify.Domain.is_label_char
project_name-IsLabel_example = project_name-IsLabel library (chars "shop") (chars "x") (record {
  chars = (refl, (refl, (refl, (refl, (refl, (refl, tt))))));
  nonempty = omega arith;
  first = refl;
  last = refl;
  bounded = omega arith;
})

-- Quoting keeps the characters but for newlines, which it leaves out.
abbrev unbroken : Text → Text
unbroken [] = []
unbroken (c ∷ s) = if c == 10 then unbroken s else c ∷ unbroken s

abbrev cluster : Cluster (List Text)
cluster = record {
  library = library;
  itoa = λ n. 56 ∷ [];
  quote_yaml = λ t. 34 ∷ (unbroken t ++ 34 ∷ []);
  run = λ args input s. (ok [], input ∷ s);
  namespace = chars "previews";
  base_domain = chars "dev.test";
  dns_target = chars "10.0.0.1";
  ingress_class = chars "nginx";
  container_port = 8080;
  service_port = 80;
}

unbroken-line : (t : Text) → is_line (unbroken t ++ 34 ∷ []) ≡ true
unbroken-line [] = refl
unbroken-line (c ∷ s) = elim (Bool-cases (c == 10)) [
  | inl cut ↦ rw cut (unbroken-line s)
  | inr kept ↦ rw kept (rw kept (unbroken-line s))
]

cluster-IsFaithful : IsFaithful cluster
unfolding ramify.Deploy.Kubernetes.is_alphanumeric
cluster-IsFaithful = record {
  digits = λ t. refl;
  has_digits = λ t. omega arith;
  quotes_line = unbroken-line;
  number_line = λ n. refl;
}

abbrev preview : Kubernetes.Spec
preview = record {
  project = chars "shop";
  branch = chars "feature/x";
  subdomain = chars "x";
  artifact_ref = chars "image:1";
  previous_ref = [];
}

manifest-template_example :
    lines_of (manifest (values cluster (chars "ramify-1") preview))
    ≡ manifest_lines (values cluster (chars "ramify-1") preview)
unfolding valid_name Kubernetes.matches_name Kubernetes.is_alphanumeric ramify.Dns.Texts.same_text
manifest-template_example =
    manifest-template cluster cluster-IsFaithful (chars "ramify-1") preview refl

-- kubectl would read it as an option.
option-no_label : IsLabel 63 (chars "--all") → ⊥
option-no_label label = clash refl label.first

invalid_ref-IsRefused_example :
    IsRefused cluster (Kubernetes.sleep cluster (chars "--all"))
    × IsRefused cluster (Kubernetes.wake cluster (chars "--all"))
    × IsRefused cluster (Kubernetes.destroy cluster (chars "--all"))
    × IsRefused cluster (Kubernetes.health_check cluster (chars "--all"))
    × IsRefused cluster (Kubernetes.logs cluster (chars "--all"))
    × ((chars "--all" ≡ [])
        ⊎ IsRefused cluster
            (Kubernetes.apply cluster (record preview { previous_ref = chars "--all" })))
invalid_ref-IsRefused_example =
    invalid_ref-IsRefused cluster (chars "--all") preview option-no_label
