-- ===== src/Deploy/Kubernetes/Manifest/Lines.antt =====
-- The lines of a manifest of providers/deploy/kubernetes/kubernetes.go, read back.
use ramify.Prelude.{
  Bool, true, not, ◌&&◌, ◌==◌, ◌≡◌, refl, ap, ◌∙◌, Bool-cases, inl, inr, if◌then◌else◌, List, [],
  ◌∷◌, ◌++◌, arith,
}
use mathlib.Core.List.{append_assoc, append-nil}
use ramify.Dns.Texts.{Text}
use ramify.Deploy.Kubernetes.Manifest.{
  newline, text_of, Values, class_line, deployment_lines, service_lines, ingress_lines,
  manifest_lines, manifest,
}

-- A text of one line.
abbrev pub is_line : Text → Bool
is_line [] = true
is_line (c ∷ s) = not (c == newline) && is_line s

abbrev all_lines : List Text → Bool
all_lines [] = true
all_lines (s ∷ rest) = is_line s && all_lines rest

-- The lines of a text, each ended by a newline; `pending` is what has been read of one.
unfoldable pub lines_from : Text → Text → List Text
lines_from pending [] = []
lines_from pending (c ∷ s) =
    let ended = lines_from [] s in
    let longer = lines_from (pending ++ c ∷ []) s in
    if c == newline then pending ∷ ended else longer

unfoldable pub lines_of : Text → List Text
unfolding lines_from
lines_of s = lines_from [] s

read_line :
    (pending s rest : Text)
    → is_line s ≡ true
    → lines_from pending (s ++ newline ∷ rest) ≡ (pending ++ s) ∷ lines_from [] rest
unfolding lines_from
read_line pending [] rest h = rw (append-nil pending) refl
read_line pending (c ∷ s) rest h = elim (Bool-cases (c == newline)) [
  | inl ended ↦ absurd (ground arith)
  | inr more ↦ rw more (
      read_line (pending ++ c ∷ []) s rest (ground arith)
      ∙ ap (λ l. l ∷ lines_from [] rest) (append_assoc pending (c ∷ []) s))
]

lines_of-text_of : (ls : List Text) → all_lines ls ≡ true → lines_of (text_of ls) ≡ ls
unfolding lines_of text_of lines_from
lines_of-text_of [] h = refl
lines_of-text_of (s ∷ rest) h =
    read_line [] s (text_of rest) (ground arith)
    ∙ ap (λ ls. s ∷ ls) (lines_of-text_of rest (ground arith))

all_lines-append :
    (xs ys : List Text) → all_lines xs ≡ true → all_lines ys ≡ true → all_lines (xs ++ ys) ≡ true
all_lines-append [] ys p q = q
all_lines-append (x ∷ xs) ys p q =
    let rest = all_lines-append xs ys (ground arith) q in ground arith

class_line-line : (class : Text) → is_line class ≡ true → all_lines (class_line class) ≡ true
unfolding class_line
class_line-line [] h = refl
class_line-line (c ∷ s) h = rw h refl

-- Every value is one line.
pub record AreLines (v : Values) : Type 0 where
  pub name : is_line v.name ≡ true
  pub image : is_line v.image ≡ true
  pub container_port : is_line v.container_port ≡ true
  pub service_port : is_line v.service_port ≡ true
  pub class : is_line v.class ≡ true
  pub host : is_line v.host ≡ true
  pub secret : is_line v.secret ≡ true

module _ (v : Values) (h : AreLines v) where
  deployment-lines : all_lines (deployment_lines v) ≡ true
  unfolding deployment_lines
  deployment-lines = rw (h.name, h.image, h.container_port) refl

  service-lines : all_lines (service_lines v) ≡ true
  unfolding service_lines
  service-lines = rw (h.name, h.container_port, h.service_port) refl

  ingress-lines : all_lines (ingress_lines v) ≡ true
  unfolding ingress_lines
  ingress-lines = rw h.name (
      all_lines-append (class_line v.class) _ (class_line-line v.class h.class)
        (rw (h.name, h.host, h.secret, h.service_port) refl))

  -- A manifest into which one line is put for each value is read back as the lines of the template.
  pub manifest-read : lines_of (manifest v) ≡ manifest_lines v
  unfolding manifest manifest_lines
  manifest-read = lines_of-text_of (manifest_lines v) (
      all_lines-append (deployment_lines v) (service_lines v ++ ingress_lines v) deployment-lines
        (all_lines-append (service_lines v) (ingress_lines v) service-lines ingress-lines))
