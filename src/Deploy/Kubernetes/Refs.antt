-- ===== src/Deploy/Kubernetes/Refs.antt =====
-- The object names that kubectl is given: validName, deploymentName and Apply of
-- providers/deploy/kubernetes/kubernetes.go.
use ramify.Prelude.{
  ℕ, zero, suc, ◌≤◌, ◌<◌, String, Bool, true, false, not, ◌&&◌, ◌||◌, ◌==◌, ◌≡◌, ◌⊎◌, refl, ap, ◌∙◌,
  Bool-cases, inl, inr, some, List, [], ◌∷◌, ◌++◌, length, take, arith,
}
use ramify.Prelude.Codes.{chars}
use ramify.Errors.{Err, is_terminal, is, wrap, sentinel, permanent_failure}
use ramify.Provider.{Result, ok, err}
use ramify.Dns.Client.{Act, pure, raise, ◌>>=◌, wrapped, follow, with_context}
use ramify.Dns.Texts.{Text, same_text}
use ramify.Domain.Normal.{IsLabel}
use ramify.Deploy.Compose.{Deployment}
use ramify.Deploy.Kubernetes.Labels.{valid_name-IsLabel}
use ramify.Deploy.Kubernetes.Manifest.{manifest, manifest_lines, newline}
use ramify.Deploy.Kubernetes.Manifest.Lines.{is_line, lines_of, AreLines, manifest-read}
use ramify.Deploy.Kubernetes.{
  Spec, Cluster, is_alphanumeric, matches_rest, matches_name, valid_name, refuse, deployment_name,
  tls_secret_name, quoted_class, values, apply_as, apply_named, apply, kubectl, scale, sleep, wake,
  destroy, health_check, logs, host_name, printable_ascii,
}

abbrev pub all_alphanumeric : Text → Bool
all_alphanumeric [] = true
all_alphanumeric (c ∷ s) = is_alphanumeric c && all_alphanumeric s

-- What the standard library documents: the digits of a digest are lower-case hexadecimal and at
-- least sixteen, and a quoted text and a number are one line.
pub record IsFaithful {S : Type 0} (k : Cluster S) : Type 0 where
  pub digits : (t : Text) → all_alphanumeric (take 16 (k.library.hex_digest t)) ≡ true
  pub has_digits : (t : Text) → 0 < length (take 16 (k.library.hex_digest t))
  pub quotes_line : (t : Text) → is_line (k.quote_yaml t) ≡ true
  pub number_line : (n : ℕ) → is_line (k.itoa n) ≡ true

rest-digits :
    (c : ℕ) (s : Text)
    → (is_alphanumeric c || c == 45) ≡ true
    → 0 < length s
    → all_alphanumeric s ≡ true
    → matches_rest c s ≡ true
unfolding matches_rest
rest-digits c [] h pos a = absurd (omega arith)
rest-digits c (d ∷ []) h pos a = rw h (ground arith)
rest-digits c (d ∷ e ∷ s) h pos a =
    rw h (rest-digits d (e ∷ s) (ground arith) (omega arith) (ground arith))

take-short : (n : ℕ) (s : Text) → length (take n s) ≤ n
take-short zero s = omega arith
take-short (suc n) [] = omega arith
take-short (suc n) (c ∷ s) = omega (arith, take-short n s)

valid-parts :
    (c : ℕ) (s : Text) → length s ≤ 62 → matches_name (c ∷ s) ≡ true → valid_name (c ∷ s) ≡ true
unfolding valid_name same_text
valid-parts c s short m = rw m (ground arith)

alphanumeric-line : (c : ℕ) → is_alphanumeric c ≡ true → (c == newline) ≡ false
unfolding is_alphanumeric
alphanumeric-line c h = ground arith

name_char-line : (c : ℕ) → (is_alphanumeric c || c == 45) ≡ true → (c == newline) ≡ false
unfolding is_alphanumeric
name_char-line c h = ground arith

digits-line : (s : Text) → all_alphanumeric s ≡ true → is_line s ≡ true
digits-line [] h = refl
digits-line (c ∷ s) h = rw (alphanumeric-line c (ground arith)) (digits-line s (ground arith))

rest-line : (c : ℕ) (s : Text) → matches_rest c s ≡ true → is_line (c ∷ s) ≡ true
unfolding matches_rest
rest-line c [] h = rw (alphanumeric-line c h) refl
rest-line c (d ∷ s) h = rw (name_char-line c (ground arith)) (rest-line d s (ground arith))

name-line : (ref : Text) → valid_name ref ≡ true → is_line ref ≡ true
unfolding valid_name matches_name same_text
name-line [] h = refl
name-line (c ∷ s) h = rest-line c s (ground arith)

not_refused : {S A : Type 0} {a : A} (text : String) (s s' : S) → refuse text s ≡ (ok a, s') → ⊥
unfolding refuse raise
not_refused text s s' h = ground arith

module _ {S : Type 0} (k : Cluster S) where
  -- An operation is refused: it has not reached the cluster, and the error is not retried.
  pub record IsRefused {A : Type 0} (m : Act S A) : Type 0 where
    pub error : Err
    pub refuses : (s : S) → m s ≡ (err error, s)
    pub is_final : is_terminal (some error) ≡ true

  refuse-IsRefused : {A : Type 0} (text : String) → IsRefused (refuse {S = S} {A = A} text)
  unfolding refuse raise is_terminal is
  refuse-IsRefused text = record {
    error = wrap text (sentinel permanent_failure);
    refuses = λ s. refl;
    is_final = refl;
  }

  kubectl-IsRefused :
      {A : Type 0} (text : String) (ref : Text) (args : List Text) (answer : Text → A)
      → valid_name ref ≡ false
      → IsRefused (kubectl k text ref args answer)
  unfolding kubectl
  kubectl-IsRefused text ref args answer h = rw h (refuse-IsRefused text)

  -- The text that Apply is given as the reference of an earlier deployment.
  apply-IsRefused :
      (ref : Text) (spec : Spec)
      → valid_name ref ≡ false
      → (ref ≡ []) ⊎ IsRefused (apply k (record spec { previous_ref = ref }))
  unfolding apply apply_named
  apply-IsRefused [] spec h = inl refl
  apply-IsRefused (c ∷ s) spec h = inr (rw h (refuse-IsRefused "kubernetes: apply"))

  -- A reference that is no DNS label of at most 63 characters never reaches kubectl: every operation
  -- that is given it is refused with an error that the retries treat as terminal, Apply too where it
  -- is the reference of an earlier deployment and not empty.
  pub invalid_ref-IsRefused :
      (ref : Text) (spec : Spec)
      → (IsLabel 63 ref → ⊥)
      → IsRefused (sleep k ref)
        × IsRefused (wake k ref)
        × IsRefused (destroy k ref)
        × IsRefused (health_check k ref)
        × IsRefused (logs k ref)
        × ((ref ≡ []) ⊎ IsRefused (apply k (record spec { previous_ref = ref })))
  unfolding sleep wake scale destroy health_check logs
  invalid_ref-IsRefused ref spec no_label = elim (Bool-cases (valid_name ref)) [
    | inl valid ↦ absurd (no_label (valid_name-IsLabel ref valid))
    | inr h ↦ (
      kubectl-IsRefused _ ref _ _ h,
      kubectl-IsRefused _ ref _ _ h,
      kubectl-IsRefused _ ref _ _ h,
      kubectl-IsRefused _ ref _ _ h,
      kubectl-IsRefused _ ref _ _ h,
      apply-IsRefused ref spec h,
    )
  ]

  module _ (faithful : IsFaithful k) where
    deployment_name-valid :
        (project branch : Text) → valid_name (deployment_name k project branch) ≡ true
    unfolding valid_name matches_name deployment_name same_text is_alphanumeric
    deployment_name-valid project branch =
        let t = project ++ (chars "/" ++ branch) in
        valid-parts 114 (chars "amify-" ++ take 16 (k.library.hex_digest t))
          (omega (arith, take-short 16 (k.library.hex_digest t)))
          (rest-digits 45 _ refl (faithful.has_digits t) (faithful.digits t))

    class-line : (class : Text) → is_line (quoted_class k class) ≡ true
    unfolding quoted_class
    class-line [] = refl
    class-line (c ∷ s) = faithful.quotes_line (c ∷ s)

    values-AreLines :
        (name : Text) (spec : Spec) → valid_name name ≡ true → AreLines (values k name spec)
    unfolding values tls_secret_name
    values-AreLines name spec valid = record {
      name = name-line name valid;
      image = faithful.quotes_line spec.artifact_ref;
      container_port = faithful.number_line k.container_port;
      service_port = faithful.number_line k.service_port;
      class = class-line k.ingress_class;
      host = faithful.quotes_line (host_name spec.subdomain k.base_domain);
      secret = digits-line _ (faithful.digits (host_name spec.subdomain k.base_domain));
    }

    -- The manifest of a deployment with a valid name is read back as the lines of the template, with
    -- one value in each: no artifact, subdomain or ingress class adds a line or ends one early.
    pub manifest-template :
        (name : Text) (spec : Spec)
        → valid_name name ≡ true
        → lines_of (manifest (values k name spec)) ≡ manifest_lines (values k name spec)
    manifest-template name spec valid = manifest-read _ (values-AreLines name spec valid)

    answered :
        (r : Result Text) (d d' : Deployment) (s s' : S)
        → follow (with_context "kubernetes: apply" r) (λ out. pure d) s ≡ (ok d', s')
        → d' ≡ d
    unfolding follow with_context pure
    answered (ok out) d d' s s' h = ground arith
    answered (err e) d d' s s' h = ground arith

    apply_as-ref :
        (name : Text) (spec : Spec) (s s' : S) (d : Deployment)
        → apply_as k name spec s ≡ (ok d, s')
        → d.ref ≡ name
    unfolding apply_as refuse raise ◌>>=◌ wrapped
    apply_as-ref name spec s s' d h =
        elim (Bool-cases (
          not (printable_ascii spec.artifact_ref)
          || not (printable_ascii (host_name spec.subdomain k.base_domain)))) [
            | inl foreign ↦ absurd (not_refused "kubernetes: apply" s s' (rw foreign at h))
            | inr printable ↦
                ap (λ (e : Deployment). e.ref) (answered _ _ d _ s' (rw printable at h))
          ]

    apply_named-ref :
        (prev : Text) (spec : Spec) (s s' : S) (d : Deployment)
        → apply_named k prev spec s ≡ (ok d, s')
        → valid_name d.ref ≡ true
    unfolding apply_named refuse raise
    apply_named-ref [] spec s s' d h =
        ap valid_name (apply_as-ref _ spec s s' d h)
        ∙ deployment_name-valid spec.project spec.branch
    apply_named-ref (c ∷ t) spec s s' d h = elim (Bool-cases (valid_name (c ∷ t))) [
      | inl valid ↦ ap valid_name (apply_as-ref (c ∷ t) spec s s' d (rw valid at h)) ∙ valid
      | inr invalid ↦ absurd (not_refused "kubernetes: apply" s s' (rw invalid at h))
    ]

    -- The reference that Apply returns is an object name, which every other operation accepts.
    pub apply-valid :
        (spec : Spec) (s s' : S) (d : Deployment)
        → apply k spec s ≡ (ok d, s')
        → valid_name d.ref ≡ true
    unfolding apply
    apply-valid spec s s' d h = apply_named-ref spec.previous_ref spec s s' d h
