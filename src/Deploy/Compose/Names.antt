-- ===== src/Deploy/Compose/Names.antt =====
-- The names of deployments and their health: projectName, Apply and HealthCheck of
-- providers/deploy/compose/compose.go.
use ramify.Prelude.{
  ℕ, ◌<◌, ◌≡◌, refl, ap, ◌∙◌, Bool, true, not, ◌&&◌, [], ◌∷◌, ◌++◌, length, arith, Bool-cases, inl,
  inr,
}
use ramify.Domain.{short_hash, is_label_char}
use ramify.Domain.Labels.{AllLabel-append, ends_with_dash}
use ramify.Domain.Normal.{IsLabel, normalize-IsLabel}
use ramify.Provider.{Result, ok, err}
use ramify.Dns.Client.{◌>>=◌, wrapped, follow, with_context, pure}
use ramify.Dns.Texts.{Text, same_text}
use ramify.Prelude.Codes.{chars}
use ramify.Deploy.Compose.{
  Spec, Library, Provider, Deployment, Status, name_of, or_else, project_name, apply, apply_command,
  trim_space, trim_space_left, trim_space_right, trim_space_onto, health_check, status_of,
  project_command,
}

or_else-again :
    (prev name : Text) {c : ℕ} {s : Text}
    → name ≡ c ∷ s
    → or_else (or_else prev name) name ≡ or_else prev name
unfolding or_else
or_else-again [] name h = rw h refl
or_else-again (c ∷ s) name h = refl

last-prefix : (s : Text) → 0 < length s → ends_with_dash (45 ∷ s) ≡ ends_with_dash s
last-prefix [] h = absurd (omega arith)
last-prefix (c ∷ s) h = refl

module _ (l : Library) where
  abbrev pub is_blank : Text → Bool
  is_blank [] = true
  is_blank (c ∷ s) = l.is_space c && is_blank s

  onto-blank :
      (c : ℕ) (s : Text) → same_text (trim_space_onto l c s) [] ≡ (l.is_space c && same_text s [])
  unfolding trim_space_onto same_text
  onto-blank c [] = elim (Bool-cases (l.is_space c)) [ inl y ↦ rw y refl | inr n ↦ rw n refl ]
  onto-blank c (d ∷ s) = elim (Bool-cases (l.is_space c)) [ inl y ↦ rw y refl | inr n ↦ rw n refl ]

  right-blank : (s : Text) → same_text (trim_space_right l s) [] ≡ is_blank s
  unfolding trim_space_right same_text
  right-blank [] = refl
  right-blank (c ∷ s) =
      onto-blank c (trim_space_right l s) ∙ ap (λ b. l.is_space c && b) (right-blank s)

  left-blank : (s : Text) → is_blank (trim_space_left l s) ≡ is_blank s
  unfolding trim_space_left
  left-blank [] = refl
  left-blank (c ∷ s) = elim (Bool-cases (l.is_space c)) [
    | inl y ↦ rw y (left-blank s)
    | inr n ↦ rw n (rw n refl)
  ]

  status_of-healthy : (out : Text) → (status_of l out).healthy ≡ not (is_blank out)
  unfolding status_of trim_space
  status_of-healthy out =
      let blank = right-blank (trim_space_left l out) ∙ left-blank out in
      elim (Bool-cases (is_blank out)) [
        | inl y ↦ rw (blank ∙ y) (rw y refl)
        | inr n ↦ rw (blank ∙ n) (rw n refl)
      ]

  -- If the first six digits of the digest of a project and branch are a label of at most 56
  -- characters, the project name is a label of at most 63 characters [a-z0-9-].
  pub project_name-IsLabel :
      (project branch : Text)
      → IsLabel 56 (short_hash l.lower l.hex_digest (project ++ (chars "-" ++ branch)))
      → IsLabel 63 (project_name l project branch)
  unfolding project_name
  project_name-IsLabel project branch h =
      let label = normalize-IsLabel l.lower l.hex_digest (project ++ (chars "-" ++ branch)) 56 h in
      record {
        chars =
            unfold is_label_char in
            AllLabel-append (chars "ramify-") _
              (refl, (refl, (refl, (refl, (refl, (refl, (refl, tt))))))) label.chars;
        nonempty = omega arith;
        first = refl;
        last = last-prefix _ label.nonempty ∙ label.last;
        bounded = omega (arith, label.bounded);
      }

  module _ {S : Type 0} (p : Provider S) where
    name_of-again :
        (spec : Spec) → name_of l (record spec { previous_ref = name_of l spec }) ≡ name_of l spec
    unfolding name_of project_name
    name_of-again spec =
        or_else-again spec.previous_ref (project_name l spec.project spec.branch) refl

    answer-ref :
        (r : Result Text) (d d' : Deployment) (s s' : S)
        → follow (with_context "compose: apply" r) (λ out. pure d) s ≡ (ok d', s')
        → d' ≡ d
    unfolding follow with_context pure
    answer-ref (ok out) d d' s s' h = ground arith
    answer-ref (err e) d d' s s' h = ground arith

    -- Apply with the reference that an earlier Apply returned runs as that one did, on every host.
    pub apply-again :
        (spec : Spec) (s s' : S) (d : Deployment)
        → apply l p spec s ≡ (ok d, s')
        → apply l p (record spec { previous_ref = d.ref }) ≡ apply l p spec
    unfolding apply apply_command ◌>>=◌ wrapped
    apply-again spec s s' d h =
        let same = answer-ref _ _ d _ s' h in rw same (rw (name_of-again spec) refl)

    health-answer :
        (r : Result Text) (s : S) {out : Text}
        → r ≡ ok out
        → follow (with_context "compose: health check" r) (λ o. pure (status_of l o)) s
          ≡ (ok (status_of l out), s)
    unfolding follow with_context pure
    health-answer r s h = rw h refl

    -- Where the command of a health check succeeds, the deployment is reported healthy exactly if
    -- the output, which lists the running containers, has a character that is no space.
    pub health_check-healthy :
        (ref out : Text) (s : S)
        → (p.run (project_command l p ref " ps --status running -q") s).0 ≡ ok out
        → (st : Status) × ((health_check l p ref s).0 ≡ ok st) × (st.healthy ≡ not (is_blank out))
    unfolding health_check ◌>>=◌ wrapped
    health_check-healthy ref out s answer = (
      status_of l out,
      ap (λ r. r.0)
          (health-answer _ (p.run (project_command l p ref " ps --status running -q") s).1 answer),
      status_of-healthy out,
    )
