-- ===== src/Deploy/Compose/Commands.antt =====
-- How the host's shell reads the commands of providers/deploy/compose/compose.go.
use ramify.Prelude.{String, ◌≡◌, refl, some, List, [], ◌∷◌, ◌++◌}
use ramify.Provider.{Result, ok, err}
use ramify.Dns.Client.{Act, wrapped, ◌>>=◌, pure, follow, with_context}
use ramify.Dns.Texts.{Text}
use ramify.World.{succeeded}
use ramify.Deploy.Shell.{Token, word, operator, tokens_of, scan}
use ramify.Prelude.Codes.{chars}
use ramify.Deploy.Compose.{
  Spec, Library, Provider, name_of, apply_command, project_command, concat, apply, sleep, wake,
  destroy, health_check,
}
use ramify.Deploy.Compose.Quoting.{quoted_in_word, quoted_between}

abbrev pub words : List String → List Token
words [] = []
words (s ∷ rest) = word (chars s) ∷ words rest

abbrev pub and_then : List Token
and_then = operator 38 ∷ operator 38 ∷ []

module _ {S : Type 0} (p : Provider S) where
  -- The action sends one command to the host, which its shell reads as these tokens; the action
  -- succeeds exactly if the command does, and leaves the host as the command does.
  pub record Sends {A : Type 0} (m : Act S A) (tokens : List Token) : Type 0 where
    pub command : Text
    pub is_read : tokens_of command ≡ some tokens
    pub changes : (s : S) → (m s).1 ≡ (p.run command s).1
    pub succeeds : (s : S) → succeeded (m s).0 ≡ succeeded (p.run command s).0

  -- The words of `docker compose -p REF -f FILE ...`
  abbrev pub in_project : Text → List String → List Token
  in_project ref rest =
      words ("docker" ∷ "compose" ∷ "-p" ∷ [])
      ++ word ref ∷ word (chars "-f") ∷ word p.compose_file ∷ words rest

  module _ {A : Type 0} (f : Text → A) (text : String) where
    then-changes :
        (r : Result Text) (s : S) → (follow (with_context text r) (λ out. pure (f out)) s).1 ≡ s
    unfolding follow with_context pure
    then-changes (ok out) s = refl
    then-changes (err e) s = refl

    then-succeeds :
        (r : Result Text) (s : S)
        → succeeded (follow (with_context text r) (λ out. pure (f out)) s).0 ≡ succeeded r
    unfolding follow with_context pure
    then-succeeds (ok out) s = refl
    then-succeeds (err e) s = refl

    pub Sends-run :
        (command : Text) {tokens : List Token}
        → tokens_of command ≡ some tokens
        → Sends (do out ← wrapped text (p.run command); pure (f out)) tokens
    unfolding ◌>>=◌ wrapped
    Sends-run command h = record {
      command = command;
      is_read = h;
      changes = λ s. then-changes (p.run command s).0 (p.run command s).1;
      succeeds = λ s. then-succeeds (p.run command s).0 (p.run command s).1;
    }

  context-succeeds :
      (text : String) (r : Result Text) → succeeded (with_context text r) ≡ succeeded r
  unfolding with_context
  context-succeeds text (ok out) = refl
  context-succeeds text (err e) = refl

module _ (l : Library) {S : Type 0} (p : Provider S) where
  -- Apply sends one command, in which the shell reads the artifact and the project name as the values
  -- of two variables and the Compose file as one word, whatever characters they hold.
  pub apply-Sends :
      (spec : Spec)
      → Sends p (apply l p spec) (
          word (chars "IMAGE_TAG=" ++ spec.artifact_ref)
          ∷ word (chars "COMPOSE_PROJECT_NAME=" ++ name_of l spec)
          ∷ (words ("docker" ∷ "compose" ∷ "-f" ∷ [])
              ++ word p.compose_file ∷ words ("up" ∷ "-d" ∷ [])))
  unfolding tokens_of apply apply_command concat scan
  apply-Sends spec = Sends-run p _ _ _ (
      rw
        (
          quoted_in_word spec.artifact_ref,
          quoted_in_word (name_of l spec),
          quoted_between p.compose_file,
        )
        refl)

  -- Sleep, Wake, Destroy and HealthCheck each send one command, in which the shell reads the reference
  -- and the Compose file as one word each, whatever characters they hold.
  pub lifecycle-Sends :
      (ref : Text)
      → Sends p (sleep l p ref) (in_project p ref ("stop" ∷ []))
        × Sends p (wake l p ref) (in_project p ref ("start" ∷ []))
        × Sends p
            (destroy l p ref)
            (in_project p ref ("down" ∷ "--volumes" ∷ "--remove-orphans" ∷ []))
        × Sends p
            (health_check l p ref)
            (in_project p ref ("ps" ∷ "--status" ∷ "running" ∷ "-q" ∷ []))
  unfolding tokens_of sleep wake destroy health_check project_command concat scan
  lifecycle-Sends ref =
      let file = quoted_between p.compose_file in
      (
        Sends-run p _ _ _ (rw (quoted_between ref, file) refl),
        Sends-run p _ _ _ (rw (quoted_between ref, file) refl),
        Sends-run p _ _ _ (rw (quoted_between ref, file) refl),
        Sends-run p _ _ _ (rw (quoted_between ref, file) refl),
      )
