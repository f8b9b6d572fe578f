-- ===== src/Dns/Calls.antt =====
-- The calls of a host's client, before and after.
use ramify.Prelude.{String, ◌≡◌, refl, sym, subst, ap, ◌∙◌, List, keep}
use ramify.Errors.{Err}
use ramify.Provider.{Result, ok, err}
use ramify.Dns.Client.{Act, wrapped, Zone, ZoneRecord, IsFaithful, is_at}
use ramify.Dns.Triples.{Meets, Triple, wrapped-Triple}

module _ {S A : Type 0} where
  either-Meets : (J : S → Type 0) (o : Result A) (s : S) → J s → Meets (λ _. J) (λ _. J) o s
  unfolding Meets
  either-Meets J (ok a) s h = h
  either-Meets J (err e) s h = h

  of_either : (J : S → Type 0) (o : Result A) (s : S) → Meets (λ _. J) (λ _. J) o s → J s
  unfolding Meets
  of_either J (ok a) s h = h
  of_either J (err e) s h = h

  -- What holds after a call, however it ends.
  pub steady :
      {P J : S → Type 0} {m : Act S A} → ((s : S) → P s → J (m s).1) → Triple P m (λ _. J) (λ _. J)
  steady {J = J} {m = m} f = record { run = λ s p. either-Meets J (m s).0 (m s).1 (f s p) }

  pub after :
      {P J : S → Type 0} {m : Act S A} → Triple P m (λ _. J) (λ _. J) → (s : S) → P s → J (m s).1
  after {J = J} {m = m} t s p = of_either J (m s).0 (m s).1 (t.run s p)

  ok-Meets :
      (Q : A → S → Type 0) (E : Err → S → Type 0) (o : Result A) (s : S) {a : A}
      → o ≡ ok a
      → Meets Q E o s
      → Q a s
  unfolding Meets
  ok-Meets Q E o s e h = rw e at h

  -- What holds after a call that returns no error.
  pub after_ok :
      {P : S → Type 0} {Q : A → S → Type 0} {E : Err → S → Type 0} {m : Act S A}
      → Triple P m Q E
      → (s : S) {a : A} → P s
      → (m s).0 ≡ ok a
      → Q a (m s).1
  after_ok {Q = Q} {E = E} {m = m} t s p e = ok-Meets Q E (m s).0 (m s).1 e (t.run s p)

  read-Meets :
      (Q : A → S → Type 0) (J : S → Type 0) (o : Result A) (s : S)
      → ((a : A) → o ≡ ok a → Q a s)
      → J s
      → Meets Q (λ _. J) o s
  unfolding Meets
  read-Meets Q J (ok a) s q j = q a refl
  read-Meets Q J (err e) s q j = j

  pub reads :
      {P J : S → Type 0} {Q : A → S → Type 0} {m : Act S A}
      → ((s : S) (a : A) → P s → (m s).0 ≡ ok a → Q a (m s).1)
      → ((s : S) → P s → J (m s).1)
      → Triple P m Q (λ _. J)
  reads {J = J} {Q = Q} {m = m} q j = record {
    run = λ s p. read-Meets Q J (m s).0 (m s).1 (λ a e. q s a p e) (j s p);
  }

module _ {S : Type 0} {z : Zone S} (faithful : IsFaithful z) (text : String) where
  pub query-Triple :
      {J : S → Type 0} {h : List ZoneRecord} (name t : String)
      → ((s : S) → z.held s ≡ h → J s)
      → Triple
          (λ s. z.held s ≡ h)
          (wrapped text (z.query name t))
          (λ rs s. (rs ≡ keep (is_at name t) h) × (z.held s ≡ h))
          (λ _. J)
  query-Triple {h = h} name t j =
      let same : (s : S) → z.held s ≡ h → z.held (z.query name t s).1 ≡ h =
        λ s e. faithful.query_reads name t s ∙ e in
      wrapped-Triple text (λ e s x. x)
        (reads
          (λ s rs e answer.
            (faithful.query_finds name t s rs answer ∙ ap (keep (is_at name t)) e, same s e))
          (λ s e. j (z.query name t s).1 (same s e)))

  pub query_now-Triple :
      (K : List ZoneRecord → Type 0) (name t : String)
      → Triple
          (λ s. K (z.held s))
          (wrapped text (z.query name t))
          (λ rs s. (rs ≡ keep (is_at name t) (z.held s)) × K (z.held s))
          (λ e s. Unit {0})
  query_now-Triple K name t =
      wrapped-Triple text (λ e s x. x)
        (reads
          (λ s rs k answer.
            let same = faithful.query_reads name t s in
            (
              faithful.query_finds name t s rs answer ∙ ap (keep (is_at name t)) (sym same),
              subst K (sym same) k,
            ))
          (λ s k. tt))
