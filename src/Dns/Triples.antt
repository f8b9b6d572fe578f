-- ===== src/Dns/Triples.antt =====
-- What holds before and after the actions on the state behind a DNS provider.
use ramify.Prelude.{String}
use ramify.Errors.{Err, wrap}
use ramify.Provider.{Result, ok, err}
use ramify.Dns.Client.{Act, pure, raise, wrapped, with_context, follow, ◌>>=◌, ◌>>◌}

module _ {S A : Type 0} where
  -- `Q` of what is returned, `E` of an error, and either of the state.
  unfoldable pub Meets : (A → S → Type 0) → (Err → S → Type 0) → Result A → S → Type 0
  Meets Q E (ok a) s = Q a s
  Meets Q E (err e) s = E e s

  pub record Triple (P : S → Type 0) (m : Act S A) (Q : A → S → Type 0) (E : Err → S → Type 0)
      : Type 0 where
    pub run : (s : S) → P s → Meets Q E (m s).0 (m s).1

  pub pure-Triple : (a : A) {Q : A → S → Type 0} {E : Err → S → Type 0} → Triple (Q a) (pure a) Q E
  unfolding Meets pure
  pure-Triple a = record { run = λ s p. p }

  pub raise-Triple :
      (e : Err) {Q : A → S → Type 0} {E : Err → S → Type 0} → Triple (E e) (raise e) Q E
  unfolding Meets raise
  raise-Triple e = record { run = λ s p. p }

  -- What is known of the world besides the state is a hypothesis.
  pub given :
      {F : Type 0} {P : S → Type 0} {Q : A → S → Type 0} {E : Err → S → Type 0} {m : Act S A}
      → (F → Triple P m Q E)
      → Triple (λ s. F × P s) m Q E
  given t = record { run = λ s p. (t p.0).run s p.1 }

  weaken-Meets :
      (Q Q' : A → S → Type 0) (E E' : Err → S → Type 0)
      → ((a : A) (s : S) → Q' a s → Q a s)
      → ((e : Err) (s : S) → E' e s → E e s)
      → (o : Result A) (s : S) → Meets Q' E' o s
      → Meets Q E o s
  unfolding Meets
  weaken-Meets Q Q' E E' q f (ok a) s h = q a s h
  weaken-Meets Q Q' E E' q f (err e) s h = f e s h

  pub weaken :
      {P P' : S → Type 0} {Q Q' : A → S → Type 0} {E E' : Err → S → Type 0} {m : Act S A}
      → Triple P' m Q' E'
      → ((s : S) → P s → P' s)
      → ((a : A) (s : S) → Q' a s → Q a s)
      → ((e : Err) (s : S) → E' e s → E e s)
      → Triple P m Q E
  weaken {Q = Q} {Q' = Q'} {E = E} {E' = E'} {m = m} t f q e = record {
    run = λ s p. weaken-Meets Q Q' E E' q e (m s).0 (m s).1 (t.run s (f s p));
  }

  with_context-Meets :
      (Q : A → S → Type 0) (E E' : Err → S → Type 0) (text : String)
      → ((e : Err) (s : S) → E' e s → E (wrap text e) s)
      → (o : Result A) (s : S) → Meets Q E' o s
      → Meets Q E (with_context text o) s
  unfolding Meets with_context
  with_context-Meets Q E E' text f (ok a) s h = h
  with_context-Meets Q E E' text f (err e) s h = f e s h

  pub wrapped-Triple :
      {P : S → Type 0} {Q : A → S → Type 0} {E E' : Err → S → Type 0} {m : Act S A} (text : String)
      → ((e : Err) (s : S) → E' e s → E (wrap text e) s)
      → Triple P m Q E'
      → Triple P (wrapped text m) Q E
  unfolding wrapped
  wrapped-Triple {Q = Q} {E = E} {E' = E'} {m = m} text f t = record {
    run = λ s p. with_context-Meets Q E E' text f (m s).0 (m s).1 (t.run s p);
  }

module _ {S A B : Type 0} where
  follow-Meets :
      (f : A → Act S B) (Q : A → S → Type 0) (R : B → S → Type 0) (E : Err → S → Type 0)
      → ((a : A) → Triple (Q a) (f a) R E)
      → (o : Result A) (s : S) → Meets Q E o s
      → Meets R E (follow o f s).0 (follow o f s).1
  unfolding Meets follow
  follow-Meets f Q R E u (ok a) s h = (u a).run s h
  follow-Meets f Q R E u (err e) s h = h

  pub bind :
      {P : S → Type 0} {Q : A → S → Type 0} {R : B → S → Type 0} {E : Err → S → Type 0}
      {m : Act S A} {f : A → Act S B}
      → Triple P m Q E
      → ((a : A) → Triple (Q a) (f a) R E)
      → Triple P (m >>= f) R E
  unfolding ◌>>=◌
  bind {Q = Q} {R = R} {E = E} {m = m} {f = f} t u = record {
    run = λ s p. follow-Meets f Q R E u (m s).0 (m s).1 (t.run s p);
  }

  pub sequence :
      {P : S → Type 0} {Q : A → S → Type 0} {R : B → S → Type 0} {E : Err → S → Type 0}
      {m : Act S A} {n : Act S B}
      → Triple P m Q E
      → ((a : A) → Triple (Q a) n R E)
      → Triple P (m >> n) R E
  unfolding ◌>>◌
  sequence t u = bind t u
