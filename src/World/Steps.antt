-- ===== src/World/Steps.antt =====
-- How a statement and a sequence run, as equations.
use ramify.Prelude.{ℕ, ◌≡◌, refl, none, some, ◌⊎◌, inl, inr, ◌∷◌}
use ramify.Errors.{Err}
use ramify.Provider.{Result, ok, err}
use ramify.Store.Types.{Db}
use ramify.World.{World, Exec, Runtime, catch, statement, pass, ◌>>=◌}

module _ (x : Runtime) {A : Type 0} (query : ℕ → Db → Result A × Db) (w : World) where
  pub statement_up :
      x.db_fault w.calls ≡ none
      → statement x query w ≡ (
        (query (pass x w).now w.db).0,
        record (pass x w) { db = (query (pass x w).now w.db).1; past = w.db ∷ w.past },
      )
  unfolding statement
  statement_up h = rw h refl

  pub statement_down :
      {e : Err} → x.db_fault w.calls ≡ some e → statement x query w ≡ (err e, pass x w)
  unfolding statement
  statement_down h = rw h refl

module _ {A B : Type 0} (m : Exec A) (f : A → Exec B) (g : Err → Exec B) (w : World) where
  pub catch_ok : {a : A} → (m w).0 ≡ ok a → catch m f g w ≡ f a (m w).1
  unfolding catch
  catch_ok h = rw h refl

  pub catch_err : {e : Err} → (m w).0 ≡ err e → catch m f g w ≡ g e (m w).1
  unfolding catch
  catch_err h = rw h refl

module _ {A B : Type 0} (m : Exec A) (f : A → Exec B) (w : World) where
  pub bind_ok : {a : A} → (m w).0 ≡ ok a → (m >>= f) w ≡ f a (m w).1
  unfolding ◌>>=◌
  bind_ok h = rw h refl

  pub bind_err : {e : Err} → (m w).0 ≡ err e → (m >>= f) w ≡ (err e, (m w).1)
  unfolding ◌>>=◌
  bind_err h = rw h refl

pub Result-cases : {A : Type 0} (o : Result A) → ((a : A) × (o ≡ ok a)) ⊎ ((e : Err) × (o ≡ err e))
Result-cases (ok a) = inl (a, refl)
Result-cases (err e) = inr (e, refl)
