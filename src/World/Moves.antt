-- ===== src/World/Moves.antt =====
-- Actions against a reflexive and transitive relation between the worlds before and after.
use ramify.Prelude.{String, Bool, true, false, if◌then◌else◌}
use ramify.Errors.{Err}
use ramify.Provider.{Result, ok, err}
use ramify.World.{
  World, Exec, Runtime, pure, raise, fork, catch, wrapped, logged, read_clock, context_error, ◌>>=◌,
  ◌>>◌,
}

pub record Frame : Type 1 where
  pub rel : World → World → Type 0
  pub stay : (w : World) → rel w w
  pub chain : (u v w : World) → rel u v → rel v w → rel u w

pub record Moves (f : Frame) {A : Type 0} (m : Exec A) : Type 0 where
  pub at : (w : World) → f.rel w (m w).1

module _ {f : Frame} {A : Type 0} where
  pub Moves-pure : (a : A) → Moves f (pure a)
  unfolding pure
  Moves-pure a = record { at = f.stay }

  pub Moves-raise : (e : Err) → Moves f (raise {A = A} e)
  unfolding raise
  Moves-raise e = record { at = f.stay }

  pub Moves-if : (b : Bool) (m n : Exec A) → Moves f m → Moves f n → Moves f (if b then m else n)
  Moves-if true m n p q = p
  Moves-if false m n p q = q

module _ {f : Frame} where
  pub Moves-read_clock : Moves f read_clock
  unfolding read_clock
  Moves-read_clock = record { at = f.stay }

module _ {f : Frame} (x : Runtime) where
  pub Moves-context_error : Moves f (context_error x)
  unfolding context_error
  Moves-context_error = record { at = f.stay }

module _ {f : Frame} {A B : Type 0} where
  Moves-fork :
      (r : Result A) (k : A → Exec B) (g : Err → Exec B)
      → ((a : A) → Moves f (k a))
      → ((e : Err) → Moves f (g e))
      → Moves f (fork r k g)
  unfolding fork
  Moves-fork (ok a) k g p q = p a
  Moves-fork (err e) k g p q = q e

  pub Moves-catch :
      (m : Exec A) (k : A → Exec B) (g : Err → Exec B)
      → Moves f m
      → ((a : A) → Moves f (k a))
      → ((e : Err) → Moves f (g e))
      → Moves f (catch m k g)
  unfolding catch
  Moves-catch m k g pm p q = record {
    at = λ w. f.chain w (m w).1 _ (pm.at w) ((Moves-fork (m w).0 k g p q).at (m w).1);
  }

  pub Moves-bind :
      (m : Exec A) (k : A → Exec B) → Moves f m → ((a : A) → Moves f (k a)) → Moves f (m >>= k)
  unfolding ◌>>=◌
  Moves-bind m k pm p = Moves-catch m k raise pm p Moves-raise

  pub Moves-then : (m : Exec A) (n : Exec B) → Moves f m → Moves f n → Moves f (m >> n)
  unfolding ◌>>◌
  Moves-then m n pm pn = Moves-bind m (λ _. n) pm (λ _. pn)

module _ {f : Frame} {A : Type 0} where
  pub Moves-wrapped : (text : String) (m : Exec A) → Moves f m → Moves f (wrapped text m)
  unfolding wrapped
  Moves-wrapped text m pm = Moves-catch m pure _ pm Moves-pure (λ e. Moves-raise _)

  pub Moves-logged : (m : Exec A) → Moves f m → Moves f (logged m)
  unfolding logged
  Moves-logged m pm = Moves-catch m _ _ pm (λ _. Moves-pure tt) (λ _. Moves-pure tt)

pub ruleset moves_rules = (
  Moves-pure, Moves-raise, Moves-if, Moves-read_clock, Moves-context_error, Moves-catch, Moves-bind,
  Moves-then, Moves-wrapped, Moves-logged,
)
