-- ===== src/Errors/Classification.antt =====
-- Which errors end the retries of an event (core/errors.go).
use ramify.Prelude.{String, ◌≡◌, refl, true, ◌||◌, some, List, [], ◌∷◌, arith, any}
use ramify.Errors.{Err, wrap, terminal, permanent, is_terminal, join_all}

abbrev pub ends_retries : Err → ramify.Prelude.Bool
ends_retries e = is_terminal (some e)

-- Wrapping an error with context does not change whether it ends the retries.
pub is_terminal-wrap : (m : String) (e : Err) → ends_retries (wrap m e) ≡ ends_retries e
unfolding is_terminal
is_terminal-wrap m e = refl

is_terminal-pair :
    (d e : Err) → ends_retries (ramify.Errors.join d e) ≡ (ends_retries d || ends_retries e)
unfolding is_terminal
is_terminal-pair d e = ground arith

-- A joined error ends the retries exactly when one of its parts does.
is_terminal-join_all :
    (e : Err) (rest : List Err) → ends_retries (join_all e rest) ≡ any ends_retries (e ∷ rest)
unfolding join_all
is_terminal-join_all e [] = ground arith
is_terminal-join_all e (d ∷ rest) =
    ground (arith, is_terminal-pair e (join_all d rest), is_terminal-join_all d rest)

pub is_terminal-terminal : (e : Err) → is_terminal (terminal (some e)) ≡ true
unfolding is_terminal terminal
is_terminal-terminal e = refl

pub is_terminal-permanent : (e : Err) → is_terminal (permanent (some e)) ≡ true
unfolding is_terminal permanent
is_terminal-permanent e = ground arith
