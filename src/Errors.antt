-- ===== src/Errors.antt =====
-- Errors as the program wraps, joins and tests them: core/errors.go and
-- providers/providerapi/errors.go, with the sentinels of the store and of the providers.
pub mod Classification
use ramify.Prelude.{String, Bool, true, false, ◌||◌, Option, none, some, List, [], ◌∷◌, ◌==◌, ℕ}

pub data Sentinel : Type 0 where
  not_found conflict invalid_transition invalid_environment_action : Sentinel
  permanent_failure record_already_absent : Sentinel
  invalid_webhook_signature unhandled_webhook_event : Sentinel

-- The errors of the standard library and of other packages are `other`. A message is kept by the
-- constant text of its format.
pub data Err : Type 0 where
  sentinel : Sentinel → Err
  other : String → Err
  wrap : String → Err → Err
  terminal_error : Err → Err
  permanent_error : Err → Err
  join : Err → Err → Err

sentinel_code : Sentinel → ℕ
sentinel_code not_found = 0
sentinel_code conflict = 1
sentinel_code invalid_transition = 2
sentinel_code invalid_environment_action = 3
sentinel_code permanent_failure = 4
sentinel_code record_already_absent = 5
sentinel_code invalid_webhook_signature = 6
sentinel_code unhandled_webhook_event = 7

-- errors.Is
unfoldable pub is : Err → Sentinel → Bool
unfolding sentinel_code
is (sentinel s) t = sentinel_code s == sentinel_code t
is (other m) t = false
is (wrap m e) t = is e t
is (terminal_error e) t = is e t
is (permanent_error e) t = is e t || sentinel_code permanent_failure == sentinel_code t
is (join d e) t = is d t || is e t

-- errors.As at a terminalError
unfoldable pub as_terminal : Err → Bool
as_terminal (sentinel s) = false
as_terminal (other m) = false
as_terminal (wrap m e) = as_terminal e
as_terminal (terminal_error e) = true
as_terminal (permanent_error e) = as_terminal e
as_terminal (join d e) = as_terminal d || as_terminal e

-- A Go `error` is `Option Err`: `none` is nil.
unfoldable pub terminal : Option Err → Option Err
terminal none = none
terminal (some e) = some (terminal_error e)

unfoldable pub permanent : Option Err → Option Err
permanent none = none
permanent (some e) = some (permanent_error e)

unfoldable pub is_terminal : Option Err → Bool
unfolding is as_terminal
is_terminal none = false
is_terminal (some e) = as_terminal e || is e permanent_failure

-- errors.Join of a list that holds `e` and then `rest`
unfoldable pub join_all : Err → List Err → Err
join_all e [] = e
join_all e (d ∷ rest) = join e (join_all d rest)
