-- ===== src/Api/Listing.antt =====
-- GET /environments (handleListEnvironments and intParam of internal/api/handlers.go).
pub mod Windows
use ramify.Prelude.{
  ℕ, zero, suc, ◌+◌, String, Option, none, some, List, length, take, min, max, ◌-◌, ◌==◌, str_eq,
  if◌then◌else◌,
}
use ramify.World.{Exec, pure, catch}
use ramify.Store.Types.{Environment}
use ramify.Store.Paging.{ListOptions, list_environments, default_list_limit, max_list_limit}
use ramify.Api.{Server, Response, failure, page}

-- `atoi` is strconv.Atoi at the values that are not negative, `none` elsewhere.
unfoldable pub int_param : (String → Option ℕ) → String → Option ℕ
int_param atoi raw = if str_eq raw "" then some 0 else atoi raw

-- one row more than the page
unfoldable pub page_limit : ℕ → ℕ
page_limit limit =
    if limit == 0 then default_list_limit + 1 else min (max limit 1) max_list_limit + 1

-- the response for the rows that the store gave for `asked`
unfoldable pub respond_page : ListOptions → List Environment → Response
respond_page asked envs =
    if length envs == asked.limit
    then page (take (asked.limit - 1) envs) (some (asked.offset + (asked.limit - 1)))
    else page envs none

unfoldable pub list_page : Server → ListOptions → Exec Response
unfolding page_limit respond_page
list_page s opts =
    let asked = record opts { limit = page_limit opts.limit } in
    catch (list_environments s.reconciler.runtime asked) (λ envs. pure (respond_page asked envs))
      (λ e. pure (failure 500 "listing environments"))

unfoldable pub list_within : Server → String → String → Option ℕ → Option ℕ → Exec Response
unfolding list_page
list_within s project branch none offset = pure (failure 400 "invalid limit")
list_within s project branch (some limit) none = pure (failure 400 "invalid offset")
list_within s project branch (some limit) (some offset) =
    list_page s (record { project = project; branch = branch; limit = limit; offset = offset })

unfoldable pub handle_list_environments :
    (String → Option ℕ) → Server → String → String → String → String → Exec Response
unfolding int_param list_within
handle_list_environments atoi s project branch limit offset =
    list_within s project branch (int_param atoi limit) (int_param atoi offset)
