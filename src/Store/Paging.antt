-- ===== src/Store/Paging.antt =====
-- ListOptions and ListEnvironments (internal/store/store.go, internal/store/sqlite.go).
use ramify.Prelude.{
  ℕ, String, Bool, ◌&&◌, ◌||◌, List, take, drop, keep, ltb, ◌==◌, str_eq, if◌then◌else◌,
}
use ramify.Provider.{ok}
use ramify.World.{Exec, Runtime, statement, wrapped}
use ramify.Store.Types.{Environment}
use ramify.Store.Tables.{order_by, older}

abbrev pub default_list_limit : ℕ
default_list_limit = 100

abbrev pub max_list_limit : ℕ
max_list_limit = 500

-- The limit and the offset of the callers are never negative: `int_param` refuses such values.
pub record ListOptions : Type 0 where
  pub project : String
  pub branch : String
  pub limit : ℕ
  pub offset : ℕ

abbrev max_query_limit : ℕ
max_query_limit = 501

unfoldable pub normalized : ListOptions → ListOptions
normalized o = record o {
  limit =
      if o.limit == 0
      then default_list_limit
      else if ltb max_query_limit o.limit
      then max_query_limit
      else o.limit;
}

-- the WHERE clause, one test for each option that is not empty
unfoldable pub is_wanted : ListOptions → Environment → Bool
is_wanted o row =
    (str_eq o.project "" || str_eq row.project o.project)
    && (str_eq o.branch "" || str_eq row.branch o.branch)

unfoldable pub select_page : ListOptions → List Environment → List Environment
unfolding normalized is_wanted
select_page opts rows =
    let o = normalized opts in
    take o.limit (drop o.offset (order_by older (keep (is_wanted o) rows)))

unfoldable pub list_environments : Runtime → ListOptions → Exec (List Environment)
unfolding select_page
list_environments x opts =
    wrapped "listing environments"
      (statement x (λ now d. (ok (select_page opts d.environments), d)))
