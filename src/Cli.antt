-- ===== src/Cli.antt =====
-- The client of the control API: cmd/ramify/client.go. The HTTP exchange and its JSON are a
-- parameter; a page comes with the header of the next offset, empty where there is none.
pub mod Completeness
use ramify.Prelude.{
  ℕ, zero, suc, String, str_eq, ◌==◌, if◌then◌else◌, Option, none, some, List, [], ◌++◌,
}
use ramify.Errors.{Err, other}
use ramify.Dns.Client.{Act, pure, raise, ◌>>=◌}
use ramify.Store.Types.{Environment}

pub record Listing : Type 0 where
  pub envs : List Environment
  pub next_offset : String

-- `get` is the request for one page, by the values of project, branch and offset, which are empty
-- where the query has none; `itoa` and `atoi` are strconv's at the values that are not negative.
pub record ApiClient (S : Type 0) : Type 0 where
  pub get : String → String → String → Act S Listing
  pub itoa : ℕ → String
  pub atoi : String → Option ℕ

abbrev pub max_list_pages : ℕ
max_list_pages = 1000

-- What the header says: there is no further page, it cannot be read, or where the next page starts.
pub data Next : Type 0 where
  finished unreadable : Next
  from : ℕ → Next

unfoldable pub parsed : Option ℕ → Next
parsed none = unreadable
parsed (some offset) = from offset

unfoldable pub next_of : (String → Option ℕ) → String → Next
unfolding parsed
next_of atoi header = if str_eq header "" then finished else parsed (atoi header)

unfoldable pub offset_param : (ℕ → String) → ℕ → String
offset_param itoa offset = if offset == 0 then "" else itoa offset

module _ {S : Type 0} where
  unfoldable pub proceed :
      Next
      → List Environment
      → (ℕ → List Environment → Act S (List Environment))
      → Act S (List Environment)
  proceed finished all more = pure all
  proceed unreadable all more = raise (other "listing environments: bad next-offset")
  proceed (from offset) all more = more offset all

  module _ (c : ApiClient S) (project branch : String) where
    -- the loop over the pages, with the number of those that are left
    unfoldable pub walk : ℕ → ℕ → List Environment → Act S (List Environment)
    unfolding proceed next_of offset_param
    walk zero offset all = raise (other "listing environments: exceeded 1000 pages")
    walk (suc pages) offset all = do
      l ← c.get project branch (offset_param c.itoa offset)
      proceed (next_of c.atoi l.next_offset) (all ++ l.envs) (λ o rest. walk pages o rest)

    unfoldable pub list_environments : Act S (List Environment)
    unfolding walk
    list_environments = walk max_list_pages 0 []
