-- ===== src/Cli/Completeness.antt =====
-- The listing of cmd/ramify/client.go against the pages of handleListEnvironments of
-- internal/api/handlers.go.
use ramify.Prelude.{
  ℕ, zero, suc, true, ◌+◌, ◌*◌, ◌≤◌, ◌<◌, ◌≡◌, ◌≢◌, refl, ap, sym, ◌∙◌, String, str_eq-false,
  Bool-cases, inl, inr, ltb, ◌==◌, if◌then◌else◌, Option, none, some, List, [], ◌∷◌, ◌++◌, length,
  take, drop, arith,
}
use ramify.Errors.{Err, other}
use ramify.Provider.{Result, ok, err}
use ramify.Dns.Client.{Act, pure, raise, ◌>>=◌, follow}
use ramify.World.{World, Runtime, Exec, pass, wrapped, catch, fork, statement, run_statement}
use ramify.Store.Types.{Environment}
use ramify.Store.Paging
use ramify.Store.Paging.{ListOptions}
use ramify.Api.{Server, Response, page}
use ramify.Api.Listing.{list_page, handle_list_environments, list_within, int_param}
use ramify.Api.Listing.Windows.{matching, list_page-window}
use ramify.Cli.{
  Listing, ApiClient, from, parsed, next_of, proceed, walk, list_environments, offset_param,
}

abbrev every : String → String → ℕ → ListOptions
every project branch offset = record {
  project = project;
  branch = branch;
  limit = 0;
  offset = offset;
}

-- The header of a page.
abbrev header : (ℕ → String) → Option ℕ → String
header itoa none = ""
header itoa (some offset) = itoa offset

-- What the client makes of a response: a page, or an error for any other status.
unfoldable pub received : (ℕ → String) → Result Response → Result Listing
received itoa (ok (page envs next)) = ok (record { envs = envs; next_offset = header itoa next })
received itoa (ok _) = err (other "api: unexpected status")
received itoa (err e) = err e

-- A client of this server, through a connection that hands requests and responses on.
unfoldable pub connected : Server → (ℕ → String) → (String → Option ℕ) → ApiClient World
unfolding received
connected s itoa atoi = record {
  get = λ project branch offset w.
      let (answer, w') = handle_list_environments atoi s project branch "" offset w in
      (received itoa answer, w');
  itoa = itoa;
  atoi = atoi;
}

module _ {A : Type 0} where
  take-nil : (n : ℕ) → take {A = A} n [] ≡ []
  take-nil zero = refl
  take-nil (suc n) = refl

  take-add : (n m : ℕ) (xs : List A) → take n xs ++ take m (drop n xs) ≡ take (n + m) xs
  take-add zero m xs = ap (λ k. take k xs) (omega arith)
  take-add (suc n) m [] = take-nil m ∙ sym (take-nil (suc n + m))
  take-add (suc n) m (x ∷ xs) =
      let one : suc n + m ≡ suc (n + m) = omega arith in rw one (ap (λ t. x ∷ t) (take-add n m xs))

  take_all : (n : ℕ) (xs : List A) → length xs ≤ n → take n xs ≡ xs
  take_all zero [] h = refl
  take_all zero (x ∷ xs) h = absurd (omega arith)
  take_all (suc n) [] h = refl
  take_all (suc n) (x ∷ xs) h = ap (λ t. x ∷ t) (take_all n xs (omega arith))

abbrev pub too_many : Err
too_many = other "listing environments: exceeded 1000 pages"

-- strconv's Itoa and Atoi, at the values that are not negative
pub record AreInverse (itoa : ℕ → String) (atoi : String → Option ℕ) : Type 0 where
  pub shows : (n : ℕ) → itoa n ≢ ""
  pub reads : (n : ℕ) → atoi (itoa n) ≡ some n

module _ (s : Server) (itoa : ℕ → String) (atoi : String → Option ℕ) where
  module _ (inverse : AreInverse itoa atoi) (up : (n : ℕ) → s.reconciler.runtime.db_fault n ≡ none)
      (project branch : String) where
    page_leaves : (opts : ListOptions) (w : World) → (list_page s opts w).1.db ≡ w.db
    unfolding list_page Paging.list_environments wrapped catch fork ramify.World.pure statement
        run_statement pass
    page_leaves opts w = rw (up w.calls) refl

    abbrev next_start : ℕ → ℕ → Option ℕ
    next_start offset total = if ltb (offset + 100) total then some (offset + 100) else none

    abbrev part : ℕ → List Environment → Listing
    part offset rows = record {
      envs = take 100 (drop offset rows);
      next_offset = header itoa (next_start offset (length rows));
    }

    abbrev client : ApiClient World
    client = connected s itoa atoi

    abbrev asked : ℕ → Act World Listing
    asked offset = client.get project branch (offset_param itoa offset)

    text_read : (n : ℕ) → int_param atoi (itoa n) ≡ some n
    unfolding int_param
    text_read n = rw (str_eq-false (inverse.shows n)) (inverse.reads n)

    offset_read : (offset : ℕ) → int_param atoi (offset_param itoa offset) ≡ some offset
    unfolding int_param offset_param
    offset_read offset = elim (Bool-cases (offset == 0)) [
      | inl start ↦ rw start (ap some (ground arith))
      | inr later ↦ rw later (text_read offset)
    ]

    handled :
        (offset : ℕ)
        → handle_list_environments atoi s project branch "" (offset_param itoa offset)
          ≡ list_page s (every project branch offset)
    unfolding handle_list_environments list_within int_param
    handled offset = ap (λ start. list_within s project branch (some 0) start) (offset_read offset)

    got :
        (offset : ℕ) (w : World) (rows : List Environment)
        → matching (every project branch 0) w.db.environments ≡ rows
        → (asked offset w).0 ≡ ok (part offset rows)
    unfolding connected received ramify.Store.Paging.is_wanted
    got offset w rows same =
        ap (λ answer. (received itoa (answer w).0)) (handled offset)
        ∙ ap (received itoa) (list_page-window s (every project branch offset) w (up w.calls))
        ∙ ap (λ rs. ok (part offset rs)) same

    got_leaves : (offset : ℕ) (w : World) → (asked offset w).1.db ≡ w.db
    unfolding connected
    got_leaves offset w =
        ap (λ answer. (answer w).1.db) (handled offset)
        ∙ page_leaves (every project branch offset) w

    next-from : (n : ℕ) → next_of atoi (itoa n) ≡ from n
    unfolding next_of parsed
    next-from n = rw (str_eq-false (inverse.shows n)) (rw (inverse.reads n) refl)

    stepped :
        (offset : ℕ) (w : World) (rows : List Environment)
        → matching (every project branch 0) w.db.environments ≡ rows
        → (f : Listing → Act World (List Environment))
        → (asked offset >>= f) w ≡ f (part offset rows) (asked offset w).1
    unfolding ◌>>=◌ follow
    stepped offset w rows same f = ap (λ r. follow r f (asked offset w).1) (got offset w rows same)

    further :
        (pages offset : ℕ) (w : World) (rows : List Environment)
        → matching (every project branch 0) w.db.environments ≡ rows
        → ltb (offset + 100) (length rows) ≡ true
        → walk client project branch (suc pages) offset (take offset rows) w
          ≡ walk client project branch pages
              (offset + 100)
              (take (offset + 100) rows)
              (asked offset w).1
    unfolding walk proceed connected
    further pages offset w rows same more =
        rw (stepped offset w rows same _)
          (rw more (rw (next-from (offset + 100)) (rw (take-add offset 100 rows) refl)))

    still :
        (offset : ℕ) (w : World) (rows : List Environment)
        → matching (every project branch 0) w.db.environments ≡ rows
        → matching (every project branch 0) (asked offset w).1.db.environments ≡ rows
    still offset w rows same =
        ap (λ db. matching (every project branch 0) db.environments) (got_leaves offset w) ∙ same

    -- The pages from an offset on complete the rows before it.
    walked :
        (pages offset : ℕ) (w : World) (rows : List Environment)
        → matching (every project branch 0) w.db.environments ≡ rows
        → length rows ≤ offset + 100 * pages
        → 0 < pages
        → (walk client project branch pages offset (take offset rows) w).0 ≡ ok rows
    unfolding walk proceed connected pure
    walked zero offset w rows same enough some_left = absurd (omega arith)
    walked (suc pages) offset w rows same enough some_left =
        let rest = walked pages (offset + 100) (asked offset w).1 rows (still offset w rows same) in
        elim (Bool-cases (ltb (offset + 100) (length rows))) [
          | inl more ↦
              rw (further pages offset w rows same more) (rest (omega arith) (ground arith))
          | inr last ↦ rw (stepped offset w rows same _) (
              rw last
                (rw (take-add offset 100 rows ∙ take_all (offset + 100) rows (ground arith)) refl))
        ]

    -- More rows than the pages hold are an error.
    walked_out :
        (pages offset : ℕ) (w : World) (rows : List Environment)
        → matching (every project branch 0) w.db.environments ≡ rows
        → offset + 100 * pages < length rows
        → (walk client project branch pages offset (take offset rows) w).0 ≡ err too_many
    unfolding walk raise
    walked_out zero offset w rows same beyond = refl
    walked_out (suc pages) offset w rows same beyond =
        rw (further pages offset w rows same (ground arith)) (
          walked_out pages (offset + 100) (asked offset w).1 rows (still offset w rows same)
            (omega arith))

-- Where the statements of the database do not fail and the offset of a header reads back, the
-- command's listing over the server's pages is every row that the project and the branch match, in
-- the server's order, up to 100000 rows; more rows than that are the error of too many pages.
pub list_environments_complete :
    (s : Server) (itoa : ℕ → String) (atoi : String → Option ℕ)
    → AreInverse itoa atoi
    → ((n : ℕ) → s.reconciler.runtime.db_fault n ≡ none)
    → (project branch : String) (w : World)
    → (list_environments (connected s itoa atoi) project branch w).0 ≡ (
        let rows = matching (every project branch 0) w.db.environments in
        if ltb 100000 (length rows) then err too_many else ok rows)
unfolding list_environments
list_environments_complete s itoa atoi inverse up project branch w =
    let rows = matching (every project branch 0) w.db.environments in
    elim (Bool-cases (ltb 100000 (length rows))) [
      | inl beyond ↦
          rw beyond
            (walked_out s itoa atoi inverse up project branch 1000 0 w rows refl (ground arith))
      | inr within ↦ rw within (
          walked s itoa atoi inverse up project branch 1000 0 w rows refl (ground arith)
            (omega arith))
    ]
