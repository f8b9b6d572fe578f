-- ===== src/Api/Listing/Windows.antt =====
-- The pages of handleListEnvironments (internal/api/handlers.go).
use ramify.Prelude.{
  ℕ, zero, suc, ◌+◌, ◌-◌, ◌≤◌, ◌≡◌, refl, ap, none, some, List, [], ◌∷◌, length, take, drop, keep,
  min, max, ltb, ◌==◌, if◌then◌else◌, arith, Bool-cases, inl, inr, true, false,
}
use ramify.Provider.{ok}
use ramify.World.{World, Runtime, statement, wrapped, catch, pure}
use ramify.Store.Types.{Environment}
use ramify.Store.Tables.{order_by, older}
use ramify.Store.Paging.{
  ListOptions, is_wanted, normalized, select_page, list_environments, default_list_limit,
  max_list_limit,
}
use ramify.World.Steps.{catch_ok}
use ramify.Api.{Server, Response, page, failure}
use ramify.Api.Listing.{page_limit, respond_page, list_page}

module _ {A : Type 0} where
  length-take : (n : ℕ) (xs : List A) → length (take n xs) ≡ min n (length xs)
  length-take zero xs = omega arith
  length-take (suc n) [] = omega arith
  length-take (suc n) (x ∷ xs) = omega (arith, length-take n xs)

  length-drop : (n : ℕ) (xs : List A) → length (drop n xs) ≡ length xs - n
  length-drop zero xs = omega arith
  length-drop (suc n) [] = omega arith
  length-drop (suc n) (x ∷ xs) = omega (arith, length-drop n xs)

  take-take : (n : ℕ) (xs : List A) → take n (take (suc n) xs) ≡ take n xs
  take-take zero xs = refl
  take-take (suc n) [] = refl
  take-take (suc n) (x ∷ xs) = ap (λ t. x ∷ t) (take-take n xs)

  take_whole : (n : ℕ) (xs : List A) → length xs ≤ n → take (suc n) xs ≡ take n xs
  take_whole zero [] h = refl
  take_whole zero (x ∷ xs) h = absurd (omega arith)
  take_whole (suc n) [] h = refl
  take_whole (suc n) (x ∷ xs) h = ap (λ t. x ∷ t) (take_whole n xs (omega arith))

-- the rows of a page, out of those that the client asks for
abbrev pub page_size : ℕ → ℕ
page_size limit = if limit == 0 then default_list_limit else min (max limit 1) max_list_limit

abbrev pub matching : ListOptions → List Environment → List Environment
matching opts rows = order_by older (keep (is_wanted opts) rows)

-- The page at an offset, and the offset of the next one where rows are left.
abbrev pub window : ℕ → ℕ → List Environment → Response
window size offset rows =
    page (take size (drop offset rows))
      (if ltb (offset + size) (length rows) then some (offset + size) else none)

respond-window :
    (opts : ListOptions) (size : ℕ) (rows : List Environment)
    → respond_page (record opts { limit = suc size }) (take (suc size) (drop opts.offset rows))
      ≡ window size opts.offset rows
unfolding respond_page
respond-window opts size rows =
    let rest = drop opts.offset rows in
    let taken = length-take (suc size) rest in
    let left = length-drop opts.offset rows in
    elim (Bool-cases (ltb (opts.offset + size) (length rows))) [
      | inl more ↦
          let full : (length (take (suc size) rest) == suc size) ≡ true =
            ground (arith, taken, left) in
          let one : suc size - 1 ≡ size = omega arith in
          rw full
            (rw more (rw one (ap (λ t. page t (some (opts.offset + size))) (take-take size rest))))
      | inr last ↦
          let short : (length (take (suc size) rest) == suc size) ≡ false =
            ground (arith, taken, left) in
          rw short (rw last (ap (λ t. page t none) (take_whole size rest (ground (arith, left)))))
    ]

-- the store does not clamp the row beyond the page
asked_limit :
    (opts : ListOptions)
    → (normalized (record opts { limit = page_limit opts.limit })).limit
      ≡ suc (page_size opts.limit)
unfolding page_limit normalized
asked_limit opts = ground arith

page_limit_lem : (limit : ℕ) → page_limit limit ≡ suc (page_size limit)
unfolding page_limit
page_limit_lem limit = ground arith

asked_page :
    (opts : ListOptions) (rows : List Environment)
    → select_page (record opts { limit = page_limit opts.limit }) rows
      ≡ take (suc (page_size opts.limit)) (drop opts.offset (matching opts rows))
unfolding select_page is_wanted
asked_page opts rows = ap (λ n. take n (drop opts.offset (matching opts rows))) (asked_limit opts)

listed :
    (x : Runtime) (opts : ListOptions) (w : World)
    → x.db_fault w.calls ≡ none
    → (list_environments x opts w).0 ≡ ok (select_page opts w.db.environments)
unfolding list_environments wrapped statement catch pure
listed x opts w up = rw up refl

module _ (s : Server) (opts : ListOptions) (w : World) where
  -- Provided that the database answers, the response is the window at the offset of the rows that
  -- match the filters, in the order of their creation: as many as the limit allows (100 by
  -- default, between 1 and 500), with the offset of the next page exactly where rows are left.
  pub list_page-window :
      s.reconciler.runtime.db_fault w.calls ≡ none
      → (list_page s opts w).0
        ≡ ok (window (page_size opts.limit) opts.offset (matching opts w.db.environments))
  unfolding list_page pure
  list_page-window up =
      let asked : ListOptions = record opts { limit = page_limit opts.limit } in
      rw
        (catch_ok (list_environments s.reconciler.runtime asked)
          (λ envs. pure (respond_page asked envs)) (λ e. pure (failure 500 "listing environments"))
          w (listed s.reconciler.runtime asked w up))
        (ap ok (
          rw (asked_page opts w.db.environments) (
            rw (page_limit_lem opts.limit)
              (respond-window opts (page_size opts.limit) (matching opts w.db.environments)))))
