-- ===== src/Dns/Client.antt =====
-- What the DNS providers use of the libraries of their hosts (github.com/cloudflare/cloudflare-go,
-- github.com/digitalocean/godo), and actions on the state behind them. A query returns all pages;
-- the time to live of a record is left out.
use ramify.Prelude.{String, Bool, ◌&&◌, ◌≡◌, ◌≢◌, List, keep, str_eq}
use ramify.Errors.{Err, wrap}
use ramify.Provider.{Result, ok, err}
use ramify.Prelude.Membership.{In}

-- `S` is whatever the calls may change.
abbrev pub Act : Type 0 → Type 0 → Type 0
Act S A = S → Result A × S

unfoldable pub with_context : {A : Type 0} → String → Result A → Result A
with_context text (ok a) = ok a
with_context text (err e) = err (wrap text e)

module _ {S A : Type 0} where
  unfoldable pub pure : A → Act S A
  pure a s = (ok a, s)

  unfoldable pub raise : Err → Act S A
  raise e s = (err e, s)

  -- `fmt.Errorf(text + ": %w", err)`
  unfoldable pub wrapped : String → Act S A → Act S A
  unfolding with_context
  wrapped text m s = let (r, s') = m s in (with_context text r, s')

module _ {S A B : Type 0} where
  unfoldable pub follow : Result A → (A → Act S B) → Act S B
  follow (ok a) f s = f a s
  follow (err e) f s = (err e, s)

  infixl 10 ◌>>=◌ ◌>>◌
  unfoldable pub ◌>>=◌ : Act S A → (A → Act S B) → Act S B
  unfolding follow
  ◌>>=◌ m f s = let (r, s') = m s in follow r f s'

  unfoldable pub ◌>>◌ : Act S A → Act S B → Act S B
  unfolding ◌>>=◌
  m >> n = m >>= λ _. n

pub record ZoneRecord : Type 0 where
  pub id : String
  pub record_type : String
  pub name : String
  pub content : String

-- One zone at a host: `held` is what it holds, `query` and `listing` read it.
pub record Zone (S : Type 0) : Type 0 where
  pub held : S → List ZoneRecord
  pub query : String → String → Act S (List ZoneRecord)
  pub listing : Act S (List ZoneRecord)
  pub create : String → String → String → Act S (Unit {0})
  pub update : String → String → String → String → Act S (Unit {0})
  pub delete : String → Act S (Unit {0})

unfoldable pub is_at : String → String → ZoneRecord → Bool
is_at name record_type r = str_eq r.name name && str_eq r.record_type record_type

-- A record with these contents, under any identifier.
pub record Exists (rs : List ZoneRecord) (record_type name content : String) : Type 0 where
  pub found : ZoneRecord
  pub is_held : In found rs
  pub has_type : found.record_type ≡ record_type
  pub has_name : found.name ≡ name
  pub holds : found.content ≡ content

-- What the hosts document of these calls. A call that fails may have had its effect or not.
pub record IsFaithful {S : Type 0} (z : Zone S) : Type 0 where
  pub query_finds :
      (name t : String) (s : S) (rs : List ZoneRecord)
      → (z.query name t s).0 ≡ ok rs
      → rs ≡ keep (is_at name t) (z.held s)
  pub query_reads : (name t : String) (s : S) → z.held (z.query name t s).1 ≡ z.held s
  pub listing_finds : (s : S) (rs : List ZoneRecord) → (z.listing s).0 ≡ ok rs → rs ≡ z.held s
  pub listing_reads : (s : S) → z.held (z.listing s).1 ≡ z.held s
  pub create_keeps :
      (t name content : String) (s : S) (r : ZoneRecord)
      → In r (z.held s)
      → In r (z.held (z.create t name content s).1)
  pub create_adds :
      (t name content : String) (s : S) (u : Unit {0})
      → (z.create t name content s).0 ≡ ok u
      → Exists (z.held (z.create t name content s).1) t name content
  pub update_keeps :
      (id t name content : String) (s : S) (r : ZoneRecord)
      → r.id ≢ id
      → In r (z.held s)
      → In r (z.held (z.update id t name content s).1)
  pub update_sets :
      (id t name content : String) (s : S) (u : Unit {0})
      → (z.update id t name content s).0 ≡ ok u
      → Exists (z.held (z.update id t name content s).1) t name content
  pub delete_keeps :
      (id : String) (s : S) (r : ZoneRecord)
      → r.id ≢ id
      → In r (z.held s)
      → In r (z.held (z.delete id s).1)
  pub delete_only :
      (id : String) (s : S) (r : ZoneRecord) → In r (z.held (z.delete id s).1) → In r (z.held s)
  pub delete_removes :
      (id : String) (s : S) (r : ZoneRecord) (u : Unit {0})
      → (z.delete id s).0 ≡ ok u
      → In r (z.held (z.delete id s).1)
      → r.id ≢ id

unfoldable pub has_content : String → ZoneRecord → Bool
has_content text r = str_eq r.content text
