-- ===== src/Dns/Cloudflare/Ownership.antt =====
-- What the Cloudflare provider may change of a zone.
use ramify.Prelude.{
  String, Bool, true, false, ◌≡◌, ◌≢◌, refl, sym, ap, ◌∙◌, ◌⊎◌, inl, inr, List, [], ◌∷◌, any, keep,
  str_eq, Bool-cases, clash, subst,
}
use ramify.Provider.{DnsRecord}
use ramify.Dns.Calls.{steady, after, query-Triple}
use ramify.Dns.Client.{Act, wrapped, ZoneRecord, Zone, IsFaithful, has_content, is_at}
use ramify.Prelude.Membership.{In, In-keep}
use ramify.Dns.Triples.{
  Triple, pure-Triple, raise-Triple, weaken, given, wrapped-Triple, bind, sequence,
}
use ramify.Dns.Cloudflare.{
  ensure_text, put_single, ensure_single_record, place, mark, ensure_owned, ensure_in,
}

-- Whether a TXT record at the name of `rec` holds its tag.
unfoldable pub is_marked : DnsRecord → List ZoneRecord → Bool
is_marked rec h = any (has_content rec.ownership_tag) (keep (is_at rec.name "TXT") h)

-- No two records of a zone share an identifier.
unfoldable pub IsKeyed : List ZoneRecord → Type 0
IsKeyed h = (a b : ZoneRecord) → In a h → In b h → a.id ≡ b.id → a ≡ b

-- A record that `rec` does not stand for: elsewhere, or at a name without the tag.
unfoldable pub IsForeign : DnsRecord → List ZoneRecord → ZoneRecord → Type 0
IsForeign rec h r = (is_at rec.name rec.record_type r ≡ false) ⊎ (is_marked rec h ≡ false)

module _ {S : Type 0} (z : Zone S) (faithful : IsFaithful z) (r : ZoneRecord) where
  Holds : S → Type 0
  Holds s = In r (z.held s)

  abbrev Steady : {A : Type 0} → Act S A → Type 0
  Steady m = Triple Holds m (λ _. Holds) (λ _. Holds)

  stay : {A : Type 0} (m : Act S A) → ((s : S) → Holds s → Holds (m s).1) → Steady m
  stay m f = steady f

  create-Steady : (text t name content : String) → Steady (wrapped text (z.create t name content))
  unfolding Holds
  create-Steady text t name content =
      wrapped-Triple text (λ e s x. x)
        (stay (z.create t name content) (λ s h. faithful.create_keeps t name content s r h))

  update-Steady :
      (text id t name content : String)
      → r.id ≢ id
      → Steady (wrapped text (z.update id t name content))
  unfolding Holds
  update-Steady text id t name content other =
      wrapped-Triple text (λ e s x. x)
        (stay (z.update id t name content)
          (λ s h. faithful.update_keeps id t name content s r other h))

  query-Steady : (text name t : String) → Steady (wrapped text (z.query name t))
  unfolding Holds
  query-Steady text name t =
      wrapped-Triple text (λ e s x. x)
        (stay (z.query name t) (λ s h. rw (faithful.query_reads name t s) h))

  put_text-Steady :
      (name content : String) (rs : List ZoneRecord) → Steady (put_single z name "TXT" content rs)
  unfolding put_single
  put_text-Steady name content [] = create-Steady "creating record" "TXT" name content
  put_text-Steady name content (q ∷ rs) = create-Steady "creating record" "TXT" name content

  ensure_mark-Steady : (name content : String) → Steady (ensure_single_record z name "TXT" content)
  unfolding ensure_single_record
  ensure_mark-Steady name content = bind (query-Steady "listing existing records" name "TXT") (λ rs.
      elim (Bool-cases (any (has_content content) rs)) [
        | inl there ↦ rw there (pure-Triple tt)
        | inr missing ↦ rw missing (put_text-Steady name content rs)
      ])

  mark-Steady : (rec : DnsRecord) (owned : Bool) → Steady (mark z rec owned)
  unfolding mark
  mark-Steady rec true = pure-Triple tt
  mark-Steady rec false =
      wrapped-Triple "cloudflare: ensure ownership txt" (λ e s x. x)
        (ensure_mark-Steady rec.name rec.ownership_tag)

  place-Steady :
      (rec : DnsRecord) (owned : Bool) (mains : List ZoneRecord)
      → (owned ≡ true → (m : ZoneRecord) → In m mains → r.id ≢ m.id)
      → Steady (place z rec owned mains)
  unfolding place
  place-Steady rec owned [] apart =
      create-Steady "cloudflare: creating record" rec.record_type rec.name rec.value
  place-Steady rec false (m ∷ ms) apart = raise-Triple _
  place-Steady rec true (m ∷ []) apart =
      update-Steady "cloudflare: updating record" m.id rec.record_type rec.name rec.value
        (apart refl m (inl refl))
  place-Steady rec true (m ∷ n ∷ ms) apart = raise-Triple _

  module _ (rec : DnsRecord) (h : List ZoneRecord) (keyed : IsKeyed h) (there : In r h) where
    start : (s : S) → z.held s ≡ h → Holds s
    unfolding Holds
    start s e = rw e there

    ensure_text-keeps : Triple (λ s. z.held s ≡ h) (ensure_text z rec) (λ _. Holds) (λ _. Holds)
    unfolding ensure_text
    ensure_text-keeps =
        bind
          (weaken (query-Steady "cloudflare: list TXT records" rec.name "TXT") start (λ rs s x. x)
            (λ e s x. x))
          (λ rs. elim (Bool-cases (any (has_content rec.value) rs)) [
            | inl found ↦ rw found (pure-Triple tt)
            | inr missing ↦
                rw missing
                  (create-Steady "cloudflare: creating TXT record" "TXT" rec.name rec.value)
          ])

    apart :
        IsForeign rec h r
        → {txts mains : List ZoneRecord} → txts ≡ keep (is_at rec.name "TXT") h
        → mains ≡ keep (is_at rec.name rec.record_type) h
        → any (has_content rec.ownership_tag) txts ≡ true
        → (m : ZoneRecord) → In m mains
        → r.id ≢ m.id
    unfolding IsForeign is_marked IsKeyed
    apart foreign et em owned m im e =
        let (held, at) = In-keep (is_at rec.name rec.record_type) m h (subst (In m) em im) in
        elim foreign [
          | inl elsewhere ↦ absurd (
              clash at
                (ap (is_at rec.name rec.record_type) (sym (keyed r m there held e)) ∙ elsewhere))
          | inr unmarked ↦
              absurd (clash owned (ap (any (has_content rec.ownership_tag)) et ∙ unmarked))
        ]

    ensure_owned-keeps :
        IsForeign rec h r
        → Triple (λ s. z.held s ≡ h) (ensure_owned z rec) (λ _. Holds) (λ _. Holds)
    unfolding ensure_owned
    ensure_owned-keeps foreign =
        bind (query-Triple faithful "cloudflare: list ownership TXT" rec.name "TXT" start) (λ txts.
          given (λ et.
            bind (query-Triple faithful "cloudflare: list records" rec.name rec.record_type start)
              (λ mains. given (λ em.
                sequence
                  (weaken
                    (place-Steady rec (any (has_content rec.ownership_tag) txts) mains
                      (apart foreign et em))
                    start (λ u s x. x) (λ e s x. x))
                  (λ u. mark-Steady rec (any (has_content rec.ownership_tag) txts))))))

    ensure_in-keeps :
        IsForeign rec h r → Triple (λ s. z.held s ≡ h) (ensure_in z rec) (λ _. Holds) (λ _. Holds)
    unfolding ensure_in
    ensure_in-keeps foreign = elim (Bool-cases (str_eq rec.record_type "TXT")) [
      | inl text ↦ rw text ensure_text-keeps
      | inr other ↦ rw other (ensure_owned-keeps foreign)
    ]

-- However EnsureRecord ends, on a zone whose identifiers are distinct it leaves in place, contents and all,
-- every record that is not of the requested name and type, and every record
-- at all where no TXT record at that name held the environment's tag when it started.
pub ensure_in-IsForeign :
    {S : Type 0} (z : Zone S)
    → IsFaithful z
    → (rec : DnsRecord) (s : S) → IsKeyed (z.held s)
    → (r : ZoneRecord) → In r (z.held s)
    → IsForeign rec (z.held s) r
    → In r (z.held (ensure_in z rec s).1)
unfolding Holds
ensure_in-IsForeign z faithful rec s keyed r there foreign =
    after (ensure_in-keeps z faithful r rec (z.held s) keyed there foreign) s refl
