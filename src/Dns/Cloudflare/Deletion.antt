-- ===== src/Dns/Cloudflare/Deletion.antt =====
-- What DeleteRecord of the Cloudflare provider removes.
use ramify.Prelude.{
  str_eq-false, and-false, String, true, false, ◌&&◌, ◌≡◌, ◌≢◌, refl, sym, ap, ◌∙◌, inl, inr,
  Option, none, some, List, [], ◌∷◌, keep, find_first, str_eq, Bool-cases, clash, subst, arith,
}
use ramify.Provider.{ok, DnsRecord}
use ramify.Dns.Calls.{reads, steady, after, after_ok, query-Triple}
use ramify.Dns.Client.{Act, wrapped, ZoneRecord, Zone, IsFaithful, has_content, is_at}
use ramify.Dns.Cloudflare.{delete_matching, delete_mains, delete_owned, delete_in, owner_content}
use ramify.Dns.Cloudflare.Ownership.{IsKeyed}
use ramify.Prelude.Membership.{In, In-keep, keep-In, find_first-In}
use ramify.Dns.Triples.{
  Triple, pure-Triple, raise-Triple, weaken, given, wrapped-Triple, bind, sequence,
}

module _ {S : Type 0} (z : Zone S) (faithful : IsFaithful z) (q : ZoneRecord) where
  -- If `q` is still held, then `K`.
  abbrev Left : Type 0 → S → Type 0
  Left K s = In q (z.held s) → K

  delete-Left :
      {K : Type 0} (text id : String)
      → Triple (Left K) (wrapped text (z.delete id)) (λ u. Left (K × (q.id ≢ id))) (λ e. Left K)
  delete-Left text id =
      wrapped-Triple text (λ e s x. x)
        (reads
          (λ s u k answer m.
            (k (faithful.delete_only id s q m), faithful.delete_removes id s q u answer m))
          (λ s k m. k (faithful.delete_only id s q m)))

  module _ (rec : DnsRecord) where
    delete_matching-Left :
        {K : Type 0} (rs : List ZoneRecord)
        → Triple
            (Left K)
            (delete_matching z rec rs)
            (λ u. Left (K × (In q rs → has_content rec.value q ≡ true → ⊥)))
            (λ e. Left K)
    unfolding delete_matching
    delete_matching-Left [] =
        weaken (pure-Triple tt) (λ s k m. (k m, λ h. elim h [ ])) (λ u s x. x) (λ e s x. x)
    delete_matching-Left {K} (r ∷ rs) = elim (Bool-cases (has_content rec.value r)) [
      | inl there ↦ rw there (
          sequence (delete-Left {K = K} "cloudflare: delete record" r.id) (λ u.
            weaken (delete_matching-Left {K = K × (q.id ≢ r.id)} rs) (λ s x. x)
              (λ u s x m.
                let ((k, d), gone) = x m in
                (
                  k,
                  λ i c. elim i [
                    | inl e ↦ d (sym (ap (λ (y : ZoneRecord). y.id) e))
                    | inr i' ↦ gone i' c
                  ],
                ))
              (λ e s x m. (x m).0)))
      | inr other ↦ rw other (
          sequence (pure-Triple tt) (λ u.
            weaken (delete_matching-Left {K = K} rs) (λ s x. x)
              (λ u s x m.
                let (k, gone) = x m in
                (
                  k,
                  λ i c. elim i [
                    | inl e ↦ clash (ap (has_content rec.value) e ∙ c) other
                    | inr i' ↦ gone i' c
                  ],
                ))
              (λ e s x. x)))
    ]

    module _ (h : List ZoneRecord) (other : str_eq rec.record_type "TXT" ≡ false) where
      abbrev Spared : Type 0
      Spared =
          In q h × (is_at rec.name rec.record_type q ≡ true → has_content rec.value q ≡ true → ⊥)

      delete_mains-Left :
          Triple (λ s. z.held s ≡ h) (delete_mains z rec) (λ u. Left Spared) (λ e s. Unit {0})
      unfolding delete_mains
      delete_mains-Left = rw other (
          bind
            (query-Triple faithful "cloudflare: listing record" rec.name rec.record_type
              (λ s e. tt))
            (λ mains. given (λ em.
              weaken (delete_matching-Left {K = In q h} mains) (λ s e m. subst (In q) e m)
                (λ u s x m.
                  let (k, gone) = x m in
                  (k, λ at c. gone (rw em (keep-In (is_at rec.name rec.record_type) q h at k)) c))
                (λ e s x. tt))))

      delete_owned-Left :
          (owner : Option ZoneRecord)
          → Triple
              (λ s. z.held s ≡ h)
              (delete_owned z rec owner)
              (λ u. Left Spared)
              (λ e s. Unit {0})
      unfolding delete_owned
      delete_owned-Left none =
          weaken (raise-Triple _ {E = λ e s. Unit {0}}) (λ s e. tt) (λ u s x. x) (λ e s x. x)
      delete_owned-Left (some owner) = sequence delete_mains-Left (λ u.
          weaken (delete-Left {K = Spared} "cloudflare: deleting txt record" owner.id) (λ s x. x)
            (λ u s x m. (x m).0) (λ e s x. tt))

      delete_in-Left :
          Triple (λ s. z.held s ≡ h) (delete_in z rec) (λ u. Left Spared) (λ e s. Unit {0})
      unfolding delete_in
      delete_in-Left =
          bind
            (query-Triple faithful "cloudflare: listing ownership txt" rec.name "TXT" (λ s e. tt))
            (λ txts.
              given (λ et. delete_owned-Left (find_first (has_content (owner_content rec)) txts)))

-- When DeleteRecord of a record that is not TXT returns no error, what the zone still holds it held
-- before, and no record of the requested name and type is left with the requested value.
pub delete_in-gone :
    {S : Type 0} (z : Zone S)
    → IsFaithful z
    → (rec : DnsRecord) (s : S) {u : Unit {0}} → rec.record_type ≢ "TXT"
    → (delete_in z rec s).0 ≡ ok u
    → (q : ZoneRecord) → In q (z.held (delete_in z rec s).1)
    → In q (z.held s) × ((is_at rec.name rec.record_type q && has_content rec.value q) ≡ false)
delete_in-gone z faithful rec s typed answer q m =
    let other = str_eq-false typed in
    let (k, gone) = after_ok (delete_in-Left z faithful q rec (z.held s) other) s refl answer m in
    (k, and-false gone)

module _ {S : Type 0} (z : Zone S) (faithful : IsFaithful z) (r : ZoneRecord) where
  Holds : S → Type 0
  Holds s = In r (z.held s)

  abbrev Steady : {A : Type 0} → Act S A → Type 0
  Steady m = Triple Holds m (λ _. Holds) (λ _. Holds)

  delete-Steady : (text id : String) → r.id ≢ id → Steady (wrapped text (z.delete id))
  unfolding Holds
  delete-Steady text id other =
      wrapped-Triple text (λ e s x. x) (steady (λ s h. faithful.delete_keeps id s r other h))

  delete_matching-Steady :
      (rec : DnsRecord) (rs : List ZoneRecord)
      → ((m : ZoneRecord) → In m rs → has_content rec.value m ≡ true → r.id ≢ m.id)
      → Steady (delete_matching z rec rs)
  unfolding delete_matching
  delete_matching-Steady rec [] apart = pure-Triple tt
  delete_matching-Steady rec (m ∷ ms) apart =
      let rest = delete_matching-Steady rec ms (λ n i. apart n (inr i)) in
      elim (Bool-cases (has_content rec.value m)) [
        | inl there ↦ rw there (
            sequence (delete-Steady "cloudflare: delete record" m.id (apart m (inl refl) there))
              (λ u. rest))
        | inr other ↦ rw other (sequence (pure-Triple tt) (λ u. rest))
      ]

  module _ (rec : DnsRecord) (h : List ZoneRecord) (keyed : IsKeyed h) (there : In r h) where
    start : (s : S) → z.held s ≡ h → Holds s
    unfolding Holds
    start s e = rw e there

    -- A record found by its type and contents is another one.
    apart :
        (t content : String)
        → (is_at rec.name t r && has_content content r) ≡ false
        → {found : List ZoneRecord} → found ≡ keep (is_at rec.name t) h
        → (m : ZoneRecord) → In m found
        → has_content content m ≡ true
        → r.id ≢ m.id
    unfolding IsKeyed
    apart t content spared e m i c same =
        let (held, at) = In-keep (is_at rec.name t) m h (subst (In m) e i) in
        let eq = keyed r m there held same in
        let at' = ap (is_at rec.name t) eq ∙ at in
        let c' = ap (has_content content) eq ∙ c in clash (ground arith) spared

    module _ (spared : (is_at rec.name rec.record_type r && has_content rec.value r) ≡ false) where
      delete_mains-Steady :
          Triple (λ s. z.held s ≡ h) (delete_mains z rec) (λ u. Holds) (λ e. Holds)
      unfolding delete_mains
      delete_mains-Steady = elim (Bool-cases (str_eq rec.record_type "TXT")) [
        | inl text ↦ rw text (weaken (pure-Triple tt) start (λ u s x. x) (λ e s x. x))
        | inr other ↦ rw other (
            bind (query-Triple faithful "cloudflare: listing record" rec.name rec.record_type start)
              (λ mains. given (λ em.
                weaken
                  (delete_matching-Steady rec mains (apart rec.record_type rec.value spared em))
                  start (λ u s x. x) (λ e s x. x))))
      ]

      module _
          (unmarked : (is_at rec.name "TXT" r && has_content (owner_content rec) r) ≡ false) where
        delete_owned-Steady :
            (owner : Option ZoneRecord)
            → ((m : ZoneRecord) → owner ≡ some m → r.id ≢ m.id)
            → Triple (λ s. z.held s ≡ h) (delete_owned z rec owner) (λ u. Holds) (λ e. Holds)
        unfolding delete_owned
        delete_owned-Steady none other =
            weaken (raise-Triple _ {E = λ e. Holds}) start (λ u s x. x) (λ e s x. x)
        delete_owned-Steady (some m) other =
            sequence delete_mains-Steady
              (λ u. delete-Steady "cloudflare: deleting txt record" m.id (other m refl))

        delete_in-Steady : Triple (λ s. z.held s ≡ h) (delete_in z rec) (λ u. Holds) (λ e. Holds)
        unfolding delete_in
        delete_in-Steady =
            bind (query-Triple faithful "cloudflare: listing ownership txt" rec.name "TXT" start)
              (λ txts. given (λ et.
                delete_owned-Steady (find_first (has_content (owner_content rec)) txts) (λ m e.
                  let (i, c) = find_first-In (has_content (owner_content rec)) txts e in
                  apart "TXT" (owner_content rec) unmarked et m i c)))

-- However DeleteRecord ends, on a zone whose identifiers are distinct it leaves in place every record
-- that is not of the requested name, type and value, and is no TXT record of that name with the
-- contents that vouch for the request.
pub delete_in-kept :
    {S : Type 0} (z : Zone S)
    → IsFaithful z
    → (rec : DnsRecord) (s : S) → IsKeyed (z.held s)
    → (r : ZoneRecord) → In r (z.held s)
    → (is_at rec.name rec.record_type r && has_content rec.value r) ≡ false
    → (is_at rec.name "TXT" r && has_content (owner_content rec) r) ≡ false
    → In r (z.held (delete_in z rec s).1)
unfolding Holds
delete_in-kept z faithful rec s keyed r there spared unmarked =
    after (delete_in-Steady z faithful r rec (z.held s) keyed there spared unmarked) s refl
