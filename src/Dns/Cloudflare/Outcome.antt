-- ===== src/Dns/Cloudflare/Outcome.antt =====
-- What the Cloudflare provider has written when EnsureRecord returns no error.
use ramify.Prelude.{
  String, Bool, true, false, ◌≡◌, ◌≢◌, refl, sym, ap, ◌∙◌, inl, inr, List, [], ◌∷◌, any, keep,
  str_eq, eq_iff, Bool-cases, clash, subst,
}
use ramify.Provider.{ok, DnsRecord}
use ramify.Dns.Calls.{reads, after_ok, query-Triple, query_now-Triple}
use ramify.Dns.Client.{wrapped, ZoneRecord, Zone, Exists, IsFaithful, has_content, is_at}
use ramify.Dns.Cloudflare.{
  ensure_text, put_single, ensure_single_record, place, mark, ensure_owned, ensure_in,
  owner_content,
}
use ramify.Dns.Cloudflare.Ownership.{IsKeyed}
use ramify.Prelude.Membership.{In, In-keep, any-In}
use ramify.Dns.Triples.{
  Triple, pure-Triple, raise-Triple, weaken, given, wrapped-Triple, bind, sequence,
}

pub is_at-fields :
    (name t : String) (r : ZoneRecord)
    → is_at name t r ≡ true
    → (r.name ≡ name) × (r.record_type ≡ t)
unfolding is_at
is_at-fields name t r h = elim (Bool-cases (str_eq r.name name)) [
  | inl same ↦ ((eq_iff r.name name).0 same, (eq_iff r.record_type t).0 (rw same at h))
  | inr other ↦ absurd (clash (rw other at h) refl)
]

any-Exists :
    (name t content : String) (h : List ZoneRecord)
    → any (has_content content) (keep (is_at name t) h) ≡ true
    → Exists h t name content
unfolding has_content
any-Exists name t content h e =
    let (r, m, c) = any-In (has_content content) (keep (is_at name t) h) e in
    let (held, at) = In-keep (is_at name t) r h m in
    let (n, k) = is_at-fields name t r at in
    record {
      found = r;
      is_held = held;
      has_type = k;
      has_name = n;
      holds = (eq_iff r.content content).0 c;
    }

moved :
    {h h' : List ZoneRecord} {t name content : String} (e : Exists h t name content)
    → In e.found h'
    → Exists h' t name content
moved e m = record {
  found = e.found;
  is_held = m;
  has_type = e.has_type;
  has_name = e.has_name;
  holds = e.holds;
}

module _ {S : Type 0} (z : Zone S) (faithful : IsFaithful z) (text : String) where
  create-Exists :
      (t name content : String)
      → Triple
          (λ s. Unit {0})
          (wrapped text (z.create t name content))
          (λ u s. Exists (z.held s) t name content)
          (λ e s. Unit {0})
  create-Exists t name content =
      wrapped-Triple text (λ e s x. x)
        (reads (λ s u p answer. faithful.create_adds t name content s u answer) (λ s p. tt))

  create_beside :
      (t name content t' name' content' : String)
      → Triple
          (λ s. Exists (z.held s) t' name' content')
          (wrapped text (z.create t name content))
          (λ u s. Exists (z.held s) t' name' content' × Exists (z.held s) t name content)
          (λ e s. Unit {0})
  create_beside t name content t' name' content' =
      wrapped-Triple text (λ e s x. x)
        (reads
          (λ s u p answer. (
            moved p (faithful.create_keeps t name content s p.found p.is_held),
            faithful.create_adds t name content s u answer,
          ))
          (λ s p. tt))

  update_beside :
      (id t name content t' name' content' : String)
      → Triple
          (λ s. (e : Exists (z.held s) t' name' content') × (e.found.id ≢ id))
          (wrapped text (z.update id t name content))
          (λ u s. Exists (z.held s) t name content × Exists (z.held s) t' name' content')
          (λ e s. Unit {0})
  update_beside id t name content t' name' content' =
      wrapped-Triple text (λ e s x. x)
        (reads
          (λ s u p answer. (
            faithful.update_sets id t name content s u answer,
            moved p.0 (faithful.update_keeps id t name content s p.0.found p.1 p.0.is_held),
          ))
          (λ s p. tt))

module _ {S : Type 0} (z : Zone S) (faithful : IsFaithful z) (rec : DnsRecord) where
  abbrev IsPlaced : S → Type 0
  IsPlaced s = Exists (z.held s) rec.record_type rec.name rec.value

  abbrev IsTagged : S → Type 0
  IsTagged s = Exists (z.held s) "TXT" rec.name rec.ownership_tag

  put_text-Triple :
      (rs : List ZoneRecord)
      → Triple IsPlaced
          (put_single z rec.name "TXT" rec.ownership_tag rs)
          (λ u s. IsPlaced s × IsTagged s)
          (λ e s. Unit {0})
  unfolding put_single
  put_text-Triple [] =
      create_beside z faithful "creating record" "TXT" rec.name rec.ownership_tag rec.record_type
        rec.name rec.value
  put_text-Triple (q ∷ rs) =
      create_beside z faithful "creating record" "TXT" rec.name rec.ownership_tag rec.record_type
        rec.name rec.value

  ensure_mark-Triple :
      Triple IsPlaced
        (ensure_single_record z rec.name "TXT" rec.ownership_tag)
        (λ u s. IsPlaced s × IsTagged s)
        (λ e s. Unit {0})
  unfolding ensure_single_record
  ensure_mark-Triple =
      bind
        (query_now-Triple faithful "listing existing records"
          (λ rs. Exists rs rec.record_type rec.name rec.value) rec.name "TXT")
        (λ rs. elim (Bool-cases (any (has_content rec.ownership_tag) rs)) [
          | inl there ↦ rw there (
              weaken (pure-Triple tt)
                (λ s p. (
                  p.1,
                  any-Exists rec.name "TXT" rec.ownership_tag (z.held s)
                      (ap (any (has_content rec.ownership_tag)) (sym p.0) ∙ there),
                ))
                (λ u s x. x) (λ e s x. x))
          | inr missing ↦
              rw missing (weaken (put_text-Triple rs) (λ s p. p.1) (λ u s x. x) (λ e s x. x))
        ])

  mark-Triple :
      (owned : Bool)
      → Triple
          (λ s. IsPlaced s × (owned ≡ true → IsTagged s))
          (mark z rec owned)
          (λ u s. IsPlaced s × IsTagged s)
          (λ e s. Unit {0})
  unfolding mark
  mark-Triple true = weaken (pure-Triple tt) (λ s p. (p.0, p.1 refl)) (λ u s x. x) (λ e s x. x)
  mark-Triple false =
      wrapped-Triple "cloudflare: ensure ownership txt" (λ e s x. x)
        (weaken ensure_mark-Triple (λ s p. p.0) (λ u s x. x) (λ e s x. x))

  ensure_text-Triple :
      Triple
        (λ s. Unit {0})
        (ensure_text z rec)
        (λ u s. Exists (z.held s) "TXT" rec.name rec.value)
        (λ e s. Unit {0})
  unfolding ensure_text
  ensure_text-Triple =
      bind
        (query_now-Triple faithful "cloudflare: list TXT records" (λ rs. Unit {0}) rec.name "TXT")
        (λ rs. elim (Bool-cases (any (has_content rec.value) rs)) [
          | inl there ↦ rw there (
              weaken (pure-Triple tt)
                (λ s p.
                  any-Exists rec.name "TXT" rec.value (z.held s)
                    (ap (any (has_content rec.value)) (sym p.0) ∙ there))
                (λ u s x. x) (λ e s x. x))
          | inr missing ↦ rw missing (
              weaken
                (create-Exists z faithful "cloudflare: creating TXT record" "TXT" rec.name
                  rec.value)
                (λ s p. tt) (λ u s x. x) (λ e s x. x))
        ])

  module _ (h : List ZoneRecord) (keyed : IsKeyed h) (typed : rec.record_type ≢ "TXT") where
    marker_apart :
        (e : Exists h "TXT" rec.name rec.ownership_tag) (m : ZoneRecord)
        → In m h × (is_at rec.name rec.record_type m ≡ true)
        → e.found.id ≢ m.id
    unfolding IsKeyed
    marker_apart e m (there, at) same = typed (
        sym (is_at-fields rec.name rec.record_type m at).1
        ∙ ap (λ (r : ZoneRecord). r.record_type) (sym (keyed e.found m e.is_held there same))
        ∙ e.has_type)

    place-Triple :
        (owned : Bool) (mains : List ZoneRecord)
        → (owned ≡ true → Exists h "TXT" rec.name rec.ownership_tag)
        → ((m : ZoneRecord) → In m mains → In m h × (is_at rec.name rec.record_type m ≡ true))
        → Triple
            (λ s. z.held s ≡ h)
            (place z rec owned mains)
            (λ u s. IsPlaced s × (owned ≡ true → IsTagged s))
            (λ e s. Unit {0})
    unfolding place moved
    place-Triple true [] tagged found =
        weaken
          (create_beside z faithful "cloudflare: creating record" rec.record_type rec.name rec.value
            "TXT" rec.name rec.ownership_tag)
          (λ s e. rw e (tagged refl)) (λ u s x. (x.1, λ _. x.0)) (λ e s x. x)
    place-Triple false [] tagged found =
        weaken
          (create-Exists z faithful "cloudflare: creating record" rec.record_type rec.name
            rec.value)
          (λ s e. tt) (λ u s x. (x, λ e. absurd (clash e refl))) (λ e s x. x)
    place-Triple false (m ∷ ms) tagged found =
        weaken (raise-Triple _ {E = λ e s. Unit {0}}) (λ s e. tt) (λ u s x. x) (λ e s x. x)
    place-Triple true (m ∷ []) tagged found =
        let e = tagged refl in
        weaken
          (update_beside z faithful "cloudflare: updating record" m.id rec.record_type rec.name
            rec.value "TXT" rec.name rec.ownership_tag)
          (λ s same. (moved e (rw same e.is_held), marker_apart e m (found m (inl refl))))
          (λ u s x. (x.0, λ _. x.1)) (λ e s x. x)
    place-Triple true (m ∷ n ∷ ms) tagged found =
        weaken (raise-Triple _ {E = λ e s. Unit {0}}) (λ s e. tt) (λ u s x. x) (λ e s x. x)

    ensure_owned-Triple :
        Triple
          (λ s. z.held s ≡ h)
          (ensure_owned z rec)
          (λ u s. IsPlaced s × IsTagged s)
          (λ e s. Unit {0})
    unfolding ensure_owned
    ensure_owned-Triple =
        bind (query-Triple faithful "cloudflare: list ownership TXT" rec.name "TXT" (λ s e. tt))
          (λ txts. given (λ et.
            bind
              (query-Triple faithful "cloudflare: list records" rec.name rec.record_type
                (λ s e. tt))
              (λ mains. given (λ em.
                sequence
                  (place-Triple (any (has_content rec.ownership_tag) txts) mains
                    (λ o.
                      any-Exists rec.name "TXT" rec.ownership_tag h
                        (ap (any (has_content rec.ownership_tag)) (sym et) ∙ o))
                    (λ m im. In-keep (is_at rec.name rec.record_type) m h (subst (In m) em im)))
                  (λ u. mark-Triple (any (has_content rec.ownership_tag) txts))))))

-- When EnsureRecord returns no error, on a zone whose identifiers are distinct, the zone holds a
-- record of the requested name, type and value, and a TXT record of that name that a later
-- DeleteRecord of the same request looks for.
pub ensure_in-Exists :
    {S : Type 0} (z : Zone S)
    → IsFaithful z
    → (rec : DnsRecord) (s : S) {u : Unit {0}} → IsKeyed (z.held s)
    → (ensure_in z rec s).0 ≡ ok u
    → Exists (z.held (ensure_in z rec s).1) rec.record_type rec.name rec.value
      × Exists (z.held (ensure_in z rec s).1) "TXT" rec.name (owner_content rec)
unfolding ensure_in owner_content ensure_text
ensure_in-Exists z faithful rec s keyed answer = elim (Bool-cases (str_eq rec.record_type "TXT")) [
  | inl text ↦
      let e = after_ok (ensure_text-Triple z faithful rec) s tt (rw text at answer) in
      rw text (rw ((eq_iff rec.record_type "TXT").0 text) (e, e))
  | inr other ↦
      let typed =
        (λ (e : rec.record_type ≡ "TXT"). clash ((eq_iff rec.record_type "TXT").1 e) other) in
      let both =
        after_ok (ensure_owned-Triple z faithful rec (z.held s) keyed typed) s refl
          (rw other at answer) in
      rw other both
]
