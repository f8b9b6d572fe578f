-- ===== src/Tests/Zones.antt =====
-- A zone held in memory, with the records at one name of it.
use ramify.Prelude.{
  str_eq-false, any, String, Bool, true, false, not, ◌≡◌, ◌≢◌, refl, sym, ap, ◌∙◌, inl, inr, List,
  [], ◌∷◌, ◌++◌, keep, str_eq, eq_iff, clash,
}
use ramify.Provider.{Result, ok, err, DnsRecord}
use ramify.Dns.Client.{ZoneRecord, Zone, IsFaithful, is_at}
use ramify.Dns.Cloudflare.Ownership.{IsKeyed}
use ramify.Prelude.Membership.{In, In-any, In-append, In-keep, keep-In}

unfoldable pub bears_id : String → ZoneRecord → Bool
bears_id id r = str_eq r.id id

unfoldable pub lacks_id : String → ZoneRecord → Bool
unfolding bears_id
lacks_id id r = not (bears_id id r)

abbrev pub memory_zone : Zone (List ZoneRecord)
memory_zone = record {
  held = λ s. s;
  query = λ name t s. (ok (keep (is_at name t) s), s);
  listing = λ s. (ok s, s);
  create = λ t name content s.
      (ok tt, s ++ record { id = "new"; record_type = t; name = name; content = content } ∷ []);
  update = λ id t name content s. (
    ok tt,
    record { id = id; record_type = t; name = name; content = content } ∷ keep (lacks_id id) s,
  );
  delete = λ id s. (ok tt, keep (lacks_id id) s);
}

lacks_id-true : (id : String) (r : ZoneRecord) → r.id ≢ id → lacks_id id r ≡ true
unfolding lacks_id bears_id
lacks_id-true id r differ = rw (str_eq-false differ) refl

lacks_id-false : (id : String) (r : ZoneRecord) → r.id ≡ id → lacks_id id r ≡ true → ⊥
unfolding lacks_id bears_id
lacks_id-false id r same h = clash h (ap not ((eq_iff r.id id).1 same))

value_or : {A : Type 0} → A → Result A → A
value_or a (ok b) = b
value_or a (err e) = a

ok-injective : {A : Type 0} {a b : A} → ok a ≡ ok b → a ≡ b
unfolding value_or
ok-injective {a = a} e = ap (value_or a) e

In-append_last : {A : Type 0} (xs : List A) (a : A) → In a (xs ++ a ∷ [])
In-append_last [] a = inl refl
In-append_last (x ∷ xs) a = inr (In-append_last xs a)

pub memory_zone-IsFaithful : IsFaithful memory_zone
memory_zone-IsFaithful = record {
  query_finds = λ name t s rs e. sym (ok-injective e);
  query_reads = λ name t s. refl;
  listing_finds = λ s rs e. sym (ok-injective e);
  listing_reads = λ s. refl;
  create_keeps = λ t name content s r m. In-append r s _ m;
  create_adds = λ t name content s u e. record {
    found = record { id = "new"; record_type = t; name = name; content = content };
    is_held = In-append_last s _;
    has_type = refl;
    has_name = refl;
    holds = refl;
  };
  update_keeps = λ id t name content s r differ m.
      inr (keep-In (lacks_id id) r s (lacks_id-true id r differ) m);
  update_sets = λ id t name content s u e. record {
    found = record { id = id; record_type = t; name = name; content = content };
    is_held = inl refl;
    has_type = refl;
    has_name = refl;
    holds = refl;
  };
  delete_keeps = λ id s r differ m. keep-In (lacks_id id) r s (lacks_id-true id r differ) m;
  delete_only = λ id s r m. (In-keep (lacks_id id) r s m).0;
  delete_removes = λ id s r u e m same. lacks_id-false id r same (In-keep (lacks_id id) r s m).1;
}

IsKeyed-empty : IsKeyed []
unfolding IsKeyed
IsKeyed-empty a b i j e = elim i [ ]

IsKeyed-cons :
    (r : ZoneRecord) (rs : List ZoneRecord)
    → any (bears_id r.id) rs ≡ false
    → IsKeyed rs
    → IsKeyed (r ∷ rs)
unfolding IsKeyed bears_id
IsKeyed-cons r rs new keyed a b (inl e) (inl f) same = sym e ∙ f
IsKeyed-cons r rs new keyed a b (inl e) (inr j) same = absurd (
    clash ((eq_iff b.id r.id).1 (sym same ∙ ap (λ (y : ZoneRecord). y.id) (sym e)))
      (In-any (bears_id r.id) b rs j new))
IsKeyed-cons r rs new keyed a b (inr i) (inl f) same = absurd (
    clash ((eq_iff a.id r.id).1 (same ∙ ap (λ (y : ZoneRecord). y.id) (sym f)))
      (In-any (bears_id r.id) a rs i new))
IsKeyed-cons r rs new keyed a b (inr i) (inr j) same = keyed a b i j same

abbrev pub request : DnsRecord
request = record {
  zone = "example";
  name = "app.example";
  record_type = "A";
  value = "10.0.0.2";
  ownership_tag = "tag";
}

abbrev pub deployed : DnsRecord
deployed = record request { value = "10.0.0.1" }

abbrev pub main_record : ZoneRecord
main_record = record { id = "1"; record_type = "A"; name = "app.example"; content = "10.0.0.1" }

abbrev pub marker : ZoneRecord
marker = record { id = "2"; record_type = "TXT"; name = "app.example"; content = "tag" }

abbrev pub elsewhere : ZoneRecord
elsewhere = record { id = "3"; record_type = "A"; name = "www.example"; content = "10.0.0.2" }

abbrev pub owned_zone : List ZoneRecord
owned_zone = main_record ∷ marker ∷ elsewhere ∷ []

abbrev pub operator_zone : List ZoneRecord
operator_zone = main_record ∷ elsewhere ∷ []

pub owned_zone-IsKeyed : IsKeyed owned_zone
unfolding bears_id
owned_zone-IsKeyed =
    IsKeyed-cons main_record (marker ∷ elsewhere ∷ []) refl
      (IsKeyed-cons marker (elsewhere ∷ []) refl (IsKeyed-cons elsewhere [] refl IsKeyed-empty))
