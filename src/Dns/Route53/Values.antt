-- ===== src/Dns/Route53/Values.antt =====
-- The values at a name in Route 53, as they are read back.
use ramify.Prelude.{
  String, Bool, true, false, not, ◌≡◌, refl, ap, ◌∙◌, List, [], ◌∷◌, ◌++◌, map, keep, keep_if, ◌&&◌,
  str_eq, eq_iff, Bool-cases, inl, inr,
}
use ramify.Provider.{ok}
use ramify.Dns.Client.{◌>>=◌, follow, wrapped, with_context}
use ramify.Dns.Route53.{
  Route53Api, upsert, has_value, remove_value, one, records, change, ensure_text, ensure_record,
  delete_text, write_back, delete_record,
}
use ramify.Dns.Texts.{Text, Request, txt, untxt, untxt-txt, same_text}

map-append :
    {A B : Type 0} (f : A → B) (xs : List A) (x : A) → map f (xs ++ x ∷ []) ≡ map f xs ++ f x ∷ []
map-append f [] x = refl
map-append f (y ∷ ys) x = ap (λ rest. f y ∷ rest) (map-append f ys x)

never : (p : Bool) → (p && false) ≡ false
never true = refl
never false = refl

unfoldable differs : Text → Text → Bool
differs value u = not (same_text u value)

map-remove_value :
    (rs : List Text) (value : Text)
    → map untxt (remove_value rs value) ≡ keep (differs value) (map untxt rs)
unfolding remove_value keep keep_if differs
map-remove_value [] value = refl
map-remove_value (r ∷ rs) value = elim (Bool-cases (same_text (untxt r) value)) [
  | inl same ↦ rw same (map-remove_value rs value)
  | inr other ↦ rw other (ap (λ rest. untxt r ∷ rest) (map-remove_value rs value))
]

module _ {S : Type 0} (api : Route53Api S) (hosted_zone_id : String) (rec : Request) (s : S)
    (rs : List Text) where
  -- Where the TXT values at the name can be read, EnsureRecord of a TXT record whose value is not
  -- among them writes, in one change, values that read back as those that were there, in order and
  -- each as it was, followed by the new one.
  pub ensure_record-adds :
      rec.record_type ≡ "TXT"
      → (records api hosted_zone_id rec.zone rec.name "TXT" s).0 ≡ ok rs
      → has_value rs rec.value ≡ false
      → (ws : List Text) × (ensure_record api hosted_zone_id rec s
          ≡ change api hosted_zone_id rec.zone upsert rec.name "TXT" ws
              (records api hosted_zone_id rec.zone rec.name "TXT" s).1)
        × (map untxt ws ≡ map untxt rs ++ rec.value ∷ [])
  unfolding ensure_record ensure_text one ◌>>=◌ follow wrapped with_context
  ensure_record-adds text answer new =
      let is_text = (eq_iff rec.record_type "TXT").1 text in
      (
        rs ++ txt rec.value ∷ [],
        rw is_text (
            rw (never (not (str_eq rec.record_type "A") && not (str_eq rec.record_type "CNAME")))
              (rw answer (rw new refl))),
        map-append untxt rs (txt rec.value) ∙ rw (untxt-txt rec.value) refl,
      )

  -- Where the TXT values at the name can be read, DeleteRecord of a TXT record whose value is among
  -- them writes back values that read as those that were there and differ from it, in order.
  delete_record-removes :
      rec.record_type ≡ "TXT"
      → (records api hosted_zone_id rec.zone rec.name "TXT" s).0 ≡ ok rs
      → has_value rs rec.value ≡ true
      → (ws : List Text) × (delete_record api hosted_zone_id rec s
          ≡ write_back api hosted_zone_id rec "TXT" rs ws
              (records api hosted_zone_id rec.zone rec.name "TXT" s).1)
        × (map untxt ws ≡ keep (differs rec.value) (map untxt rs))
  unfolding delete_record delete_text ◌>>=◌ follow
  delete_record-removes text answer there =
      let is_text = (eq_iff rec.record_type "TXT").1 text in
      (
        remove_value rs rec.value,
        rw answer (rw is_text (rw there refl)),
        map-remove_value rs rec.value,
      )
