-- ===== src/Notify/Templates.antt =====
-- Which template a notice is made from: New and Notify of providers/notify/prcomment/prcomment.go.
use ramify.Prelude.{
  String, Bool, true, false, ◌≡◌, refl, sym, ap, ◌∙◌, str_eq, eq_iff, Bool-cases, inl, inr,
  if◌then◌else◌, Option, none, some, [], ◌∷◌, arith, clash,
}
use ramify.Provider.{ok}
use ramify.Config.Acceptance.{came_from, without_context, ok-injective}
use ramify.Notify.{
  Table, lookup, put, copy, default_templates, TemplateLibrary, parse_all, new_templates,
}

some-injective : {A : Type 0} {a b : A} → some a ≡ some b → a ≡ b
some-injective h = ground arith

-- The value of the first table that has the key.
abbrev pub either : {V : Type 0} → Option V → Option V → Option V
either none later = later
either (some v) later = some v

module _ {V : Type 0} where
  overwritten :
      (c : Bool) (v b : V) (o : Option V)
      → (if c then some v else o) ≡ (if c then some v else if c then some b else o)
  overwritten true v b o = refl
  overwritten false v b o = refl

  swapped :
      (c d : Bool) (b v : V) (o : Option V)
      → (c ≡ true → d ≡ true → ⊥)
      → (if c then some b else if d then some v else o)
        ≡ (if d then some v else if c then some b else o)
  swapped true true b v o h = absurd (h refl refl)
  swapped true false b v o h = refl
  swapped false d b v o h = refl

  either-if :
      (c : Bool) (v : V) (o p : Option V)
      → (if c then some v else either o p) ≡ either (if c then some v else o) p
  either-if true v o p = refl
  either-if false v o p = refl

  lookup-put :
      (key k : String) (v : V) (m : Table V)
      → lookup key (put k v m) ≡ (if str_eq k key then some v else lookup key m)
  unfolding lookup put
  lookup-put key k v [] = refl
  lookup-put key k v ((a, b) ∷ rest) = elim (Bool-cases (str_eq a k)) [
    | inl same ↦
        rw same (rw ((eq_iff a k).0 same) (overwritten (str_eq k key) v b (lookup key rest)))
    | inr other ↦ rw other (
        ap (λ later. if str_eq a key then some b else later) (lookup-put key k v rest)
        ∙ swapped (str_eq a key) (str_eq k key) b v (lookup key rest)
            (λ p q. clash ((eq_iff a k).1 ((eq_iff a key).0 p ∙ sym ((eq_iff k key).0 q))) other))
  ]

  lookup-copy :
      (key : String) (dst src : Table V)
      → lookup key (copy dst src) ≡ either (lookup key src) (lookup key dst)
  unfolding copy lookup
  lookup-copy key dst [] = refl
  lookup-copy key dst ((k, v) ∷ rest) =
      lookup-put key k v (copy dst rest)
      ∙ (ap (λ later. if str_eq k key then some v else later) (lookup-copy key dst rest)
          ∙ either-if (str_eq k key) v (lookup key rest) (lookup key dst))

module _ {T : Type 0} (x : TemplateLibrary T) where
  parse_all-lookup :
      (texts : Table String) (templates : Table T) (kind : String) (text : String)
      → parse_all x texts ≡ ok templates
      → lookup kind texts ≡ some text
      → (t : T) × (lookup kind templates ≡ some t) × (x.parse kind text ≡ ok t)
  unfolding parse_all lookup
  parse_all-lookup [] templates kind text h found = absurd (ground arith)
  parse_all-lookup ((k, first) ∷ rest) templates kind text h found =
      let (t, e1, h1) = came_from _ _ h in
      let (parsed, e2, h2) = came_from _ _ h1 in
      let made : ((k, t) ∷ parsed) ≡ templates = ok-injective h2 in
      elim (Bool-cases (str_eq k kind)) [
        | inl same ↦
            let named : k ≡ kind = (eq_iff k kind).0 same in
            let body : some first ≡ some text = rw same at found in
            (
              t,
              ap (lookup kind) (sym made) ∙ rw same refl,
              rw (← named) (rw (← some-injective body) (without_context _ _ e1)),
            )
        | inr other ↦
            let (u, listed, parsed_as) =
              parse_all-lookup rest parsed kind text e2 (rw other at found) in
            (u, ap (lookup kind) (sym made) ∙ rw other listed, parsed_as)
      ]

  -- After New, a notice of a kind is made from the configured template of that kind where there is
  -- one, and from the default otherwise, as it was parsed at startup.
  pub new_templates-chosen :
      (overrides : Table String) (templates : Table T) (kind text : String)
      → new_templates x overrides ≡ ok templates
      → either (lookup kind overrides) (lookup kind default_templates) ≡ some text
      → (t : T) × (lookup kind templates ≡ some t) × (x.parse kind text ≡ ok t)
  unfolding new_templates
  new_templates-chosen overrides templates kind text h chosen =
      parse_all-lookup (copy default_templates overrides) templates kind text h
        (lookup-copy kind default_templates overrides ∙ chosen)
