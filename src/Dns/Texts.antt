-- ===== src/Dns/Texts.antt =====
-- TXT values between quotes, as Route 53 and Google Cloud DNS hold them: txt and untxt of
-- providers/dns/route53/route53.go and of providers/dns/googlecloud/googlecloud.go, over code points.
use ramify.Prelude.{
  String, ℕ, Bool, true, false, ◌&&◌, ◌≡◌, refl, ap, sym, ◌∙◌, inl, inr, List, [], ◌∷◌, ◌++◌, ◌==◌,
  if◌then◌else◌, Bool-cases, arith,
}

abbrev pub Text : Type 0
Text = List ℕ

-- A providerapi.DNSRecord, its value and tag over code points.
pub record Request : Type 0 where
  pub zone : String
  pub name : String
  pub record_type : String
  pub value : Text
  pub ownership_tag : Text

abbrev pub quote : ℕ
quote = 34

abbrev pub backslash : ℕ
backslash = 92

unfoldable pub same_text : Text → Text → Bool
same_text [] [] = true
same_text [] (d ∷ t) = false
same_text (c ∷ s) [] = false
same_text (c ∷ s) (d ∷ t) = c == d && same_text s t

-- strings.ReplaceAll(s, `"`, `\"`)
unfoldable pub escape : Text → Text
escape [] = []
escape (c ∷ s) = let rest = escape s in if c == quote then backslash ∷ c ∷ rest else c ∷ rest

unfoldable pub txt : Text → Text
unfolding escape
txt s = quote ∷ (escape s ++ quote ∷ [])

-- strings.ReplaceAll(s, `\"`, `"`): `held` is whether a backslash has been read and not yet written.
unfoldable pub unescape_from : Bool → Text → Text
unescape_from true [] = backslash ∷ []
unescape_from false [] = []
unescape_from true (c ∷ s) =
    let rest = unescape_from false s in
    let held = unescape_from true s in
    if c == quote
    then c ∷ rest
    else if c == backslash
    then backslash ∷ held
    else backslash ∷ c ∷ rest
unescape_from false (c ∷ s) =
    let rest = unescape_from false s in
    let held = unescape_from true s in if c == backslash then held else c ∷ rest

unfoldable pub unescape : Text → Text
unfolding unescape_from
unescape s = unescape_from false s

unfoldable pub ends_in_quote : Text → Bool
ends_in_quote [] = false
ends_in_quote (c ∷ []) = c == quote
ends_in_quote (c ∷ d ∷ s) = ends_in_quote (d ∷ s)

-- `s[:len(s)-1]`
unfoldable pub without_last : Text → Text
without_last [] = []
without_last (c ∷ []) = []
without_last (c ∷ d ∷ s) = c ∷ without_last (d ∷ s)

unfoldable pub untxt : Text → Text
unfolding unescape
untxt [] = unescape []
untxt (c ∷ s) =
    if c == quote && ends_in_quote s then unescape (without_last s) else unescape (c ∷ s)

backslash-eq : (c : ℕ) → (c == backslash) ≡ true → c ≡ backslash
backslash-eq c h = ground arith

unescape-escape :
    (s : Text)
    → (unescape_from false (escape s) ≡ s) × (unescape_from true (escape s) ≡ backslash ∷ s)
unfolding escape unescape_from
unescape-escape [] = (refl, refl)
unescape-escape (c ∷ s) =
    let (free, held) = unescape-escape s in
    elim (Bool-cases (c == quote)) [
      | inl yes' ↦ (rw yes' (rw free (rw yes' refl)), rw yes' (rw free (rw yes' refl)))
      | inr no' ↦ elim (Bool-cases (c == backslash)) [
        | inl back ↦
            let still = held ∙ ap (λ d. d ∷ s) (sym (backslash-eq c back)) in
            (
              rw no' (rw back still),
              rw no' (rw back (rw no' (ap (λ rest. backslash ∷ rest) still))),
            )
        | inr other ↦ (rw no' (rw other (rw free refl)), rw no' (rw other (rw free (rw no' refl))))
      ]
    ]

ends_in_quote-append : (s : Text) → ends_in_quote (s ++ quote ∷ []) ≡ true
unfolding ends_in_quote
ends_in_quote-append [] = refl
ends_in_quote-append (c ∷ []) = refl
ends_in_quote-append (c ∷ d ∷ s) = ends_in_quote-append (d ∷ s)

without_last-append : (s : Text) → without_last (s ++ quote ∷ []) ≡ s
unfolding without_last
without_last-append [] = refl
without_last-append (c ∷ []) = refl
without_last-append (c ∷ d ∷ s) = ap (λ rest. c ∷ rest) (without_last-append (d ∷ s))

-- A value of any characters, quotes and backslashes among them, is read back as it was written.
pub untxt-txt : (s : Text) → untxt (txt s) ≡ s
unfolding untxt txt unescape
untxt-txt s =
    rw (ends_in_quote-append (escape s)) (rw (without_last-append (escape s)) (unescape-escape s).0)
