-- ===== src/Deploy/Kubernetes/Labels.antt =====
-- The names that validName of providers/deploy/kubernetes/kubernetes.go accepts, as DNS labels.
use ramify.Prelude.{ℕ, true, false, ◌||◌, ◌==◌, ◌≡◌, [], ◌∷◌, arith}
use ramify.Domain.{is_label_char, dash}
use ramify.Domain.Labels.{AllLabel, ends_with_dash}
use ramify.Domain.Normal.{IsLabel}
use ramify.Dns.Texts.{Text, same_text}
use ramify.Deploy.Kubernetes.{
  is_alphanumeric, matches_rest, matches_name, valid_name, max_name_length,
}

alphanumeric-label : (c : ℕ) → is_alphanumeric c ≡ true → is_label_char c ≡ true
unfolding is_alphanumeric is_label_char
alphanumeric-label c h = ground arith

alphanumeric-dash : (c : ℕ) → is_alphanumeric c ≡ true → (c == dash) ≡ false
unfolding is_alphanumeric
alphanumeric-dash c h = ground arith

name_char-label : (c : ℕ) → (is_alphanumeric c || c == dash) ≡ true → is_label_char c ≡ true
unfolding is_alphanumeric is_label_char
name_char-label c h = ground arith

rest-AllLabel : (c : ℕ) (s : Text) → matches_rest c s ≡ true → AllLabel (c ∷ s)
unfolding matches_rest
rest-AllLabel c [] h = (alphanumeric-label c h, tt)
rest-AllLabel c (d ∷ s) h = (name_char-label c (ground arith), rest-AllLabel d s (ground arith))

rest-last : (c : ℕ) (s : Text) → matches_rest c s ≡ true → ends_with_dash (c ∷ s) ≡ false
unfolding matches_rest
rest-last c [] h = alphanumeric-dash c h
rest-last c (d ∷ s) h = rest-last d s (ground arith)

-- A name that is accepted is a label of at most 63 characters.
pub valid_name-IsLabel : (ref : Text) → valid_name ref ≡ true → IsLabel max_name_length ref
unfolding valid_name matches_name same_text
valid_name-IsLabel [] h = absurd (ground arith)
valid_name-IsLabel (c ∷ s) h = record {
  chars = rest-AllLabel c s (ground arith);
  nonempty = omega arith;
  first = alphanumeric-dash c (ground arith);
  last = rest-last c s (ground arith);
  bounded = ground arith;
}
