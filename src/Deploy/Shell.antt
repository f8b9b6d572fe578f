-- ===== src/Deploy/Shell.antt =====
-- How a POSIX shell reads a command line: the rules of quoting and of token recognition, for the
-- characters that the commands of the program use. `none` is a line with any other character
-- outside of quotes, one that expands something, or one that ends inside quotes.
use ramify.Prelude.{
  ℕ, Bool, ◌&&◌, ◌||◌, leb, ◌==◌, if◌then◌else◌, Option, none, some, List, [], ◌∷◌, ◌++◌,
}
use ramify.Dns.Texts.{Text}

-- Outside of a word, in one, and in its two kinds of quotes.
pub data Mode : Type 0 where
  between in_word in_single in_double : Mode

-- An operator of several characters is read as so many tokens.
pub data Token : Type 0 where
  word : Text → Token
  operator : ℕ → Token

pub record Reading : Type 0 where
  pub mode : Mode
  pub pending : Text
  pub tokens : List Token

abbrev pub space : ℕ
space = 32

abbrev pub apostrophe : ℕ
apostrophe = 39

abbrev pub double_quote : ℕ
double_quote = 34

-- & | >
abbrev is_operator : ℕ → Bool
is_operator c = c == 38 || c == 124 || c == 62

-- letters, digits and % - . / = _
abbrev is_plain : ℕ → Bool
is_plain c =
    (leb 97 c && leb c 122)
    || (leb 65 c && leb c 90)
    || (leb 45 c && leb c 57)
    || c == 37
    || c == 61
    || c == 95

-- $ ` \
abbrev is_special : ℕ → Bool
is_special c = c == 36 || c == 96 || c == 92

abbrev end_word : Mode → Reading → List Token
end_word between r = r.tokens
end_word _ r = r.tokens ++ word r.pending ∷ []

unfoldable pub step_bare : Mode → Reading → ℕ → Option Reading
step_bare m r c =
    if c == space
    then some (record { mode = between; pending = []; tokens = end_word m r })
    else if c == apostrophe
    then some (record r { mode = in_single })
    else if c == double_quote
    then some (record r { mode = in_double })
    else if is_operator c
    then some (record { mode = between; pending = []; tokens = end_word m r ++ operator c ∷ [] })
    else if is_plain c
    then some (record r { mode = in_word; pending = r.pending ++ c ∷ [] })
    else none

unfoldable pub step_in : Mode → Reading → ℕ → Option Reading
unfolding step_bare
step_in between r c = step_bare between r c
step_in in_word r c = step_bare in_word r c
step_in in_single r c =
    if c == apostrophe
    then some (record r { mode = in_word })
    else some (record r { pending = r.pending ++ c ∷ [] })
step_in in_double r c =
    if c == double_quote
    then some (record r { mode = in_word })
    else if is_special c
    then none
    else some (record r { pending = r.pending ++ c ∷ [] })

unfoldable pub finish_in : Mode → Reading → Option (List Token)
finish_in between r = some (end_word between r)
finish_in in_word r = some (end_word in_word r)
finish_in in_single r = none
finish_in in_double r = none

unfoldable pub scan : Reading → Text → Option (List Token)
unfolding step_in finish_in
scan r [] = finish_in r.mode r
scan r (c ∷ s) = elim (step_in r.mode r c) [ none ↦ none | some r' ↦ scan r' s ]

unfoldable pub tokens_of : Text → Option (List Token)
unfolding scan
tokens_of s = scan (record { mode = between; pending = []; tokens = [] }) s
