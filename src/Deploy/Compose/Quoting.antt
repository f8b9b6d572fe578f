-- ===== src/Deploy/Compose/Quoting.antt =====
-- What a shell reads where a value was quoted: shellQuote of
-- providers/deploy/compose/compose.go.
use ramify.Prelude.{
  ℕ, Bool-cases, true, false, ◌≡◌, refl, ap, ◌∙◌, inl, inr, List, [], ◌∷◌, ◌++◌, ◌==◌, arith,
}
use mathlib.Core.List.{append_assoc, append-nil}
use ramify.Dns.Texts.{Text}
use ramify.Deploy.Shell.{between, in_word, in_single, Token, scan, step_in, apostrophe}
use ramify.Deploy.Compose.{escape_quotes, shell_quote}

apostrophe-eq : (c : ℕ) → (c == apostrophe) ≡ true → c ≡ apostrophe
apostrophe-eq c h = ground arith

read_char :
    (w s t : Text) (c : ℕ) (ts : List Token)
    → scan (record { mode = in_word; pending = (w ++ c ∷ []) ++ s; tokens = ts }) t
      ≡ scan (record { mode = in_word; pending = w ++ c ∷ s; tokens = ts }) t
read_char w s t c ts =
    ap (λ v. scan (record { mode = in_word; pending = v; tokens = ts }) t)
      (append_assoc w (c ∷ []) s)

scan-single :
    (c : ℕ) (s w : Text) (ts : List Token)
    → (c == apostrophe) ≡ false
    → scan (record { mode = in_single; pending = w; tokens = ts }) (c ∷ s)
      ≡ scan (record { mode = in_single; pending = w ++ c ∷ []; tokens = ts }) s
unfolding scan step_in
scan-single c s w ts h = rw (h, scan) refl

-- The rest of a quoted value is read inside the quotes.
scan-escape_quotes :
    (s t w : Text) (ts : List Token)
    → scan (record { mode = in_single; pending = w; tokens = ts }) (escape_quotes s ++ 39 ∷ t)
      ≡ scan (record { mode = in_word; pending = w ++ s; tokens = ts }) t
unfolding scan escape_quotes step_in
scan-escape_quotes [] t w ts = rw (append-nil w) refl
scan-escape_quotes (c ∷ s) t w ts = elim (Bool-cases (c == apostrophe)) [
  | inl quoted ↦
      rw (apostrophe-eq c quoted) (scan-escape_quotes s t (w ++ 39 ∷ []) ts ∙ read_char w s t 39 ts)
  | inr other ↦ rw other (
      scan-single c (escape_quotes s ++ 39 ∷ t) w ts other
      ∙ (scan-escape_quotes s t (w ++ c ∷ []) ts ∙ read_char w s t c ts))
]

module _ (s t : Text) (ts : List Token) where
  scan-inside :
      (w : Text)
      → scan
          (record { mode = in_single; pending = w; tokens = ts })
          ((escape_quotes s ++ 39 ∷ []) ++ t)
        ≡ scan (record { mode = in_word; pending = w ++ s; tokens = ts }) t
  scan-inside w = rw (append_assoc (escape_quotes s) (39 ∷ []) t) (scan-escape_quotes s t w ts)

  pub quoted_in_word :
      (w : Text)
      → scan (record { mode = in_word; pending = w; tokens = ts }) (shell_quote s ++ t)
        ≡ scan (record { mode = in_word; pending = w ++ s; tokens = ts }) t
  unfolding scan shell_quote step_in
  quoted_in_word w = scan-inside w

  pub quoted_between :
      scan (record { mode = between; pending = []; tokens = ts }) (shell_quote s ++ t)
      ≡ scan (record { mode = in_word; pending = s; tokens = ts }) t
  unfolding scan shell_quote step_in
  quoted_between = scan-inside []

-- Whatever characters a value has, the shell reads the quoted value as one word with exactly these
-- characters, where it starts a word and where it goes on with one, and then what follows it.
pub shell_quote-read :
    (s t w : Text) (ts : List Token)
    → (scan (record { mode = between; pending = []; tokens = ts }) (shell_quote s ++ t)
        ≡ scan (record { mode = in_word; pending = s; tokens = ts }) t)
      × (scan (record { mode = in_word; pending = w; tokens = ts }) (shell_quote s ++ t)
          ≡ scan (record { mode = in_word; pending = w ++ s; tokens = ts }) t)
shell_quote-read s t w ts = (quoted_between s t ts, quoted_in_word s t ts w)
