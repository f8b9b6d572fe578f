-- ===== src/Domain.antt =====
-- Branch names as DNS labels (internal/core/domain/normalize.go), over the code points of the name.
pub mod Labels
pub mod Normal
use ramify.Prelude.{
  ℕ, suc, ◌+◌, ◌-◌, Bool, true, false, ◌&&◌, ◌||◌, List, [], ◌∷◌, ◌++◌, length, take, keep, leb,
  ◌==◌, if◌then◌else◌,
}

abbrev pub dash : ℕ
dash = 45

-- [a-z0-9-]
unfoldable pub is_label_char : ℕ → Bool
is_label_char c = (leb 97 c && leb c 122) || (leb 48 c && leb c 57) || c == dash

-- '/' and '_' become '-'
unfoldable pub separator : ℕ → ℕ
separator c = if c == 47 then dash else if c == 95 then dash else c

unfoldable pub replace_separators : List ℕ → List ℕ
unfolding separator
replace_separators [] = []
replace_separators (c ∷ s) = separator c ∷ replace_separators s

-- the character is left out where it repeats the dash before it
unfoldable pub join_dash : ℕ → List ℕ → List ℕ
join_dash c [] = c ∷ []
join_dash c (d ∷ s) = if c == dash && d == dash then d ∷ s else c ∷ d ∷ s

-- `-+` becomes `-`
unfoldable pub collapse : List ℕ → List ℕ
unfolding join_dash
collapse [] = []
collapse (c ∷ s) = join_dash c (collapse s)

unfoldable pub trim_left : List ℕ → List ℕ
trim_left [] = []
trim_left (c ∷ s) = let rest = trim_left s in if c == dash then rest else c ∷ s

unfoldable pub trim_onto : ℕ → List ℕ → List ℕ
trim_onto c [] = if c == dash then [] else c ∷ []
trim_onto c (d ∷ s) = c ∷ d ∷ s

unfoldable pub trim_right : List ℕ → List ℕ
unfolding trim_onto
trim_right [] = []
trim_right (c ∷ s) = trim_onto c (trim_right s)

-- `lower` is unicode.ToLower above ASCII; `hex_digest` is the hexadecimal form of sha256.
module _ (lower : ℕ → ℕ) (hex_digest : List ℕ → List ℕ) where
  unfoldable pub to_lower : List ℕ → List ℕ
  to_lower [] = []
  to_lower (c ∷ s) =
      (if leb 65 c && leb c 90 then c + 32 else if leb 128 c then lower c else c) ∷ to_lower s

  unfoldable pub short_hash : List ℕ → List ℕ
  short_hash s = take 6 (hex_digest s)

  -- steps 1 to 4
  unfoldable pub clean : List ℕ → List ℕ
  clean branch =
      trim_right (trim_left (collapse (keep is_label_char (replace_separators (to_lower branch)))))

  unfoldable pub fit : List ℕ → List ℕ → ℕ → List ℕ
  fit hash [] max_length = hash
  fit hash (c ∷ s) max_length =
      if leb (length (c ∷ s)) max_length
      then c ∷ s
      else if leb max_length (length (dash ∷ hash))
      then hash
      else trim_right (take (max_length - length (dash ∷ hash)) (c ∷ s)) ++ dash ∷ hash

  unfoldable pub normalize : List ℕ → ℕ → List ℕ
  unfolding fit short_hash
  normalize branch max_length = fit (short_hash branch) (clean branch) max_length
