-- ===== src/Dashboard/Words.antt =====
-- cmd/security-dashboard: the small functions on words and numbers that its parts share.
use audit_logging.Common.{
  ℕ, ◌+◌, ◌-◌, ◌*◌, [], ◌∷◌, ◌++◌, Bool, false, ◌||◌, ltb, ◌==◌, if◌then◌else◌, Option, none, some,
}
use audit_logging.Common.Int.{ℤ, pos, negsuc, int64_of}
use audit_logging.Text.{Text, codes, is_empty}
use audit_logging.Text.Decimal.{format_int}
use audit_logging.Text.Space.{trim_space}

abbrev is_one : ℤ → Bool
is_one (pos n) = n == 1
is_one (negsuc n) = false

unfoldable pub plural : ℤ → Text → Text → Text
plural n one many = if is_one n then codes "1 " ++ one else format_int n ++ (codes " " ++ many)

-- The digits that a text starts with, as an int.
read_on : ℕ → Text → ℕ
read_on n [] = n
read_on n (c ∷ s) =
    let rest = read_on (n * 10 + (c - b'0')) s in if ltb c b'0' || ltb b'9' c then n else rest

unfoldable pub atoi : Text → ℤ
unfolding read_on
atoi s = int64_of (read_on 0 s)

unfoldable pub dash_if_empty : Text → Text
dash_if_empty s = if is_empty (trim_space s) then codes "—" else s

-- strings.Cut(s, " ")
up_to_space : Text → Text
up_to_space [] = []
up_to_space (c ∷ s) = let rest = up_to_space s in if c == 32 then [] else c ∷ rest

unfoldable pub first_word : Text → Text
unfolding up_to_space
first_word s = up_to_space (trim_space s)

-- gitOut, of what the command prints, if it succeeds
unfoldable pub git_out : Option Text → Text
git_out none = []
git_out (some out) = trim_space out
