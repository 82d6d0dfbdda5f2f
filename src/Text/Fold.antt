-- ===== src/Text/Fold.antt =====
-- strings.ToLower, strings.ToUpper and strings.EqualFold. What the Unicode tables say of a code
-- point beyond ASCII is a parameter.
use audit_logging.Common.{ℕ, ◌+◌, ◌-◌, ◌≡◌, Bool, true, ◌&&◌, ltb, leb, if◌then◌else◌, map}
use audit_logging.Text.{Text, equal}
use audit_logging.Text.Equal.{equal_refl}

-- The tables beyond ASCII: unicode.ToLower, unicode.ToUpper, and for each code point the one that
-- stands for its case folding orbit (an ASCII letter's orbit is named by its lower case letter).
pub record Unicode : Type 0 where
  pub lower : ℕ → ℕ
  pub upper : ℕ → ℕ
  pub fold : ℕ → ℕ

-- Tables that change nothing beyond ASCII.
abbrev pub ascii_only : Unicode
ascii_only = record { lower = λ c. c; upper = λ c. c; fold = λ c. c }

abbrev ascii_lower : ℕ → ℕ
ascii_lower c = if leb b'A' c && leb c b'Z' then c + 32 else c

abbrev ascii_upper : ℕ → ℕ
ascii_upper c = if leb b'a' c && leb c b'z' then c - 32 else c

module _ (u : Unicode) where
  unfoldable pub to_lower : Text → Text
  to_lower s = map (λ c. if ltb c 128 then ascii_lower c else u.lower c) s

  unfoldable pub to_upper : Text → Text
  to_upper s = map (λ c. if ltb c 128 then ascii_upper c else u.upper c) s

  unfoldable pub fold_case : Text → Text
  fold_case s = map (λ c. if ltb c 128 then ascii_lower c else u.fold c) s

  unfoldable pub equal_fold : Text → Text → Bool
  unfolding fold_case equal
  equal_fold s t = equal (fold_case s) (fold_case t)

  pub equal_fold_refl : (s : Text) → equal_fold s s ≡ true
  unfolding equal_fold
  equal_fold_refl s = equal_refl (fold_case s)
