-- ===== src/Text/Split.antt =====
-- strings.SplitN(s, sep, 3) at a separator of one character, and strings.TrimPrefix.
use audit_logging.Common.{
  ℕ, zero, suc, List, [], ◌∷◌, ◌++◌, ◌≡◌, refl, arith, ◌==◌, if◌then◌else◌, true, length, drop,
}
use audit_logging.Text.{Text, has_prefix}
use audit_logging.Text.Equal.{Lacks}

onto : ℕ → List Text → List Text
onto x [] = (x ∷ []) ∷ []
onto x (p ∷ ps) = (x ∷ p) ∷ ps

-- At most `n + 1` pieces, cut at the first `n` places where `c` stands.
unfoldable pub split_n : ℕ → ℕ → Text → List Text
unfolding onto
split_n zero c s = s ∷ []
split_n (suc n) c [] = [] ∷ []
split_n (suc n) c (x ∷ s) =
    let cut = [] ∷ split_n n c s in
    let longer = onto x (split_n (suc n) c s) in if x == c then cut else longer

-- A piece that lacks the separator is cut off whole.
pub split_n-append :
    (n c : ℕ) (p s : Text) → Lacks c p → split_n (suc n) c (p ++ (c ∷ s)) ≡ p ∷ split_n n c s
unfolding split_n
split_n-append n c [] s h = ground arith
split_n-append n c (x ∷ p) s h = ground (arith, split_n-append n c p s h.1)

-- strings.TrimPrefix(s, p)
unfoldable pub trim_prefix : Text → Text → Text
trim_prefix s p = if has_prefix s p then drop (length p) s else s

pub has_prefix-append : (p s : Text) → has_prefix (p ++ s) p ≡ true
unfolding has_prefix
has_prefix-append [] [] = refl
has_prefix-append [] (c ∷ s) = refl
has_prefix-append (c ∷ p) s = ground (arith, has_prefix-append p s)

drop-append : (p s : Text) → drop (length p) (p ++ s) ≡ s
drop-append [] s = refl
drop-append (c ∷ p) s = drop-append p s

pub trim_prefix-append : (p s : Text) → trim_prefix (p ++ s) p ≡ s
unfolding trim_prefix
trim_prefix-append p s = rw has_prefix-append (drop-append p s)
