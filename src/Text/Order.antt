-- ===== src/Text/Order.antt =====
-- The order of Go strings, and the functions of strings and sort that go by it. Bytes of UTF-8 texts
-- compare as their code points do.
pub mod Sorted
use audit_logging.Common.{
  List, [], ◌∷◌, Bool, true, false, Option, none, some, ltb, ◌==◌, if◌then◌else◌,
}
use audit_logging.Text.{Text}

-- `s < t`
unfoldable pub less : Text → Text → Bool
less s [] = false
less [] (b ∷ t) = true
less (a ∷ s) (b ∷ t) =
    let rest = less s t in if ltb a b then true else if a == b then rest else false

-- strings.CutPrefix(s, p)
unfoldable pub cut_prefix : Text → Text → Option Text
cut_prefix s [] = some s
cut_prefix [] (b ∷ p) = none
cut_prefix (a ∷ s) (b ∷ p) = let rest = cut_prefix s p in if a == b then rest else none

reverse_onto : Text → Text → Text
reverse_onto [] out = out
reverse_onto (c ∷ s) out = reverse_onto s (c ∷ out)

unfoldable pub reversed_text : Text → Text
unfolding reverse_onto
reversed_text s = reverse_onto s []

-- strings.TrimSuffix(s, p)
unfoldable pub trim_suffix : Text → Text → Text
trim_suffix s p = elim (cut_prefix (reversed_text s) (reversed_text p)) [
  | none ↦ s
  | some rest ↦ reversed_text rest
]

-- strings.HasSuffix(s, p)
unfoldable pub has_suffix : Text → Text → Bool
has_suffix s p = elim (cut_prefix (reversed_text s) (reversed_text p)) [
  | none ↦ false
  | some rest ↦ true
]

-- sort.Slice, by the test of whether one item comes before another. An item stays behind those before it
-- that neither comes before nor behind.
module _ {ℓ} {A : Type ℓ} (before : A → A → Bool) where
  unfoldable pub insert_sorted : A → List A → List A
  insert_sorted a [] = a ∷ []
  insert_sorted a (b ∷ bs) =
      let rest = insert_sorted a bs in if before b a then b ∷ rest else a ∷ b ∷ bs

  unfoldable pub sort_slice : List A → List A
  sort_slice [] = []
  sort_slice (a ∷ rest) = insert_sorted a (sort_slice rest)

-- sort.Strings
abbrev pub sort_texts : List Text → List Text
sort_texts = sort_slice less
