-- ===== src/Text/Equal.antt =====
-- `equal` decides the equality of texts.
use audit_logging.Common.{
  ℕ, List, [], ◌∷◌, ◌++◌, ◌≡◌, ◌≢◌, refl, subst, ◌↔◌, ◌⊎◌, inl, inr, true, false, arith, Bool-cases,
  All,
}
use audit_logging.Text.{Text, equal}

pub equal_iff : (a b : Text) → (equal a b ≡ true) ↔ (a ≡ b)
unfolding equal
equal_iff [] [] = ground arith
equal_iff (x ∷ a) (y ∷ b) = ground (arith, equal_iff a b)
equal_iff _ _ = ground arith

pub equal_refl : (a : Text) → equal a a ≡ true
equal_refl a = (equal_iff a a).1 refl

pub equal-eq_of_ne : (a b : Text) → a ≢ b → equal a b ≡ false
equal-eq_of_ne a b h = ground (arith, equal_iff a b)

-- Two texts are the same or not.
pub Text-cases : (a b : Text) → (a ≡ b) ⊎ (a ≢ b)
Text-cases a b = elim (Bool-cases (equal a b)) [
  | inl e ↦ inl ((equal_iff a b).0 e)
  | inr e ↦ inr (λ p. ground (arith, equal_iff a b))
]

-- `c` does not occur in the text.
abbrev pub Lacks : ℕ → Text → Type 0
Lacks c s = All (λ x. x ≢ c) s

not-Lacks : (c : ℕ) (b t : Text) → Lacks c (b ++ (c ∷ t)) → ⊥
not-Lacks c [] t h = h.0 refl
not-Lacks c (x ∷ b) t h = not-Lacks c b t h.1

-- A text is cut in one way at the last `c`, where what follows it lacks `c`.
pub cut_last :
    (c : ℕ) (a b s t : Text)
    → Lacks c s
    → Lacks c t
    → a ++ (c ∷ s) ≡ b ++ (c ∷ t)
    → (a ≡ b) × (s ≡ t)
cut_last c [] [] s t hs ht e = (refl, cc)
cut_last c [] (y ∷ b) s t hs ht e =
    let p : s ≡ b ++ (c ∷ t) = cc in absurd (not-Lacks c b t (subst (Lacks c) p hs))
cut_last c (x ∷ a) [] s t hs ht e =
    let p : t ≡ a ++ (c ∷ s) = cc in absurd (not-Lacks c a s (subst (Lacks c) p ht))
cut_last c (x ∷ a) (y ∷ b) s t hs ht e = let (p, q) = cut_last c a b s t hs ht (cc) in (cc, q)

-- What stands before a common suffix, and behind a common prefix.
pub append_cancel_left {ℓ} : {A : Type ℓ} (p s t : List A) → p ++ s ≡ p ++ t → s ≡ t
append_cancel_left [] s t e = e
append_cancel_left (x ∷ p) s t e = append_cancel_left p s t (cc)
