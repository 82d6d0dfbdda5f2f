-- ===== src/Forwarder/Delivery/Laws.antt =====
-- cmd/log-forwarder/delivery.go: what an idempotency key says of its line.
use audit_logging.Common.{
  ℕ, ◌≤◌, [], List, ◌∷◌, ◌++◌, ◌≡◌, ◌≢◌, refl, sym, ap, ◌∙◌, ◌⊎◌, inl, inr, arith,
}
use audit_logging.Common.Int.{pos}
use audit_logging.Text.{Text}
use audit_logging.Text.Space.{trim_space}
use audit_logging.Text.Equal.{Lacks, Text-cases, append_cancel_left}
use audit_logging.Text.Hex.{hex_encode}
use audit_logging.Text.Decimal.{
  format_uint, format_int, format_uint-All, parse_uint, parse_uint-format_uint, max_int64,
}
use audit_logging.Forwarder.Delivery.{compute_idempotency_key}

-- Two texts that give one key.
pub record KeyCollision (digest : Text → List ℕ) : Type 0 where
  pub one : Text
  pub other : Text
  pub differ : one ≢ other
  pub same_key : hex_encode (digest one) ≡ hex_encode (digest other)

-- A text is cut in one way at the first `c`.
cut_first :
    (c : ℕ) (a b s t : Text)
    → Lacks c a
    → Lacks c b
    → a ++ (c ∷ s) ≡ b ++ (c ∷ t)
    → (a ≡ b) × (s ≡ t)
cut_first c [] [] s t ha hb e = (refl, cc)
cut_first c [] (y ∷ b) s t ha hb e = absurd (hb.0 (cc))
cut_first c (x ∷ a) [] s t ha hb e = absurd (ha.0 (cc))
cut_first c (x ∷ a) (y ∷ b) s t ha hb e = let (p, q) = cut_first c a b s t ha.1 hb.1 (cc) in (cc, q)

format_uint-Lacks : (n : ℕ) → Lacks b'|' (format_uint n)
format_uint-Lacks n = format_uint-All (λ x. x ≢ b'|') (λ d h. omega arith) n

format_uint-injective :
    (m n : ℕ) → m ≤ max_int64 → n ≤ max_int64 → format_uint m ≡ format_uint n → m ≡ n
format_uint-injective m n h k e =
    ap (λ x. x.0)
      (sym (parse_uint-format_uint m (omega arith))
        ∙ (ap parse_uint e ∙ parse_uint-format_uint n (omega arith)))

tail_of : (c : ℕ) (s t : Text) → (c ∷ s) ≡ (c ∷ t) → s ≡ t
tail_of c s t h = cc

-- Within one application and file, two lines with one idempotency key are, up to their margins, one
-- line at one offset, or two different texts have one digest. An offset is an int64 that is not
-- negative.
pub compute_idempotency_key-injective :
    (digest : Text → List ℕ) (app file line line' : Text) (m n : ℕ) (m_small : m ≤ max_int64)
    (n_small : n ≤ max_int64)
    (same : compute_idempotency_key digest app file (pos m) line
      ≡ compute_idempotency_key digest app file (pos n) line')
    → ((m ≡ n) × (trim_space line ≡ trim_space line')) ⊎ KeyCollision digest
unfolding compute_idempotency_key format_int
compute_idempotency_key-injective digest app file line line' m n m_small n_small same =
    let text = λ (k : ℕ) (l : Text).
      app ++ (b'|' ∷ (file ++ (b'|' ∷ (format_uint k ++ (b'|' ∷ trim_space l))))) in
    elim (Text-cases (text m line) (text n line')) [
      | inr h ↦
          inr (record { one = text m line; other = text n line'; differ = h; same_key = same })
      | inl h ↦
          let behind_app = append_cancel_left app _ _ h in
          let behind_file = append_cancel_left file _ _ (tail_of _ _ _ behind_app) in
          let (offsets, lines) =
            cut_first b'|' (format_uint m) (format_uint n) (trim_space line) (trim_space line')
              (format_uint-Lacks m) (format_uint-Lacks n) (tail_of _ _ _ behind_file) in
          inl (format_uint-injective m n m_small n_small offsets, lines)
    ]
