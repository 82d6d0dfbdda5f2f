-- ===== src/Forwarder/Follower/Bytes.antt =====
-- The description that the reading of cmd/log-forwarder/follower.go is held against: a machine that
-- takes one byte at a time and knows nothing of buffers.
use audit_logging.Common.{
  ℕ, suc, ◌+◌, [], List, ◌∷◌, ◌++◌, append_assoc, append-nil, length, length-append, take, drop,
  ◌≡◌, refl, ◌∙◌, true, false, Bool-cases, Option, none, some, Option-cases, ◌==◌, if◌then◌else◌,
  inl, inr, arith, ◌≢◌, ◌⊎◌,
}
use audit_logging.Common.Int.{ℤ, pos, add_int64}
use audit_logging.Server.Model.{Error}
use audit_logging.Forwarder.Config.{Config}
use audit_logging.Forwarder.Follower.{FileIdentity, Sink, newline, index_byte, emit}

-- Where the machine stands: its error, the offset behind the last line end, the bytes after it.
pub record Tail (S : Type 0) : Type 0 where
  pub stopped : Option Error
  pub committed : ℤ
  pub pending : List ℕ
  pub state : S

index_none :
    (b : ℕ) (bs : List ℕ)
    → index_byte newline (b ∷ bs) ≡ none
    → ((b == newline) ≡ false) × (index_byte newline bs ≡ none)
unfolding index_byte
index_none b bs h = ground arith

pub index_nil : (i : ℕ) → index_byte newline [] ≢ some i
unfolding index_byte
index_nil i h = cc

pub index_some :
    (b : ℕ) (bs : List ℕ) (i : ℕ)
    → index_byte newline (b ∷ bs) ≡ some i
    → (((b == newline) ≡ true) × (i ≡ 0))
      ⊎ (((b == newline) ≡ false) × ((j : ℕ) × (index_byte newline bs ≡ some j) × (i ≡ suc j)))
unfolding index_byte
index_some b bs i h = elim (Bool-cases (b == newline)) [
  | inl g ↦ inl (g, ground (arith, g, h))
  | inr g ↦ elim (Option-cases (index_byte newline bs)) [
    | inl k ↦ absurd (ground (arith, g, h, k))
    | inr (j, k) ↦ inr (g, (j, k, ground (arith, g, h, k)))
  ]
]

pub snoc_append {ℓ} :
    {A : Type ℓ} (xs : List A) (y : A) (ys : List A) → (xs ++ (y ∷ [])) ++ ys ≡ xs ++ (y ∷ ys)
snoc_append xs y ys = append_assoc xs (y ∷ []) ys

pub length-snoc {ℓ} : {A : Type ℓ} (xs : List A) (y : A) → length (xs ++ (y ∷ [])) ≡ length xs + 1
length-snoc xs y = omega (arith, length-append xs (y ∷ []))

sums : (acc : List ℕ) (b j : ℕ) → length (acc ++ (b ∷ [])) + suc j ≡ length acc + suc (suc j)
sums acc b j = omega (arith, length-snoc acc b)

zero_plus : (n : ℕ) → 0 + n ≡ n
zero_plus n = omega arith

module _ {S : Type 0} (e : Sink S) (cfg : Config) (id : FileIdentity) where
  unfoldable pub by_byte : List ℕ → ℤ → List ℕ → S → Tail S
  by_byte [] c acc s = record { stopped = none; committed = c; pending = acc; state = s }
  by_byte (b ∷ bs) c acc s =
      let c' = add_int64 c (pos (length acc + 1)) in
      let r = emit e cfg id c' acc s in
      let line_end : Tail S = elim r.0 [
        | some er ↦ record { stopped = some er; committed = c'; pending = []; state = r.1 }
        | none ↦ by_byte bs c' [] r.1
      ] in
      let other = by_byte bs c (acc ++ (b ∷ [])) s in if b == newline then line_end else other

  -- what follows a line that was handed on
  abbrev pub behind : Option Error × S → ℤ → List ℕ → Tail S
  behind r c bs = elim r.0 [
    | some er ↦ record { stopped = some er; committed = c; pending = []; state = r.1 }
    | none ↦ by_byte bs c [] r.1
  ]

  pub by_byte-newline :
      (b : ℕ) (bs acc : List ℕ) (c : ℤ) (s : S)
      → (b == newline) ≡ true
      → by_byte (b ∷ bs) c acc s
        ≡ behind
            (emit e cfg id (add_int64 c (pos (length acc + 1))) acc s)
            (add_int64 c (pos (length acc + 1)))
            bs
  unfolding by_byte
  by_byte-newline b bs acc c s h = rw h refl

  pub by_byte-other :
      (b : ℕ) (bs acc : List ℕ) (c : ℤ) (s : S)
      → (b == newline) ≡ false
      → by_byte (b ∷ bs) c acc s ≡ by_byte bs c (acc ++ (b ∷ [])) s
  unfolding by_byte
  by_byte-other b bs acc c s h = rw h refl

  -- without a line end
  pub by_byte-none :
      (bs acc : List ℕ) (c : ℤ) (s : S)
      → index_byte newline bs ≡ none
      → by_byte bs c acc s
        ≡ record { stopped = none; committed = c; pending = acc ++ bs; state = s }
  unfolding by_byte index_byte
  by_byte-none [] acc c s h = rw (append-nil acc) refl
  by_byte-none (b ∷ bs) acc c s h =
      let (g, k) = index_none b bs h in
      by_byte-other b bs acc c s g
      ∙ (by_byte-none bs (acc ++ (b ∷ [])) c s k ∙ rw (snoc_append acc b bs) refl)

  -- up to the first line end
  by_byte-some :
      (bs acc : List ℕ) (c : ℤ) (s : S) (i : ℕ)
      → index_byte newline bs ≡ some i
      → by_byte bs c acc s
        ≡ behind
            (emit e cfg id (add_int64 c (pos (length acc + suc i))) (acc ++ take i bs) s)
            (add_int64 c (pos (length acc + suc i)))
            (drop (suc i) bs)
  by_byte-some [] acc c s i h = absurd (index_nil i h)
  by_byte-some (b ∷ bs) acc c s i h = elim (index_some b bs i h) [
    | inl (g, k) ↦ by_byte-newline b bs acc c s g ∙ rw (k, append-nil acc) refl
    | inr (g, (j, k, l)) ↦
        by_byte-other b bs acc c s g
        ∙ (by_byte-some bs (acc ++ (b ∷ [])) c s j k
            ∙ rw (l, snoc_append acc b (take j bs), sums acc b j) refl)
  ]

  pub by_byte-line :
      (bs : List ℕ) (c : ℤ) (s : S) (i : ℕ)
      → index_byte newline bs ≡ some i
      → by_byte bs c [] s
        ≡ behind
            (emit e cfg id (add_int64 c (pos (suc i))) (take i bs) s)
            (add_int64 c (pos (suc i)))
            (drop (suc i) bs)
  by_byte-line bs c s i h = by_byte-some bs [] c s i h ∙ rw (zero_plus (suc i)) refl

  -- one read after the other
  abbrev pub then_bytes : List ℕ → Tail S → Tail S
  then_bytes ys t = elim t.stopped [ some er ↦ t | none ↦ by_byte ys t.committed t.pending t.state ]

  by_byte_nil :
      (ys acc : List ℕ) (c : ℤ) (s : S) → by_byte ys c acc s ≡ then_bytes ys (by_byte [] c acc s)
  unfolding by_byte
  by_byte_nil ys acc c s = refl

  behind-append :
      (xs ys : List ℕ) (r : Option Error × S) (c : ℤ)
      (shorter : (s : S) → by_byte (xs ++ ys) c [] s ≡ then_bytes ys (by_byte xs c [] s))
      → behind r c (xs ++ ys) ≡ then_bytes ys (behind r c xs)
  behind-append xs ys (some er, s) c shorter = refl
  behind-append xs ys (none, s) c shorter = shorter s

  pub by_byte-append :
      (xs ys acc : List ℕ) (c : ℤ) (s : S)
      → by_byte (xs ++ ys) c acc s ≡ then_bytes ys (by_byte xs c acc s)
  by_byte-append [] ys acc c s = by_byte_nil ys acc c s
  by_byte-append (b ∷ xs) ys acc c s = elim (Bool-cases (b == newline)) [
    | inl g ↦
        by_byte-newline b (xs ++ ys) acc c s g
        ∙ (behind-append xs ys (emit e cfg id (add_int64 c (pos (length acc + 1))) acc s)
              (add_int64 c (pos (length acc + 1)))
              (λ s'. by_byte-append xs ys [] (add_int64 c (pos (length acc + 1))) s')
            ∙ rw (by_byte-newline b xs acc c s g) refl)
    | inr g ↦
        by_byte-other b (xs ++ ys) acc c s g
        ∙ (by_byte-append xs ys (acc ++ (b ∷ [])) c s ∙ rw (by_byte-other b xs acc c s g) refl)
  ]

  -- bytes without a line end that were read before
  pub by_byte_pending :
      (acc xs : List ℕ) (c : ℤ) (s : S)
      → index_byte newline acc ≡ none
      → by_byte (acc ++ xs) c [] s ≡ by_byte xs c acc s
  by_byte_pending acc xs c s h = by_byte-append acc xs [] c s ∙ rw (by_byte-none acc [] c s h) refl
