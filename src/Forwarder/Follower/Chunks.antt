-- ===== src/Forwarder/Follower/Chunks.antt =====
-- cmd/log-forwarder/follower.go: readAvailable against the machine that takes one byte at a time.
use audit_logging.Common.{
  ℕ, zero, suc, ◌≤◌, ◌<◌, [], List, ◌∷◌, ◌++◌, length, length-drop, take, drop, ◌≡◌, refl, ◌∙◌,
  Bool, Option, none, some, Option-cases, inl, inr, ◌⊎◌, arith,
}
use audit_logging.Common.Int.{pos, add_int64}
use audit_logging.Server.Model.{Error}
use audit_logging.Forwarder.Config.{Config}
use audit_logging.Forwarder.Follower.{
  FileIdentity, Follower, Sink, Ran, newline, index_byte, emit, drain, round, after_line,
  take_chunk,
}
use audit_logging.Forwarder.Follower.Bytes.{
  Tail, index_nil, index_some, by_byte, by_byte-none, by_byte-line, by_byte_pending, behind,
}

-- the first of two errors
abbrev pub first_error : Option Error → Option Error → Option Error
first_error none e = e
first_error (some e) _ = some e

-- The reading and the machine agree: on the error, with the one that the reads end with, on the state,
-- on the offset, and, where no line was refused, on the bytes that wait.
pub record Agree {S : Type 0} (opened : Bool) (id : FileIdentity) (ending : Option Error)
    (r : Ran S) (t : Tail S) : Type 0 where
  pub stopped : r.stopped ≡ first_error t.stopped ending
  pub state : r.state ≡ t.state
  pub committed : r.follower.committed_offset ≡ t.committed
  pub identity : r.follower.identity ≡ id
  pub is_open : r.follower.is_open ≡ opened
  pub pending : t.stopped ≡ none → r.follower.pending ≡ t.pending
  pub cut : t.stopped ≡ none → index_byte newline r.follower.pending ≡ none

-- the follower behind a line that ends at the index
abbrev pub cut_at : ℕ → Follower → Follower
cut_at i f = record f {
  pending = drop (suc i) f.pending;
  committed_offset = add_int64 f.committed_offset (pos (suc i));
}

pair_cases {ℓ} :
    {S : Type ℓ} (p : Option Error × S)
    → ((s : S) × (p ≡ (none, s))) ⊎ ((er : Error) × (s : S) × (p ≡ (some er, s)))
pair_cases (none, s) = inl (s, refl)
pair_cases (some er, s) = inr (er, s, refl)

pub index_bound : (p : List ℕ) (i : ℕ) → index_byte newline p ≡ some i → i < length p
index_bound [] i h = absurd (index_nil i h)
index_bound (b ∷ p) i h = elim (index_some b p i h) [
  | inl (g, k) ↦ omega (arith, k)
  | inr (g, (j, k, l)) ↦ omega (arith, l, index_bound p j k)
]

no_byte : (p : List ℕ) → length p ≤ 0 → index_byte newline p ≡ none
no_byte p b = elim (Option-cases (index_byte newline p)) [
  | inl h ↦ h
  | inr (i, h) ↦ absurd (omega (arith, b, index_bound p i h))
]

module _ {S : Type 0} (e : Sink S) (cfg : Config) where
  drain-suc :
      (n : ℕ) (f : Follower) (s : S)
      → drain e cfg (suc n) f s
        ≡ round e cfg (λ f'. λ s'. drain e cfg n f' s') f s (index_byte newline f.pending)
  unfolding drain
  drain-suc n f s = refl

  round-none :
      (next : Follower → S → Ran S) (f : Follower) (s : S)
      → round e cfg next f s none ≡ record { stopped = none; follower = f; state = s }
  unfolding round
  round-none next f s = refl

  round-some :
      (next : Follower → S → Ran S) (f : Follower) (s : S) (i : ℕ)
      → round e cfg next f s (some i)
        ≡ after_line e cfg next
            (cut_at i f)
            (emit e cfg f.identity (cut_at i f).committed_offset (take i f.pending) s)
  unfolding round
  round-some next f s i = refl

  drain-zero :
      (f : Follower) (s : S)
      → drain e cfg zero f s ≡ record { stopped = none; follower = f; state = s }
  unfolding drain
  drain-zero f s = refl

  pub drain-none :
      (n : ℕ) (f : Follower) (s : S)
      → index_byte newline f.pending ≡ none
      → drain e cfg n f s ≡ record { stopped = none; follower = f; state = s }
  drain-none zero f s h = drain-zero f s
  drain-none (suc n) f s h =
      drain-suc n f s ∙ rw h (round-none (λ f'. λ s'. drain e cfg n f' s') f s)

  pub drain-some :
      (n : ℕ) (f : Follower) (s : S) (i : ℕ)
      → index_byte newline f.pending ≡ some i
      → drain e cfg (suc n) f s
        ≡ after_line e cfg
            (λ f'. λ s'. drain e cfg n f' s')
            (cut_at i f)
            (emit e cfg f.identity (cut_at i f).committed_offset (take i f.pending) s)
  drain-some n f s i h = drain-suc n f s ∙ rw h (round-some (λ f'. λ s'. drain e cfg n f' s') f s i)

  -- A line that is there, when the rounds behind it agree.
  line-Agree :
      (next : Follower → S → Ran S) (f : Follower) (i : ℕ) (p : Option Error × S)
      (agree : (s : S)
        → Agree f.is_open f.identity none
            (next (cut_at i f) s)
            (by_byte e cfg f.identity (cut_at i f).pending (cut_at i f).committed_offset [] s))
      → Agree f.is_open f.identity none
          (after_line e cfg next (cut_at i f) p)
          (behind e cfg f.identity p (cut_at i f).committed_offset (cut_at i f).pending)
  line-Agree next f i (none, s) agree = agree s
  line-Agree next f i (some er, s) agree = record {
    stopped = refl;
    state = refl;
    committed = refl;
    identity = refl;
    is_open = refl;
    pending = λ h. absurd cc;
    cut = λ h. absurd cc;
  }

  drained-Agree :
      (n : ℕ) (f : Follower) (s : S)
      → index_byte newline f.pending ≡ none
      → Agree f.is_open f.identity none
          (drain e cfg n f s)
          (by_byte e cfg f.identity f.pending f.committed_offset [] s)
  drained-Agree n f s h =
      rw (drain-none n f s h, by_byte-none e cfg f.identity f.pending [] f.committed_offset s h)
        (record {
          stopped = refl;
          state = refl;
          committed = refl;
          identity = refl;
          is_open = refl;
          pending = λ _. refl;
          cut = λ _. h;
        })

  -- With a round for each pending byte.
  drain-Agree :
      (n : ℕ) (f : Follower) (s : S)
      → length f.pending ≤ n
      → Agree f.is_open f.identity none
          (drain e cfg n f s)
          (by_byte e cfg f.identity f.pending f.committed_offset [] s)
  drain-Agree zero f s b = drained-Agree zero f s (no_byte f.pending b)
  drain-Agree (suc n) f s b = elim (Option-cases (index_byte newline f.pending)) [
    | inl h ↦ drained-Agree (suc n) f s h
    | inr (i, h) ↦
        rw (drain-some n f s i h, by_byte-line e cfg f.identity f.pending f.committed_offset s i h)
          (line-Agree (λ f'. λ s'. drain e cfg n f' s') f i
            (emit e cfg f.identity (cut_at i f).committed_offset (take i f.pending) s)
            (λ s'. drain-Agree n (cut_at i f) s' (omega (arith, b, length-drop (suc i) f.pending))))
  ]

  pub take_chunk-Agree :
      (chunk : List ℕ) (f : Follower) (s : S)
      → index_byte newline f.pending ≡ none
      → Agree f.is_open f.identity none
          (take_chunk e cfg chunk f s)
          (by_byte e cfg f.identity chunk f.committed_offset f.pending s)
  unfolding take_chunk
  take_chunk-Agree chunk f s h =
      rw⁻¹ (by_byte_pending e cfg f.identity f.pending chunk f.committed_offset s h) (
        drain-Agree (length (f.pending ++ chunk))
          (record f {
            read_offset = add_int64 f.read_offset (pos (length chunk));
            pending = f.pending ++ chunk;
          })
          s (omega arith))
