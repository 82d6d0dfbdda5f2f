-- ===== src/Forwarder/Follower/Offsets.antt =====
-- cmd/log-forwarder/follower.go: the offsets, which count every byte that was read once.
use audit_logging.Common.{
  ℕ, zero, suc, ◌+◌, ◌<◌, [], List, ◌∷◌, ◌++◌, length, length-append, length-drop, take, drop, ◌≡◌,
  refl, sym, ◌∙◌, Option, none, some, Option-cases, Bool-cases, inl, inr, arith, ap, ◌^◌, ◌%◌,
}
use audit_logging.Forwarder.Follower.Chunks.{cut_at, drain-none, drain-some, index_bound}
use audit_logging.Common.Int.{ℤ, pos, add_int64, word_of, int64_of}
use audit_logging.Server.Model.{Error, Stream, eof, broken, more}
use audit_logging.Forwarder.Config.{Config}
use audit_logging.Forwarder.Follower.{
  Follower, Sink, Ran, newline, index_byte, emit, drain, after_line, take_chunk, unless_stopped,
  read_on, read_available,
}

word_of-int64_of : (n : ℕ) → word_of (int64_of n) ≡ n % 2 ^ 64
word_of-int64_of n = ground arith

int64_of_cong : (m n : ℕ) → m % 2 ^ 64 ≡ n % 2 ^ 64 → int64_of m ≡ int64_of n
int64_of_cong m n h = rw h refl

remainders :
    (x a b : ℕ)
    → ((x + a % 2 ^ 64) % 2 ^ 64 + b % 2 ^ 64) % 2 ^ 64 ≡ (x + (a + b) % 2 ^ 64) % 2 ^ 64
remainders x a b = omega arith

pub add_int64-add_int64 :
    (c : ℤ) (a b : ℕ) → add_int64 (add_int64 c (pos a)) (pos b) ≡ add_int64 c (pos (a + b))
unfolding add_int64
add_int64-add_int64 c a b = rw (word_of-int64_of (word_of c + word_of (pos a))) (
    int64_of_cong ((word_of c + a % 2 ^ 64) % 2 ^ 64 + b % 2 ^ 64) (word_of c + (a + b) % 2 ^ 64)
      (remainders (word_of c) a b))

-- What is read is what is committed and what waits for its line end.
unfoldable pub Consistent : Follower → Type 0
Consistent f = f.read_offset ≡ add_int64 f.committed_offset (pos (length f.pending))

cut_at-Consistent :
    (i : ℕ) (f : Follower) → i < length f.pending → Consistent f → Consistent (cut_at i f)
unfolding Consistent
cut_at-Consistent i f b h =
    h
    ∙ sym (
        add_int64-add_int64 f.committed_offset (suc i) (length (drop (suc i) f.pending))
        ∙ ap (λ n. add_int64 f.committed_offset (pos n))
            (omega (arith, b, length-drop (suc i) f.pending)))

chunk-Consistent :
    (chunk : List ℕ) (f : Follower)
    → Consistent f
    → Consistent (record f {
      read_offset = add_int64 f.read_offset (pos (length chunk));
      pending = f.pending ++ chunk;
    })
unfolding Consistent
chunk-Consistent chunk f h =
    rw
      (
        h,
        add_int64-add_int64 f.committed_offset (length f.pending) (length chunk),
        length-append f.pending chunk,
      )
      refl

module _ {S : Type 0} (e : Sink S) (cfg : Config) where
  after_line-Consistent :
      (next : Follower → S → Ran S) (f : Follower) (p : Option Error × S)
      (rest : (f : Follower) (s : S) → Consistent f → Consistent (next f s).follower)
      → Consistent f
      → Consistent (after_line e cfg next f p).follower
  after_line-Consistent next f (none, s) rest h = rest f s h
  after_line-Consistent next f (some er, s) rest h = h

  drain-Consistent :
      (n : ℕ) (f : Follower) (s : S) → Consistent f → Consistent (drain e cfg n f s).follower
  unfolding drain
  drain-Consistent zero f s h = h
  drain-Consistent (suc n) f s h = elim (Option-cases (index_byte newline f.pending)) [
    | inl g ↦ rw (drain-none e cfg (suc n) f s g) h
    | inr (i, g) ↦ rw (drain-some e cfg n f s i g) (
        after_line-Consistent (λ f'. λ s'. drain e cfg n f' s') (cut_at i f)
          (emit e cfg f.identity (cut_at i f).committed_offset (take i f.pending) s)
          (λ f'. λ s'. λ h'. drain-Consistent n f' s' h')
          (cut_at-Consistent i f (index_bound f.pending i g) h))
  ]

  unless_stopped-Consistent :
      (next : Follower → S → Ran S) (r : Ran S)
      (rest : (f : Follower) (s : S) → Consistent f → Consistent (next f s).follower)
      → Consistent r.follower
      → Consistent (unless_stopped e cfg next r).follower
  unless_stopped-Consistent next r rest h = elim (Option-cases r.stopped) [
    | inl g ↦ rw g (rest r.follower r.state h)
    | inr (er, g) ↦ rw g h
  ]

  read_on-Consistent :
      (reads : Stream (List ℕ)) (f : Follower) (s : S)
      → Consistent f
      → Consistent (read_on e cfg reads f s).follower
  unfolding read_on take_chunk
  read_on-Consistent eof f s h = h
  read_on-Consistent (broken er) f s h = h
  read_on-Consistent (more [] rest) f s h = read_on-Consistent rest f s h
  read_on-Consistent (more (b ∷ bs) rest) f s h =
      unless_stopped-Consistent (λ f'. λ s'. read_on e cfg rest f' s')
        (take_chunk e cfg (b ∷ bs) f s) (λ f'. λ s'. λ h'. read_on-Consistent rest f' s' h')
        (drain-Consistent (length (f.pending ++ (b ∷ bs)))
          (record f {
            read_offset = add_int64 f.read_offset (pos (length (b ∷ bs)));
            pending = f.pending ++ (b ∷ bs);
          })
          s (chunk-Consistent (b ∷ bs) f h))

  pub read_available-Consistent :
      (reads : Stream (List ℕ)) (f : Follower) (s : S)
      → Consistent f
      → Consistent (read_available e cfg reads f s).follower
  unfolding read_available
  read_available-Consistent reads f s h = elim (Bool-cases f.is_open) [
    | inl g ↦ simp g (read_on-Consistent reads f s h)
    | inr g ↦ simp g h
  ]
