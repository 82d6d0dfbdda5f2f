-- ===== src/Forwarder/Follower/Stored.antt =====
-- cmd/log-forwarder/follower.go: the checkpoint that the store holds behind the lines that were handed on.
use audit_logging.Common.{
  ℕ, ◌+◌, ◌^◌, ◌<◌, [], List, ◌∷◌, ◌++◌, length, length-append, ◌≡◌, refl, sym, ◌∙◌, ap, false,
  Bool-cases, Option, none, some, ◌==◌, inl, inr, arith,
}
use audit_logging.Common.Int.{ℤ, pos, ltb_ℤ}
use audit_logging.Text.{Text}
use audit_logging.Server.Model.{Error, Result, ok}
use audit_logging.Forwarder.Config.{Config}
use audit_logging.Forwarder.Checkpoint.{Checkpoint}
use audit_logging.Forwarder.Follower.{FileIdentity, Sink, TailEvent, newline, emit, checkpoint_at}
use audit_logging.Forwarder.Follower.Bytes.{by_byte, by_byte-other, behind, snoc_append}
use audit_logging.Forwarder.Follower.Progress.{newline_at}

-- Two checkpoints of one place; the time of a checkpoint does not count.
pub record SamePlace (cp cp' : Checkpoint) : Type 0 where
  pub file_path : cp.file_path ≡ cp'.file_path
  pub offset : cp.offset ≡ cp'.offset
  pub dev : cp.dev ≡ cp'.dev
  pub inode : cp.inode ≡ cp'.inode

-- The store of the checkpoint that the callbacks keep: `load` is what LoadCheckpoint gives. A callback on a
-- line leaves it, and a save without an error, at an offset that is not negative, sets it.
pub record Stores {S : Type 0} (e : Sink S) (load : S → Result Checkpoint) : Type 0 where
  pub by_line : (ev : TailEvent) (s : S) → load (e.on_line ev s).1 ≡ load s
  pub by_save :
      (path : Text) (cp : Checkpoint) (s : S)
      → ltb_ℤ cp.offset (pos 0) ≡ false
      → (e.save path cp s).0 ≡ none
      → (cp' : Checkpoint) × (load (e.save path cp s).1 ≡ ok cp') × SamePlace cp' cp

module _ {S : Type 0} (e : Sink S) (cfg : Config) (id : FileIdentity) (load : S → Result Checkpoint)
    (k : Stores e load) where
  -- The store holds the checkpoint of the file at an offset.
  abbrev pub StoredAt : ℤ → S → Type 0
  StoredAt c s = (cp : Checkpoint) × (load s ≡ ok cp) × SamePlace cp (checkpoint_at cfg id c)

  saved :
      (n : ℕ) (p : Option Error × S)
      → (elim p.0 as (λ _. Option Error × S) [
        | some er ↦ (some er, p.1)
        | none ↦ e.save cfg.checkpoint_path (checkpoint_at cfg id (pos n)) p.1
      ]).0
        ≡ none
      → StoredAt
          (pos n)
          (elim p.0 as (λ _. Option Error × S) [
            | some er ↦ (some er, p.1)
            | none ↦ e.save cfg.checkpoint_path (checkpoint_at cfg id (pos n)) p.1
          ]).1
  saved n (none, s) h =
      k.by_save cfg.checkpoint_path (checkpoint_at cfg id (pos n)) s (ground arith) h
  saved n (some er, s) h = absurd cc

  emitted :
      (n : ℕ) (line : List ℕ) (s : S)
      → (emit e cfg id (pos n) line s).0 ≡ none
      → StoredAt (pos n) (emit e cfg id (pos n) line s).1
  unfolding emit
  emitted n line s h = saved n _ h

  behind-StoredAt :
      (n : ℕ) (bs : List ℕ) (p : Option Error × S)
      → (p.0 ≡ none → StoredAt (pos n) p.1)
      → ((s : S)
          → StoredAt (pos n) s
          → (by_byte e cfg id bs (pos n) [] s).stopped ≡ none
          → StoredAt
              (by_byte e cfg id bs (pos n) [] s).committed
              (by_byte e cfg id bs (pos n) [] s).state)
      → (behind e cfg id p (pos n) bs).stopped ≡ none
      → StoredAt (behind e cfg id p (pos n) bs).committed (behind e cfg id p (pos n) bs).state
  behind-StoredAt n bs (some er, s) now rest h = absurd cc
  behind-StoredAt n bs (none, s) now rest h = rest s (now refl) h

  nil-StoredAt :
      (acc : List ℕ) (n : ℕ) (s : S)
      → StoredAt (pos n) s
      → StoredAt
          (by_byte e cfg id [] (pos n) acc s).committed
          (by_byte e cfg id [] (pos n) acc s).state
  unfolding by_byte
  nil-StoredAt acc n s h = h

  pub by_byte-StoredAt :
      (bs acc : List ℕ) (n : ℕ) (s : S)
      → n + length (acc ++ bs) < 2 ^ 63
      → StoredAt (pos n) s
      → (by_byte e cfg id bs (pos n) acc s).stopped ≡ none
      → StoredAt
          (by_byte e cfg id bs (pos n) acc s).committed
          (by_byte e cfg id bs (pos n) acc s).state
  by_byte-StoredAt [] acc n s bound h g = nil-StoredAt acc n s h
  by_byte-StoredAt (b ∷ bs) acc n s bound h g = elim (Bool-cases (b == newline)) [
    | inr o ↦
        let q = by_byte-other e cfg id b bs acc (pos n) s o in
        rw q (
          by_byte-StoredAt bs (acc ++ (b ∷ [])) n s (rw (snoc_append acc b bs) bound) h
            (ap (λ t. t.stopped) (sym q) ∙ g))
    | inl o ↦
        let q = newline_at e cfg id b bs acc n s bound o in
        let m = n + (length acc + 1) in
        rw q (
          behind-StoredAt m bs (emit e cfg id (pos m) acc s) (emitted m acc s)
            (λ s' h' g'.
              by_byte-StoredAt bs [] m s' (omega (arith, bound, length-append acc (b ∷ bs))) h' g')
            (ap (λ t. t.stopped) (sym q) ∙ g))
  ]
