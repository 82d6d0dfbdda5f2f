-- ===== src/Forwarder/Follower/Changes/Keeps.antt =====
-- cmd/log-forwarder/follower.go: a statement on the state that the callback and the save keep is kept by
-- all of Run. The statement may depend on whether the work has stopped with an error.
use audit_logging.Common.{
  ℕ, [], List, ◌∷◌, ◌++◌, refl, subst, Bool-cases, Option, none, some, Option-cases, inl, inr, ◌==◌,
  ◌+◌, length,
}
use audit_logging.Common.Int.{ℤ, pos, ltb_ℤ, add_int64}
use audit_logging.Text.{Text}
use audit_logging.Server.Model.{Error, Result, ok, err, Stream}
use audit_logging.Forwarder.Config.{Config}
use audit_logging.Forwarder.Checkpoint.{Checkpoint}
use audit_logging.Forwarder.Follower.{
  FileIdentity, same_file, Follower, TailEvent, Sink, Ran, newline, emit, read_available,
  unless_stopped, checkpoint_at,
}
use audit_logging.Forwarder.Follower.Bytes.{by_byte, by_byte-newline, by_byte-other, behind}
use audit_logging.Forwarder.Follower.Chunks.{first_error}
use audit_logging.Forwarder.Follower.Reads.{read_available-Agree, ending_of, bytes_of}
use audit_logging.Forwarder.Follower.Changes.{
  Look, Poll, Opened, start_over, truncated, reopened, rotated, compare_file, look_at,
  handle_file_changes, poll_once, run_polls, open_file_with_identity, stat_file_with_identity,
}
use audit_logging.Forwarder.Follower.Changes.Laws.{
  IsSound, ran, going_on, read_available-IsSound, poll_once-IsSound,
}

-- What is kept: by the callback, by the save, and by an error that changes nothing.
pub record Kept {S : Type 0} (e : Sink S) (Q : Option Error → S → Type 0) : Type 0 where
  pub by_line : (ev : TailEvent) (s : S) → Q none s → Q (e.on_line ev s).0 (e.on_line ev s).1
  pub by_save :
      (path : Text) (cp : Checkpoint) (s : S)
      → Q none s
      → Q (e.save path cp s).0 (e.save path cp s).1
  pub weaken : (er : Error) (s : S) → Q none s → Q (some er) s

module _ {S : Type 0} (e : Sink S) (cfg : Config) (Q : Option Error → S → Type 0)
    (k : Kept e Q) where
  -- The callback's answer, and then the save.
  saved :
      (cp : Checkpoint) (p : Option Error × S)
      → Q p.0 p.1
      → Q
          (elim p.0 as (λ _. Option Error × S) [
            | some er ↦ (some er, p.1)
            | none ↦ e.save cfg.checkpoint_path cp p.1
          ]).0
          (elim p.0 as (λ _. Option Error × S) [
            | some er ↦ (some er, p.1)
            | none ↦ e.save cfg.checkpoint_path cp p.1
          ]).1
  saved cp (none, s) h = k.by_save cfg.checkpoint_path cp s h
  saved cp (some er, s) h = h

  emitted :
      (id : FileIdentity) (offset : ℤ) (line : List ℕ) (s : S)
      → Q none s
      → Q (emit e cfg id offset line s).0 (emit e cfg id offset line s).1
  unfolding emit
  emitted id offset line s h = saved (checkpoint_at cfg id offset) _ (k.by_line _ s h)

  behind-kept :
      (id : FileIdentity) (c : ℤ) (bs : List ℕ) (p : Option Error × S)
      → Q p.0 p.1
      → ((s : S)
          → Q none s
          → Q (by_byte e cfg id bs c [] s).stopped (by_byte e cfg id bs c [] s).state)
      → Q (behind e cfg id p c bs).stopped (behind e cfg id p c bs).state
  behind-kept id c bs (none, s) h rest = rest s h
  behind-kept id c bs (some er, s) h rest = h

  nothing_read :
      (id : FileIdentity) (acc : List ℕ) (c : ℤ) (s : S)
      → Q none s
      → Q (by_byte e cfg id [] c acc s).stopped (by_byte e cfg id [] c acc s).state
  unfolding by_byte
  nothing_read id acc c s h = h

  by_byte-kept :
      (id : FileIdentity) (bs acc : List ℕ) (c : ℤ) (s : S)
      → Q none s
      → Q (by_byte e cfg id bs c acc s).stopped (by_byte e cfg id bs c acc s).state
  by_byte-kept id [] acc c s h = nothing_read id acc c s h
  by_byte-kept id (b ∷ bs) acc c s h = elim (Bool-cases (b == newline)) [
    | inr g ↦
        rw (by_byte-other e cfg id b bs acc c s g) (by_byte-kept id bs (acc ++ (b ∷ [])) c s h)
    | inl g ↦
        let c' = add_int64 c (pos (length acc + 1)) in
        rw (by_byte-newline e cfg id b bs acc c s g) (
          behind-kept id c' bs (emit e cfg id c' acc s) (emitted id c' acc s h)
            (λ s'. λ h'. by_byte-kept id bs [] c' s' h'))
  ]

  ended : (o ending : Option Error) (s : S) → Q o s → Q (first_error o ending) s
  ended none none s h = h
  ended none (some er) s h = k.weaken er s h
  ended (some er) ending s h = h

  read_available-kept :
      (reads : Stream (List ℕ)) (f : Follower) (s : S)
      → IsSound (ran none f s)
      → Q none s
      → Q (read_available e cfg reads f s).stopped (read_available e cfg reads f s).state
  read_available-kept reads f s sound h =
      let a = read_available-Agree e cfg reads f s (sound.is_open refl) (sound.no_line refl) in
      rw (a.stopped, a.state)
        (ended _ (ending_of reads) _
          (by_byte-kept f.identity (bytes_of reads) f.pending f.committed_offset s h))

  unless_stopped-kept :
      (next : Follower → S → Ran S) (r : Ran S)
      → IsSound r
      → Q r.stopped r.state
      → ((f : Follower) (s : S)
          → IsSound (ran none f s)
          → Q none s
          → Q (next f s).stopped (next f s).state)
      → Q (unless_stopped e cfg next r).stopped (unless_stopped e cfg next r).state
  unless_stopped-kept next r sound h rest = elim (Option-cases r.stopped) [
    | inr (er, g) ↦ rw g (subst (λ o. Q o r.state) g h)
    | inl g ↦
        rw g (rest r.follower r.state (going_on e cfg r sound g) (subst (λ o. Q o r.state) g h))
  ]

  started :
      (id : FileIdentity) (s : S)
      → Q none s
      → Q (start_over e cfg id s).stopped (start_over e cfg id s).state
  unfolding start_over
  started id s h = k.by_save cfg.checkpoint_path (checkpoint_at cfg id (pos 0)) s h

  reopened-kept :
      (file : Result Opened) (f : Follower) (s : S)
      → Q none s
      → Q (reopened e cfg file f s).stopped (reopened e cfg file f s).state
  unfolding reopened
  reopened-kept (err er) f s h = k.weaken er s h
  reopened-kept (ok file) f s h = started file.identity s h

  truncated-kept :
      (l : Look) (f : Follower) (s : S)
      → Q none s
      → Q (truncated e cfg l f s).stopped (truncated e cfg l f s).state
  unfolding truncated
  truncated-kept l f s h = elim (Option-cases l.seek_error) [
    | inl g ↦ rw (truncated, g) (started f.identity s h)
    | inr (er, g) ↦ rw (truncated, g) (k.weaken _ s h)
  ]

  compare_file-kept :
      (l : Look) (file : Opened) (f : Follower) (s : S)
      → IsSound (ran none f s)
      → Q none s
      → Q (compare_file e cfg l file f s).stopped (compare_file e cfg l file f s).state
  unfolding compare_file rotated
  compare_file-kept l file f s sound h = elim (Bool-cases (same_file file.identity f.identity)) [
    | inl g ↦ elim (Bool-cases (ltb_ℤ file.size f.read_offset)) [
      | inl m ↦ rw (g, m) (truncated-kept l f s h)
      | inr m ↦ rw (g, m) h
    ]
    | inr g ↦ rw g (
        unless_stopped-kept
          (λ f'. λ s'. reopened e cfg (open_file_with_identity l.open_error l.info) f' s')
          (read_available e cfg l.remaining f s)
          (read_available-IsSound e cfg l.remaining f s sound)
          (read_available-kept l.remaining f s sound h)
          (λ f'.
            λ s'. λ _. λ h'. reopened-kept (open_file_with_identity l.open_error l.info) f' s' h'))
  ]

  look_at-kept :
      (l : Look) (seen : Option (Result Opened)) (f : Follower) (s : S)
      → IsSound (ran none f s)
      → Q none s
      → Q (look_at e cfg l seen f s).stopped (look_at e cfg l seen f s).state
  unfolding look_at
  look_at-kept l none f s sound h = h
  look_at-kept l (some (err er)) f s sound h = k.weaken er s h
  look_at-kept l (some (ok file)) f s sound h = compare_file-kept l file f s sound h

  poll_once-kept :
      (p : Poll) (f : Follower) (s : S)
      → IsSound (ran none f s)
      → Q none s
      → Q (poll_once e cfg p f s).stopped (poll_once e cfg p f s).state
  unfolding poll_once handle_file_changes
  poll_once-kept p f s sound h =
      unless_stopped-kept (λ f'. λ s'. handle_file_changes e cfg p.look f' s')
        (read_available e cfg p.reads f s) (read_available-IsSound e cfg p.reads f s sound)
        (read_available-kept p.reads f s sound h)
        (λ f'. λ s'. look_at-kept p.look (stat_file_with_identity p.look.stat) f' s')

  pub run_polls-kept :
      (ps : List Poll) (f : Follower) (s : S)
      → IsSound (ran none f s)
      → Q none s
      → Q (run_polls e cfg ps f s).stopped (run_polls e cfg ps f s).state
  unfolding run_polls
  run_polls-kept [] f s sound h = h
  run_polls-kept (p ∷ ps) f s sound h =
      unless_stopped-kept (λ f'. λ s'. run_polls e cfg ps f' s') (poll_once e cfg p f s)
        (poll_once-IsSound e cfg p f s sound) (poll_once-kept p f s sound h)
        (λ f'. λ s'. run_polls-kept ps f' s')
