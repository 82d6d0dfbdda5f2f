-- ===== src/Forwarder/Follower/Changes/Laws.antt =====
-- cmd/log-forwarder/follower.go: the well-formedness of a follower, which every round of Run keeps.
use audit_logging.Common.{
  ℕ, ◌+◌, [], List, ◌∷◌, ◌≡◌, refl, sym, ◌∙◌, true, false, Option, none, some, Option-cases,
  Bool-cases, inl, inr, arith,
}
use audit_logging.Common.Int.{ℤ, pos, ltb_ℤ, add_int64, word_of, int64_of}
use audit_logging.Server.Model.{Error, Result, ok, err, Stream}
use audit_logging.Forwarder.Config.{Config}
use audit_logging.Forwarder.Checkpoint.{about}
use audit_logging.Text.{codes}
use audit_logging.Forwarder.Follower.{
  FileIdentity, same_file, Follower, Sink, Ran, newline, index_byte, read_available, unless_stopped,
}
use audit_logging.Forwarder.Follower.Chunks.{first_error}
use audit_logging.Forwarder.Follower.Reads.{read_available-Agree, ending_of}
use audit_logging.Forwarder.Follower.Offsets.{Consistent, read_available-Consistent}
use audit_logging.Forwarder.Follower.Changes.{
  Look, Poll, Opened, at_offset, start_over, truncated, reopened, rotated, compare_file, look_at,
  handle_file_changes, poll_once, run_polls, open_file_with_identity, stat_file_with_identity,
}

-- The offsets are consistent, and, unless the work has stopped, the file is open and no whole line waits.
pub record IsSound {S : Type 0} (r : Ran S) : Type 0 where
  pub consistent : Consistent r.follower
  pub is_open : r.stopped ≡ none → r.follower.is_open ≡ true
  pub no_line : r.stopped ≡ none → index_byte newline r.follower.pending ≡ none

-- An int64 is what its word stands for.
unfoldable pub IsInt64 : ℤ → Type 0
IsInt64 n = int64_of (word_of n) ≡ n

plus_zero : (n : ℕ) → n + 0 ≡ n
plus_zero n = omega arith

pub at_offset-Consistent : (id : FileIdentity) (n : ℤ) → IsInt64 n → Consistent (at_offset id n)
unfolding Consistent add_int64 IsInt64
at_offset-Consistent id n h = rw (plus_zero (word_of n)) (sym h)

pub zero-IsInt64 : IsInt64 (pos 0)
unfolding IsInt64
zero-IsInt64 = refl

abbrev pub ran : {S : Type 0} → Option Error → Follower → S → Ran S
ran o f s = record { stopped = o; follower = f; state = s }

pub first_none : (a b : Option Error) → first_error a b ≡ none → a ≡ none
first_none none b h = refl
first_none (some er) b h = absurd cc

module _ {S : Type 0} (e : Sink S) (cfg : Config) where
  start_over-IsSound : (id : FileIdentity) (s : S) → IsSound (start_over e cfg id s)
  unfolding start_over index_byte
  start_over-IsSound id s = record {
    consistent = at_offset-Consistent id (pos 0) zero-IsInt64;
    is_open = λ _. refl;
    no_line = λ _. refl;
  }

  stopped-IsSound : (er : Error) (f : Follower) (s : S) → Consistent f → IsSound (ran (some er) f s)
  stopped-IsSound er f s h = record {
    consistent = h;
    is_open = λ n. absurd cc;
    no_line = λ n. absurd cc;
  }

  pub read_available-IsSound :
      (reads : Stream (List ℕ)) (f : Follower) (s : S)
      → IsSound (ran none f s)
      → IsSound (read_available e cfg reads f s)
  read_available-IsSound reads f s h =
      let a = read_available-Agree e cfg reads f s (h.is_open refl) (h.no_line refl) in
      record {
        consistent = read_available-Consistent e cfg reads f s h.consistent;
        is_open = λ n. a.is_open ∙ h.is_open refl;
        no_line = λ n. a.cut (first_none _ (ending_of reads) (sym a.stopped ∙ n));
      }

  reopened-IsSound :
      (file : Result Opened) (f : Follower) (s : S)
      → Consistent f
      → IsSound (reopened e cfg file f s)
  unfolding reopened Consistent
  reopened-IsSound (err er) f s h = stopped-IsSound er (record f { is_open = false }) s h
  reopened-IsSound (ok file) f s h = start_over-IsSound file.identity s

  truncated-IsSound :
      (k : Look) (f : Follower) (s : S) → IsSound (ran none f s) → IsSound (truncated e cfg k f s)
  unfolding truncated
  truncated-IsSound k f s h = elim (Option-cases k.seek_error) [
    | inl g ↦ rw (truncated, g) (start_over-IsSound f.identity s)
    | inr (er, g) ↦
        rw (truncated, g)
          (stopped-IsSound (about (codes "seek truncated file") er) f s h.consistent)
  ]

  -- a part of the work that did not end with an error
  pub going_on : (r : Ran S) → IsSound r → r.stopped ≡ none → IsSound (ran none r.follower r.state)
  going_on r h g = record {
    consistent = h.consistent;
    is_open = λ _. h.is_open g;
    no_line = λ _. h.no_line g;
  }

  unless_stopped-IsSound :
      (next : Follower → S → Ran S) (r : Ran S) (sound : IsSound r)
      (rest : (f : Follower) (s : S) → IsSound (ran none f s) → IsSound (next f s))
      → IsSound (unless_stopped e cfg next r)
  unless_stopped-IsSound next r sound rest = elim (Option-cases r.stopped) [
    | inr (er, g) ↦ rw g (stopped-IsSound er r.follower r.state sound.consistent)
    | inl g ↦ rw g (rest r.follower r.state (going_on r sound g))
  ]

  rotated-IsSound : (k : Look) (r : Ran S) → IsSound r → IsSound (rotated e cfg k r)
  unfolding rotated
  rotated-IsSound k r h =
      unless_stopped-IsSound
        (λ f. λ s. reopened e cfg (open_file_with_identity k.open_error k.info) f s) r h
        (λ f. λ s.
          λ h'. reopened-IsSound (open_file_with_identity k.open_error k.info) f s h'.consistent)

  compare_file-IsSound :
      (k : Look) (file : Opened) (f : Follower) (s : S)
      → IsSound (ran none f s)
      → IsSound (compare_file e cfg k file f s)
  unfolding compare_file
  compare_file-IsSound k file f s h = elim (Bool-cases (same_file file.identity f.identity)) [
    | inr g ↦ rw g (
        rotated-IsSound k (read_available e cfg k.remaining f s)
          (read_available-IsSound k.remaining f s h))
    | inl g ↦ elim (Bool-cases (ltb_ℤ file.size f.read_offset)) [
      | inl l ↦ rw (g, l) (truncated-IsSound k f s h)
      | inr l ↦ rw (g, l) h
    ]
  ]

  look_at-IsSound :
      (k : Look) (seen : Option (Result Opened)) (f : Follower) (s : S)
      → IsSound (ran none f s)
      → IsSound (look_at e cfg k seen f s)
  unfolding look_at
  look_at-IsSound k none f s h = h
  look_at-IsSound k (some (err er)) f s h = stopped-IsSound er f s h.consistent
  look_at-IsSound k (some (ok file)) f s h = compare_file-IsSound k file f s h

  pub poll_once-IsSound :
      (p : Poll) (f : Follower) (s : S) → IsSound (ran none f s) → IsSound (poll_once e cfg p f s)
  unfolding poll_once handle_file_changes
  poll_once-IsSound p f s h =
      unless_stopped-IsSound (λ f'. λ s'. handle_file_changes e cfg p.look f' s')
        (read_available e cfg p.reads f s) (read_available-IsSound p.reads f s h)
        (λ f'. λ s'. look_at-IsSound p.look (stat_file_with_identity p.look.stat) f' s')

  -- Rounds that start from a sound follower leave a sound one, however many they are and whatever
  -- each of them meets, a truncation, a rotation or an error: read_offset is committed_offset and the
  -- pending bytes together, and, unless an error has ended the work, the file is open and no whole
  -- line waits.
  pub run_polls-IsSound :
      (ps : List Poll) (f : Follower) (s : S) (sound : IsSound (ran none f s))
      → IsSound (run_polls e cfg ps f s)
  unfolding run_polls
  run_polls-IsSound [] f s sound = sound
  run_polls-IsSound (p ∷ ps) f s sound =
      unless_stopped-IsSound (λ f'. λ s'. run_polls e cfg ps f' s') (poll_once e cfg p f s)
        (poll_once-IsSound p f s sound) (λ f'. λ s'. λ h. run_polls-IsSound ps f' s' h)
