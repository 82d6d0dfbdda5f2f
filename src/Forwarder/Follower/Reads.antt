-- ===== src/Forwarder/Follower/Reads.antt =====
-- cmd/log-forwarder/follower.go: all the reads of readAvailable, and the pieces that they come in.
use audit_logging.Common.{
  ℕ, [], List, ◌∷◌, ◌++◌, ◌≡◌, refl, subst, ◌∙◌, Bool, true, Option, none, some, Option-cases, inl,
  inr, ap,
}
use audit_logging.Text.{codes}
use audit_logging.Server.Model.{Error, Stream, eof, broken, more}
use audit_logging.Forwarder.Checkpoint.{about}
use audit_logging.Forwarder.Config.{Config}
use audit_logging.Forwarder.Follower.{
  FileIdentity, Follower, Sink, Ran, newline, index_byte, take_chunk, unless_stopped, read_on,
  read_available,
}
use audit_logging.Forwarder.Follower.Chunks.{Agree, first_error, take_chunk-Agree}
use audit_logging.Forwarder.Follower.Bytes.{Tail, by_byte, by_byte-append, then_bytes}

-- All the bytes that the reads give, and the error that they end with.
unfoldable pub bytes_of : Stream (List ℕ) → List ℕ
bytes_of eof = []
bytes_of (broken er) = []
bytes_of (more chunk rest) = chunk ++ bytes_of rest

unfoldable pub ending_of : Stream (List ℕ) → Option Error
ending_of eof = none
ending_of (broken er) = some (about (codes "read source file") er)
ending_of (more chunk rest) = ending_of rest

module _ {S : Type 0} (e : Sink S) (cfg : Config) where
  chunk-Agree :
      (opened : Bool) (id : FileIdentity) (rest : Stream (List ℕ)) (r : Ran S) (t : Tail S)
      (a : Agree opened id none r t)
      (tail : (f : Follower) (s : S)
        → index_byte newline f.pending ≡ none
        → Agree f.is_open f.identity
            (ending_of rest)
            (read_on e cfg rest f s)
            (by_byte e cfg f.identity (bytes_of rest) f.committed_offset f.pending s))
      → Agree opened id
          (ending_of rest)
          (unless_stopped e cfg (λ f. λ s. read_on e cfg rest f s) r)
          (then_bytes e cfg id (bytes_of rest) t)
  chunk-Agree opened id rest r t a tail = elim (Option-cases t.stopped) [
    | inl g ↦
        let k : r.stopped ≡ none = a.stopped ∙ ap (λ x. first_error x none) g in
        rw (g, k)
          (rw⁻¹ (a.committed, a.pending g, a.state, a.identity, a.is_open)
            (tail r.follower r.state (a.cut g)))
    | inr (er, g) ↦
        let k : r.stopped ≡ some er = a.stopped ∙ ap (λ x. first_error x none) g in
        rw (g, k)
          (record {
            stopped = refl;
            state = a.state;
            committed = a.committed;
            identity = a.identity;
            is_open = a.is_open;
            pending = λ n. absurd cc;
            cut = λ n. absurd cc;
          })
  ]

  done-Agree :
      (ending : Option Error) (f : Follower) (s : S)
      → index_byte newline f.pending ≡ none
      → Agree f.is_open f.identity ending
          (record { stopped = ending; follower = f; state = s })
          (by_byte e cfg f.identity [] f.committed_offset f.pending s)
  unfolding by_byte
  done-Agree ending f s h = record {
    stopped = refl;
    state = refl;
    committed = refl;
    identity = refl;
    is_open = refl;
    pending = λ _. refl;
    cut = λ _. h;
  }

  read_on-Agree :
      (reads : Stream (List ℕ)) (f : Follower) (s : S)
      → index_byte newline f.pending ≡ none
      → Agree f.is_open f.identity
          (ending_of reads)
          (read_on e cfg reads f s)
          (by_byte e cfg f.identity (bytes_of reads) f.committed_offset f.pending s)
  unfolding read_on bytes_of ending_of
  read_on-Agree eof f s h = done-Agree none f s h
  read_on-Agree (broken er) f s h = done-Agree (some (about (codes "read source file") er)) f s h
  read_on-Agree (more [] rest) f s h = read_on-Agree rest f s h
  read_on-Agree (more (b ∷ bs) rest) f s h =
      rw (by_byte-append e cfg f.identity (b ∷ bs) (bytes_of rest) f.pending f.committed_offset s) (
        chunk-Agree f.is_open f.identity rest (take_chunk e cfg (b ∷ bs) f s)
          (by_byte e cfg f.identity (b ∷ bs) f.committed_offset f.pending s)
          (take_chunk-Agree e cfg (b ∷ bs) f s h) (λ f'. λ s'. λ h'. read_on-Agree rest f' s' h'))

  -- Whatever pieces the reads arrive in, readAvailable hands on the lines of the bytes that were read,
  -- and stands afterwards, as the machine that takes the bytes one by one: the same events and
  -- checkpoints in the same order, the same committed offset, the same bytes left over where no line
  -- was refused, and as its error the first refusal, or else the error of the reads.
  pub read_available-Agree :
      (reads : Stream (List ℕ)) (f : Follower) (s : S) (open_file : f.is_open ≡ true)
      (no_line : index_byte newline f.pending ≡ none)
      → Agree f.is_open f.identity
          (ending_of reads)
          (read_available e cfg reads f s)
          (by_byte e cfg f.identity (bytes_of reads) f.committed_offset f.pending s)
  unfolding read_available
  read_available-Agree reads f s open_file no_line = simp open_file (
      subst
        (λ b.
          Agree b f.identity (ending_of reads) (read_on e cfg reads f s)
            (by_byte e cfg f.identity (bytes_of reads) f.committed_offset f.pending s))
        open_file (read_on-Agree reads f s no_line))
