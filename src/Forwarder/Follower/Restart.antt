-- ===== src/Forwarder/Follower/Restart.antt =====
-- cmd/log-forwarder/follower.go: a follower that is closed and opened again at its checkpoint.
use audit_logging.Common.{
  ℕ, ◌+◌, ◌^◌, ◌<◌, ◌≤◌, [], List, ◌++◌, append_assoc, length, length-append, length-drop, drop,
  drop-append, drop-drop, ◌≡◌, refl, sym, ◌∙◌, ap, ap₂, subst, Bool, true, Option, none, arith,
}
use audit_logging.Common.Int.{pos, pos_part}
use audit_logging.Text.Equal.{equal_refl}
use audit_logging.Server.Model.{Error, Result, Stream, ok, ok_injective}
use audit_logging.Forwarder.Config.{Config}
use audit_logging.Forwarder.Follower.{
  FileIdentity, Follower, Sink, Ran, newline, index_byte, read_available, checkpoint_at,
}
use audit_logging.Forwarder.Follower.Bytes.{Tail, by_byte, by_byte_pending}
use audit_logging.Forwarder.Follower.Chunks.{Agree, first_error}
use audit_logging.Forwarder.Follower.Reads.{read_available-Agree, bytes_of, ending_of}
use audit_logging.Forwarder.Follower.Progress.{by_byte-Progress}
use audit_logging.Forwarder.Follower.Stored.{SamePlace, Stores, by_byte-StoredAt, StoredAt}
use audit_logging.Forwarder.Checkpoint.{Checkpoint}
use audit_logging.Forwarder.Follower.Changes.Laws.{first_none}
use audit_logging.Forwarder.Follower.Changes.{Opened, at_offset, open_from_checkpoint, start_offset}

-- openFromCheckpoint at a checkpoint of the file that is there.
start_at :
    (cfg : Config) (id : FileIdentity) (c size : ℕ)
    → c ≤ size
    → start_offset cfg (checkpoint_at cfg id (pos c)) (record { identity = id; size = pos size })
      ≡ pos c
unfolding start_offset
start_at cfg id c size h = rw (equal_refl cfg.source_file) (ground arith)

start_same :
    (cfg : Config) (file : Opened) (cp cp' : Checkpoint)
    → SamePlace cp cp'
    → start_offset cfg cp file ≡ start_offset cfg cp' file
unfolding start_offset
start_same cfg file cp cp' p = rw (p.file_path, p.offset, p.dev, p.inode) refl

opened_at :
    (cfg : Config) (id : FileIdentity) (c size : ℕ) (r : Result Checkpoint) (cp : Checkpoint)
    → c ≤ size
    → r ≡ ok cp
    → SamePlace cp (checkpoint_at cfg id (pos c))
    → open_from_checkpoint cfg r (ok (record { identity = id; size = pos size })) none
      ≡ ok (at_offset id (pos c))
unfolding open_from_checkpoint
opened_at cfg id c size r cp h e p = rw e (
    rw
      (start_same cfg (record { identity = id; size = pos size }) cp (checkpoint_at cfg id (pos c))
        p)
      (rw (start_at cfg id c size h) refl))

rest_of_file :
    (file xs ys done pending : List ℕ) (o : ℕ)
    → drop o file ≡ xs ++ ys
    → xs ≡ done ++ pending
    → drop (o + length done) file ≡ pending ++ ys
rest_of_file file xs ys done pending o h g =
    drop-drop o (length done) file
    ∙ rw (h, g, append_assoc done pending ys) (drop-append done (pending ++ ys))

length_of_file :
    (file xs ys : List ℕ) (o : ℕ)
    → o ≤ length file
    → drop o file ≡ xs ++ ys
    → length file ≡ o + (length xs + length ys)
length_of_file file xs ys o h g =
    omega (arith, h, length-drop o file, ap (λ x. length x) g, length-append xs ys)

below :
    (file xs ys : List ℕ) (o : ℕ)
    → o ≤ length file
    → length file < 2 ^ 63
    → drop o file ≡ xs ++ ys
    → o + length xs < 2 ^ 63
below file xs ys o h k g = omega (arith, k, length_of_file file xs ys o h g)

within :
    (file xs ys done pending : List ℕ) (o : ℕ)
    → o ≤ length file
    → drop o file ≡ xs ++ ys
    → xs ≡ done ++ pending
    → o + length done ≤ length file
within file xs ys done pending o h g k =
    omega (arith, length_of_file file xs ys o h g, ap (λ x. length x) k, length-append done pending)

-- Two readings with the same outcome: the error, the state, and the offset.
unfoldable pub SameOutcome : {S : Type 0} → Ran S → Ran S → Type 0
SameOutcome r r' =
    (r.stopped ≡ r'.stopped)
    × (r.state ≡ r'.state)
    × (r.follower.committed_offset ≡ r'.follower.committed_offset)

module _ {S : Type 0} (e : Sink S) (cfg : Config) (id : FileIdentity) where
  -- Two readings that agree with one run of the machine.
  same :
      (o o' : Bool) (i i' : FileIdentity) (n n' : Option Error) (r r' : Ran S) (t t' : Tail S)
      → Agree o i n r t
      → Agree o' i' n' r' t'
      → n ≡ n'
      → t ≡ t'
      → SameOutcome r r'
  unfolding SameOutcome
  same o o' i i' n n' r r' t t' a b h g = (
    a.stopped ∙ (ap₂ (λ x. λ y. first_error x y) (ap (λ x. x.stopped) g) h ∙ sym b.stopped),
    a.state ∙ (ap (λ x. x.state) g ∙ sym b.state),
    a.committed ∙ (ap (λ x. x.committed) g ∙ sym b.committed),
  )

  no_line_yet : index_byte newline [] ≡ none
  unfolding index_byte
  no_line_yet = refl

  restart_from :
      (r : Ran S) (c : ℕ) (ys : List ℕ) (reads_again reads_on : Stream (List ℕ))
      (open_file : r.follower.is_open ≡ true)
      (no_line : index_byte newline r.follower.pending ≡ none) (identity : r.follower.identity ≡ id)
      (at : r.follower.committed_offset ≡ pos c)
      (again : bytes_of reads_again ≡ r.follower.pending ++ ys) (onward : bytes_of reads_on ≡ ys)
      (endings : ending_of reads_again ≡ ending_of reads_on)
      → SameOutcome
          (read_available e cfg reads_again (at_offset id (pos c)) r.state)
          (read_available e cfg reads_on r.follower r.state)
  restart_from r c ys reads_again reads_on open_file no_line identity at again onward endings =
      same _ _ _ _ _ _ _ _ _ _
        (read_available-Agree e cfg reads_again (at_offset id (pos c)) r.state refl no_line_yet)
        (read_available-Agree e cfg reads_on r.follower r.state open_file no_line) endings
        (rw (again, onward, identity, at)
          (by_byte_pending e cfg id r.follower.pending ys (pos c) r.state no_line))

  -- A follower that starts at the stored checkpoint, reads a part of the file without an error and is then
  -- opened again at the checkpoint that LoadCheckpoint finds in the store, on the same file of less than
  -- 2^63 bytes, does with what it reads from there what the first would have done had it gone on with the
  -- rest of the file: the same events and checkpoints, the same error and the same committed offset, so
  -- that no line is lost and none is handed on twice. The store is changed by the saves alone, which are
  -- found in it again.
  pub restart :
      (load : S → Result Checkpoint) (stores : Stores e load) (file xs ys : List ℕ) (o : ℕ) (s : S)
      (reads reads_again reads_on : Stream (List ℕ)) (f : Follower) (start : o ≤ length file)
      (small : length file < 2 ^ 63) (stored : StoredAt e cfg id load stores (pos o) s)
      (content : drop o file ≡ xs ++ ys) (first : bytes_of reads ≡ xs)
      (going : (read_available e cfg reads (at_offset id (pos o)) s).stopped ≡ none)
      (opening : open_from_checkpoint cfg
          (load (read_available e cfg reads (at_offset id (pos o)) s).state)
          (ok (record { identity = id; size = pos (length file) }))
          none
        ≡ ok f)
      (again : bytes_of reads_again ≡ drop (pos_part f.read_offset) file)
      (onward : bytes_of reads_on ≡ ys) (endings : ending_of reads_again ≡ ending_of reads_on)
      → SameOutcome
          (read_available e cfg reads_again f
            (read_available e cfg reads (at_offset id (pos o)) s).state)
          (read_available e cfg reads_on
            (read_available e cfg reads (at_offset id (pos o)) s).follower
            (read_available e cfg reads (at_offset id (pos o)) s).state)
  restart load stores file xs ys o s reads reads_again reads_on f start small stored content first
        going opening again onward endings =
      let f0 = at_offset id (pos o) in
      let r = read_available e cfg reads f0 s in
      let t = by_byte e cfg id (bytes_of reads) (pos o) [] s in
      let a = read_available-Agree e cfg reads f0 s refl no_line_yet in
      let kept : t.stopped ≡ none = first_none _ _ (sym a.stopped ∙ going) in
      let bound : o + length (bytes_of reads) < 2 ^ 63 =
        rw first (below file xs ys o start small content) in
      let p = by_byte-Progress e cfg id (bytes_of reads) [] o s bound kept in
      let split = sym first ∙ p.split in
      let c = o + length p.handed_on in
      let at : r.follower.committed_offset ≡ pos c = a.committed ∙ p.committed in
      let (cp, loaded, place) =
        by_byte-StoredAt e cfg id load stores (bytes_of reads) [] o s bound stored kept in
      let opened =
        opened_at cfg id c (length file) (load r.state) cp
          (within file xs ys p.handed_on t.pending o start content split) (ap load a.state ∙ loaded)
          (subst (λ z. SamePlace cp (checkpoint_at cfg id z)) p.committed place) in
      let same_follower : f ≡ at_offset id (pos c) = ok_injective (sym opening ∙ opened) in
      subst
        (λ x.
          SameOutcome (read_available e cfg reads_again x r.state)
            (read_available e cfg reads_on r.follower r.state))
        (sym same_follower)
        (restart_from r c ys reads_again reads_on a.is_open (a.cut kept) a.identity at
          (again
            ∙ (ap (λ x. drop (pos_part x.read_offset) file) same_follower
                ∙ (rest_of_file file xs ys p.handed_on t.pending o content split
                    ∙ ap (λ x. x ++ ys) (sym (a.pending kept)))))
          onward endings)
