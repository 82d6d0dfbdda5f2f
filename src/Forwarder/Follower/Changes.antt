-- ===== src/Forwarder/Follower/Changes.antt =====
-- cmd/log-forwarder/follower.go: opening the file at its checkpoint, its truncation and its rotation,
-- and the loop of Run.
pub mod Laws
pub mod Keeps
use audit_logging.Common.{
  ℕ, [], List, ◌∷◌, Bool, true, false, ◌&&◌, Option, none, some, ◌==◌, if◌then◌else◌,
}
use audit_logging.Common.Int.{ℤ, pos, ltb_ℤ, leb_ℤ}
use audit_logging.Text.{Text, codes, equal}
use audit_logging.Server.Model.{Error, failure, Result, ok, err, Stream}
use audit_logging.Forwarder.Checkpoint.{Checkpoint, about}
use audit_logging.Forwarder.Config.{Config}
use audit_logging.Forwarder.Follower.{
  FileIdentity, same_file, Follower, new_follower, Sink, Ran, checkpoint_at, read_available,
  unless_stopped,
}

-- os.FileInfo: the size, and the numbers of a Stat_t where Sys gives one
pub record FileInfo : Type 0 where
  pub size : ℤ
  pub sys : Option FileIdentity

-- os.Stat: no such file, another error, or what there is
pub data Stat : Type 0 where
  missing : Stat
  refused : Error → Stat
  present : FileInfo → Stat

unfoldable pub file_identity_from_info : FileInfo → Result FileIdentity
file_identity_from_info info = elim info.sys [
  | none ↦ err (failure (codes "file identity unavailable"))
  | some id ↦ ok id
]

-- An open file: its identity and its size.
pub record Opened : Type 0 where
  pub identity : FileIdentity
  pub size : ℤ

abbrev with_size : ℤ → Result FileIdentity → Result Opened
with_size size (err er) = err er
with_size size (ok id) = ok record { identity = id; size = size }

-- openFileWithIdentity, with the error of os.Open and the answer of file.Stat
unfoldable pub open_file_with_identity : Option Error → Result FileInfo → Result Opened
open_file_with_identity (some er) info = err (about (codes "open source file") er)
open_file_with_identity none (err er) = err (about (codes "stat source file") er)
open_file_with_identity none (ok info) = with_size info.size (file_identity_from_info info)

-- statFileWithIdentity; the error for a file that is not there is kept apart.
unfoldable pub stat_file_with_identity : Stat → Option (Result Opened)
stat_file_with_identity missing = none
stat_file_with_identity (refused er) = some (err (about (codes "stat source file") er))
stat_file_with_identity (present info) = some (with_size info.size (file_identity_from_info info))

-- What one look at the file meets: its Stat, the errors of Seek and Open, what is left to read in the
-- open file, and the Stat of the file that is opened in its place.
pub record Look : Type 0 where
  pub stat : Stat
  pub seek_error : Option Error
  pub remaining : Stream (List ℕ)
  pub open_error : Option Error
  pub info : Result FileInfo

-- What one round of Run meets.
pub record Poll : Type 0 where
  pub reads : Stream (List ℕ)
  pub look : Look

-- a follower at an offset, with nothing pending
abbrev pub at_offset : FileIdentity → ℤ → Follower
at_offset id offset = record {
  is_open = true;
  identity = id;
  read_offset = offset;
  committed_offset = offset;
  pending = [];
}

unfoldable pub start_offset : Config → Checkpoint → Opened → ℤ
start_offset cfg cp file =
    if equal cp.file_path cfg.source_file && (leb_ℤ (pos 0) cp.offset && leb_ℤ cp.offset file.size)
    then (if cp.dev == file.identity.dev && cp.inode == file.identity.inode
        then cp.offset
        else pos 0)
    else pos 0

-- openFromCheckpoint on a follower that has no file yet
unfoldable pub open_from_checkpoint :
    Config → Result Checkpoint → Result Opened → Option Error → Result Follower
open_from_checkpoint cfg (err er) file seek_error = err er
open_from_checkpoint cfg (ok cp) (err er) seek_error = err er
open_from_checkpoint cfg (ok cp) (ok file) (some er) = err (about (codes "seek source file") er)
open_from_checkpoint cfg (ok cp) (ok file) none =
    ok (at_offset file.identity (start_offset cfg cp file))

module _ {S : Type 0} (e : Sink S) (cfg : Config) where
  -- the follower that starts a file over, and its checkpoint
  unfoldable pub start_over : FileIdentity → S → Ran S
  start_over id s =
      let r = e.save cfg.checkpoint_path (checkpoint_at cfg id (pos 0)) s in
      record { stopped = r.0; follower = at_offset id (pos 0); state = r.1 }

  -- a file that has become shorter than what was read of it
  unfoldable pub truncated : Look → Follower → S → Ran S
  truncated k f s = elim k.seek_error [
    | some er ↦ record {
      stopped = some (about (codes "seek truncated file") er);
      follower = f;
      state = s;
    }
    | none ↦ start_over f.identity s
  ]

  -- the new file in place of the one that was read to its end and closed
  unfoldable pub reopened : Result Opened → Follower → S → Ran S
  reopened (err er) f s = record {
    stopped = some er;
    follower = record f { is_open = false };
    state = s;
  }
  reopened (ok file) f s = start_over file.identity s

  unfoldable pub rotated : Look → Ran S → Ran S
  rotated k r =
      unless_stopped e cfg (λ f. λ s. reopened (open_file_with_identity k.open_error k.info) f s) r

  -- the file that is there, against the one that is open
  unfoldable pub compare_file : Look → Opened → Follower → S → Ran S
  compare_file k file f s =
      if same_file file.identity f.identity
      then (if ltb_ℤ file.size f.read_offset
          then truncated k f s
          else record { stopped = none; follower = f; state = s })
      else rotated k (read_available e cfg k.remaining f s)

  look_at : Look → Option (Result Opened) → Follower → S → Ran S
  look_at k none f s = record { stopped = none; follower = f; state = s }
  look_at k (some (err er)) f s = record { stopped = some er; follower = f; state = s }
  look_at k (some (ok file)) f s = compare_file k file f s

  unfoldable pub handle_file_changes : Look → Follower → S → Ran S
  unfolding look_at
  handle_file_changes k f s = look_at k (stat_file_with_identity k.stat) f s

  -- one round of Run
  unfoldable pub poll_once : Poll → Follower → S → Ran S
  poll_once p f s =
      unless_stopped e cfg (λ f'. λ s'. handle_file_changes p.look f' s')
        (read_available e cfg p.reads f s)

  -- The rounds of Run, the last of which the context ends.
  unfoldable pub run_polls : List Poll → Follower → S → Ran S
  run_polls [] f s = record { stopped = none; follower = f; state = s }
  run_polls (p ∷ ps) f s = unless_stopped e cfg (λ f'. λ s'. run_polls ps f' s') (poll_once p f s)

  -- Run; there is at least one round, and the file is closed at the end.
  unfoldable pub run :
      Result Checkpoint → Result Opened → Option Error → Poll → List Poll → S → Ran S
  run cp file seek_error first rest s = elim (open_from_checkpoint cfg cp file seek_error) [
    | err er ↦ record { stopped = some er; follower = new_follower; state = s }
    | ok f ↦
        let r = run_polls (first ∷ rest) f s in
        record r { follower = record (r.follower) { is_open = false } }
  ]
