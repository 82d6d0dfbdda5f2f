-- ===== src/Forwarder/Follower.antt =====
-- cmd/log-forwarder/follower.go: the bytes of the followed file, cut into lines that are handed on one by one.
pub mod Bytes
pub mod Chunks
pub mod Reads
pub mod Offsets
pub mod Changes
pub mod Progress
pub mod Stored
pub mod Restart
use audit_logging.Common.{
  ℕ, zero, suc, ◌+◌, [], List, ◌∷◌, ◌++◌, Bool, true, false, ◌&&◌, not, Option, none, some, ◌==◌,
  if◌then◌else◌, length, take, drop,
}
use audit_logging.Common.Int.{ℤ, pos, ltb_ℤ, leb_ℤ, add_int64}
use audit_logging.Text.{Text, codes, equal}
use audit_logging.Server.Model.{Error, failure, Result, ok, err, Stream, eof, broken, more}
use audit_logging.Forwarder.Checkpoint.{Checkpoint, about}
use audit_logging.Forwarder.Config.{Config}

pub record FileIdentity : Type 0 where
  pub dev : ℕ
  pub inode : ℕ

-- FileIdentity.Equal
unfoldable pub same_file : FileIdentity → FileIdentity → Bool
same_file a b = a.dev == b.dev && a.inode == b.inode

-- A line is the bytes between two line ends.
pub record TailEvent : Type 0 where
  pub line : List ℕ
  pub source_file : Text
  pub committed_offset : ℤ
  pub read_at : Text

-- The fields of Follower that change; `is_open` tells whether `file` is nil.
pub record Follower : Type 0 where
  pub is_open : Bool
  pub identity : FileIdentity
  pub read_offset : ℤ
  pub committed_offset : ℤ
  pub pending : List ℕ

-- NewFollower
abbrev pub new_follower : Follower
new_follower = record {
  is_open = false;
  identity = record { dev = 0; inode = 0 };
  read_offset = pos 0;
  committed_offset = pos 0;
  pending = [];
}

-- What a line is handed to, with the state that it changes: the callback (a nil one is the one that
-- does nothing), SaveCheckpoint with its path, and the clock.
pub record Sink (S : Type 0) : Type 0 where
  pub on_line : TailEvent → S → Option Error × S
  pub save : Text → Checkpoint → S → Option Error × S
  pub now : S → Text

-- How a part of the work ended, the follower that it left and the state.
pub record Ran (S : Type 0) : Type 0 where
  pub stopped : Option Error
  pub follower : Follower
  pub state : S

abbrev pub newline : ℕ
newline = 10

-- bytes.IndexByte
unfoldable pub index_byte : ℕ → List ℕ → Option ℕ
index_byte b [] = none
index_byte b (c ∷ cs) =
    let rest = index_byte b cs in
    if c == b then some 0 else elim rest [ none ↦ none | some i ↦ some (suc i) ]

-- strings.TrimSuffix(line, "\r")
unfoldable pub trim_return : List ℕ → List ℕ
trim_return [] = []
trim_return (c ∷ []) = if c == 13 then [] else c ∷ []
trim_return (c ∷ d ∷ cs) = c ∷ trim_return (d ∷ cs)

-- the checkpoint at an offset; SaveCheckpoint fills in the time
abbrev pub checkpoint_at : Config → FileIdentity → ℤ → Checkpoint
checkpoint_at cfg id offset = record {
  file_path = cfg.source_file;
  offset = offset;
  dev = id.dev;
  inode = id.inode;
  updated_at = [];
}

module _ {S : Type 0} (e : Sink S) (cfg : Config) where
  -- the callback on a line that ends at the offset, and then the checkpoint
  unfoldable pub emit : FileIdentity → ℤ → List ℕ → S → Option Error × S
  emit id offset line s =
      let r =
        e.on_line
          record {
            line = trim_return line;
            source_file = cfg.source_file;
            committed_offset = offset;
            read_at = e.now s;
          }
          s in
      elim r.0 [
        | some er ↦ (some er, r.1)
        | none ↦ e.save cfg.checkpoint_path (checkpoint_at cfg id offset) r.1
      ]

  -- what follows the callback and the save
  abbrev pub after_line : (Follower → S → Ran S) → Follower → Option Error × S → Ran S
  after_line next f (some er, s) = record { stopped = some er; follower = f; state = s }
  after_line next f (none, s) = next f s

  -- One round of the loop, with the index of the first line end.
  unfoldable pub round : (Follower → S → Ran S) → Follower → S → Option ℕ → Ran S
  round next f s none = record { stopped = none; follower = f; state = s }
  round next f s (some i) =
      let f' : Follower = record f {
        pending = drop (suc i) f.pending;
        committed_offset = add_int64 f.committed_offset (pos (suc i));
      } in
      after_line next f' (emit f.identity f'.committed_offset (take i f.pending) s)

  -- The loop over the pending bytes; each round takes at least one byte, so that their number is
  -- enough rounds.
  unfoldable pub drain : ℕ → Follower → S → Ran S
  unfolding round
  drain zero f s = record { stopped = none; follower = f; state = s }
  drain (suc n) f s = round (λ f'. λ s'. drain n f' s') f s (index_byte newline f.pending)

  -- one answer of Read with bytes in it
  unfoldable pub take_chunk : List ℕ → Follower → S → Ran S
  take_chunk chunk f s =
      let pending = f.pending ++ chunk in
      drain (length pending)
        (record f { read_offset = add_int64 f.read_offset (pos (length chunk)); pending = pending })
        s

  -- what follows a part of the work that did not end with an error
  abbrev pub unless_stopped : (Follower → S → Ran S) → Ran S → Ran S
  unless_stopped next r = elim r.stopped [ some er ↦ r | none ↦ next r.follower r.state ]

  -- The answers of Read until the end of the file or an error.
  unfoldable pub read_on : Stream (List ℕ) → Follower → S → Ran S
  read_on eof f s = record { stopped = none; follower = f; state = s }
  read_on (broken er) f s = record {
    stopped = some (about (codes "read source file") er);
    follower = f;
    state = s;
  }
  read_on (more [] rest) f s = read_on rest f s
  read_on (more (b ∷ bs) rest) f s =
      unless_stopped (λ f'. λ s'. read_on rest f' s') (take_chunk (b ∷ bs) f s)

  unfoldable pub read_available : Stream (List ℕ) → Follower → S → Ran S
  read_available reads f s = if f.is_open then read_on reads f s else record {
    stopped = some (failure (codes "follower has no open file"));
    follower = f;
    state = s;
  }
