-- ===== src/Tests/Follower.antt =====
-- A small file, followed, restarted and its checkpoint saved.
use audit_logging.Common.{
  ℕ, [], List, ◌∷◌, ◌++◌, ◌≡◌, refl, ap, append_assoc, true, none, some, arith, ◌⊎◌, take,
  drop-append, drop, length, ◌==◌, if◌then◌else◌,
}
use audit_logging.Common.Int.{ℤ, pos, negsuc, add_int64}
use audit_logging.Text.{codes, equal}
use audit_logging.Server.Model.{failure, Result, ok, ok_injective, err, Stream, eof, more}
use audit_logging.Forwarder.Checkpoint.{
  Checkpoint, Files, Codec, Calls, save_checkpoint, load_checkpoint, stamped, write_temp, publish,
  sync_directory,
}
use audit_logging.Forwarder.Checkpoint.Laws.{IsNew, save_checkpoint_atomic, load-save}
use audit_logging.Forwarder.Follower.{
  FileIdentity, Follower, Sink, Ran, read_available, read_on, take_chunk, drain, round, emit,
  index_byte, trim_return,
}
use audit_logging.Forwarder.Follower.Bytes.{by_byte}
use audit_logging.Forwarder.Follower.Chunks.{Agree}
use audit_logging.Forwarder.Follower.Reads.{read_available-Agree, bytes_of, ending_of}
use audit_logging.Forwarder.Follower.Changes.{
  Poll, missing, at_offset, open_from_checkpoint, start_offset, run_polls,
}
use audit_logging.Forwarder.Follower.Changes.Laws.{
  IsSound, ran, run_polls-IsSound, at_offset-Consistent, zero-IsInt64,
}
use audit_logging.Forwarder.Follower.Stored.{Stores}
use audit_logging.Forwarder.Follower.Restart.{SameOutcome, restart}
use audit_logging.Tests.Clients.{loaded}

-- A sink that remembers the lines and the offsets.
abbrev Journal : Type 0
Journal = List (List ℕ × ℤ)

abbrev journal : Sink Journal
journal = record {
  on_line = λ ev s. (none, s ++ ((ev.line, ev.committed_offset) ∷ []));
  save = λ path cp s. (none, s ++ (([], cp.offset) ∷ []));
  now = λ s. codes "T";
}

abbrev id : FileIdentity
id = record { dev = 1; inode = 7 }

-- "a\r\nbc\nd" in two pieces
abbrev pieces : Stream (List ℕ)
pieces = more (97 ∷ 13 ∷ []) (more (10 ∷ 98 ∷ 99 ∷ 10 ∷ 100 ∷ []) eof)

abbrev pub start : Follower
start = at_offset id (pos 0)

pub no_line : index_byte 10 [] ≡ none
unfolding index_byte
no_line = refl

lines_example :
    (read_available journal loaded pieces start []).state
    ≡ (97 ∷ [], pos 3) ∷ ([], pos 3) ∷ (98 ∷ 99 ∷ [], pos 6) ∷ ([], pos 6) ∷ []
unfolding read_available read_on take_chunk drain round emit index_byte trim_return add_int64
lines_example = refl

read_available-Agree_example :
    Agree true id none
      (read_available journal loaded pieces start [])
      (by_byte journal loaded id (97 ∷ 13 ∷ 10 ∷ 98 ∷ 99 ∷ 10 ∷ 100 ∷ []) (pos 0) [] [])
unfolding bytes_of ending_of
read_available-Agree_example = read_available-Agree journal loaded pieces start [] refl no_line

sound : IsSound {S = Journal} (ran none start [])
sound = record {
  consistent = at_offset-Consistent id (pos 0) zero-IsInt64;
  is_open = λ _. refl;
  no_line = λ _. no_line;
}

abbrev pub quiet : Poll
quiet = record {
  reads = pieces;
  look = record {
    stat = missing;
    seek_error = none;
    remaining = eof;
    open_error = none;
    info = err (failure (codes "gone"));
  };
}

run_polls-IsSound_example : IsSound (run_polls journal loaded (quiet ∷ quiet ∷ []) start [])
run_polls-IsSound_example = run_polls-IsSound journal loaded (quiet ∷ quiet ∷ []) start [] sound

-- The file "a\nb" of which "a\nb" was read, and which then has grown by "\n".
abbrev file : List ℕ
file = 97 ∷ 10 ∷ 98 ∷ 10 ∷ []

abbrev seen : Stream (List ℕ)
seen = more (97 ∷ 10 ∷ 98 ∷ []) eof

-- A sink that remembers the lines, and the checkpoint that was saved last.
abbrev Kept : Type 0
Kept = Journal × Checkpoint

abbrev keeper : Sink Kept
keeper = record {
  on_line = λ ev s. (none, (s.0 ++ ((ev.line, ev.committed_offset) ∷ []), s.1));
  save = λ path cp s. (none, (s.0, cp));
  now = λ s. codes "T";
}

abbrev stored_at : ℤ → Checkpoint
stored_at z = record { file_path = codes "f"; offset = z; dev = 1; inode = 7; updated_at = [] }

abbrev load : Kept → Result Checkpoint
load s = ok s.1

keeper-Stores : Stores keeper load
keeper-Stores = record {
  by_line = λ ev s. refl;
  by_save = λ path cp s h g.
      (cp, refl, record { file_path = refl; offset = refl; dev = refl; inode = refl });
}

abbrev begin : Kept
begin = ([], stored_at (pos 0))

abbrev first : Ran Kept
first = record {
  stopped = none;
  follower = record {
    is_open = true;
    identity = id;
    read_offset = pos 3;
    committed_offset = pos 2;
    pending = 98 ∷ [];
  };
  state = ((97 ∷ [], pos 2) ∷ [], stored_at (pos 2));
}

first_reading : read_available keeper loaded seen start begin ≡ first
unfolding read_available read_on take_chunk drain round emit index_byte trim_return add_int64
first_reading = refl

reopening :
    open_from_checkpoint loaded
      (load (read_available keeper loaded seen start begin).state)
      (ok (record { identity = id; size = pos 4 }))
      none
    ≡ ok (at_offset id (pos 2))
unfolding open_from_checkpoint start_offset equal read_available read_on take_chunk drain round emit
    index_byte trim_return add_int64
reopening = refl

restart_example :
    SameOutcome
      (read_available keeper loaded
        (more (98 ∷ 10 ∷ []) eof)
        (at_offset id (pos 2))
        (read_available keeper loaded seen start begin).state)
      (read_available keeper loaded
        (more (10 ∷ []) eof)
        (read_available keeper loaded seen start begin).follower
        (read_available keeper loaded seen start begin).state)
unfolding bytes_of ending_of
restart_example =
    restart keeper loaded id load keeper-Stores file (97 ∷ 10 ∷ 98 ∷ []) (10 ∷ []) 0 begin seen
      (more (98 ∷ 10 ∷ []) eof) (more (10 ∷ []) eof) (at_offset id (pos 2)) (omega arith)
      (omega arith)
      (
        stored_at (pos 0),
        refl,
        record { file_path = refl; offset = refl; dev = refl; inode = refl },
      )
      refl refl (rw first_reading refl) reopening refl refl refl

-- A codec with the two texts behind their lengths.
abbrev sign : ℤ → ℕ
sign (pos n) = 0
sign (negsuc n) = 1

abbrev size : ℤ → ℕ
size (pos n) = n
size (negsuc n) = n

abbrev signed : ℕ → ℕ → ℤ
signed k n = if k == 0 then pos n else negsuc n

signed-sign : (z : ℤ) → signed (sign z) (size z) ≡ z
signed-sign (pos n) = refl
signed-sign (negsuc n) = refl

abbrev decoded : List ℕ → Result Checkpoint
decoded (k ∷ n ∷ d ∷ i ∷ l ∷ m ∷ rest) = ok (record {
  file_path = take l rest;
  offset = signed k n;
  dev = d;
  inode = i;
  updated_at = take m (drop l rest);
})
decoded _ = err (failure (codes "short"))

abbrev encoded : Checkpoint → List ℕ
encoded x =
    sign x.offset
    ∷ size x.offset
    ∷ x.dev
    ∷ x.inode
    ∷ length x.file_path
    ∷ length x.updated_at
    ∷ (x.file_path ++ x.updated_at)

abbrev pub codec : Codec
codec = record { marshal = λ x. ok (encoded x); decode = decoded }

take-append : (xs ys : List ℕ) → take (length xs) (xs ++ ys) ≡ xs
take-append [] ys = refl
take-append (x ∷ xs) ys = ap (◌∷◌ x) (take-append xs ys)

decoded-encoded : (x : Checkpoint) → decoded (encoded x ++ (10 ∷ [])) ≡ ok x
decoded-encoded x =
    rw
      (
        append_assoc x.file_path x.updated_at (10 ∷ []),
        take-append x.file_path (x.updated_at ++ (10 ∷ [])),
        drop-append x.file_path (x.updated_at ++ (10 ∷ [])),
        take-append x.updated_at (10 ∷ []),
        signed-sign x.offset,
      )
      refl

abbrev cp : Checkpoint
cp = record { file_path = codes "f"; offset = pos 2; dev = 1; inode = 7; updated_at = [] }

abbrev pub calm : Calls
calm = record {
  mkdir = none;
  now = codes "T";
  open_temp = none;
  write = none;
  sync_temp = some (failure (codes "invalid"), true);
  close_temp = none;
  rename = none;
  open_dir = none;
  seek_dir = none;
  sync_dir = none;
}

abbrev pub no_files : Files
no_files = record { current = none; temp = none }

load-save_example :
    load_checkpoint codec none (save_checkpoint codec calm cp no_files).files ≡ ok (stamped calm cp)
unfolding save_checkpoint write_temp publish sync_directory
load-save_example =
    load-save codec calm cp no_files (λ x. λ bytes. λ h. rw⁻¹ (ok_injective h) (decoded-encoded x))
      refl refl

-- A rename that fails.
abbrev stuck : Calls
stuck = record calm { rename = some (failure (codes "busy")) }

abbrev old : Files
old = record { current = some (codes "old"); temp = none }

save_checkpoint_atomic_example :
    (((save_checkpoint codec stuck cp old).files.current ≡ old.current)
      ⊎ IsNew codec stuck cp (save_checkpoint codec stuck cp old).files.current)
    × ((save_checkpoint codec stuck cp old).error ≡ none
        → IsNew codec stuck cp (save_checkpoint codec stuck cp old).files.current)
save_checkpoint_atomic_example = save_checkpoint_atomic codec stuck cp old
