-- ===== src/Forwarder/Checkpoint.antt =====
-- cmd/log-forwarder/checkpoint.go: the file that says up to where the log was handed on.
pub mod Laws
use audit_logging.Common.{
  ℕ, [], List, ◌∷◌, ◌++◌, Bool, true, false, Option, none, some, if◌then◌else◌, take,
}
use audit_logging.Common.Int.{ℤ, pos, ltb_ℤ}
use audit_logging.Text.{Text, codes}
use audit_logging.Server.Model.{Error, error_text, failure, Result, ok, err}

pub record Checkpoint : Type 0 where
  pub file_path : Text
  pub offset : ℤ
  pub dev : ℕ
  pub inode : ℕ
  pub updated_at : Text

-- The two files that a save writes: the checkpoint and the temporary file beside it.
pub record Files : Type 0 where
  pub current : Option Text
  pub temp : Option Text

-- The JSON codec of a checkpoint.
pub record Codec : Type 0 where
  pub marshal : Checkpoint → Result Text
  pub decode : Text → Result Checkpoint

-- What the calls of the operating system answer during one save: the error of each that fails, the
-- bytes that reach the file when the write breaks off, and whether the error of a Sync is EINVAL or ENOTSUP.
pub record Calls : Type 0 where
  pub mkdir : Option Error
  pub now : Text
  pub open_temp : Option Error
  pub write : Option (Error × ℕ)
  pub sync_temp : Option (Error × Bool)
  pub close_temp : Option Error
  pub rename : Option Error
  pub open_dir : Option Error
  pub seek_dir : Option Error
  pub sync_dir : Option (Error × Bool)

-- the error with a text in front of it
abbrev pub about : Text → Error → Error
about what e = failure (what ++ (codes ": " ++ error_text e))

-- the error of a Sync that isIgnorableSyncErr does not excuse
abbrev fatal : Option (Error × Bool) → Option Error
fatal none = none
fatal (some (e, ignorable)) = if ignorable then none else some e

unfoldable pub sync_directory : Calls → Option Error
sync_directory k = elim k.open_dir [
  | some e ↦ some e
  | none ↦ elim k.seek_dir [ some e ↦ some e | none ↦ fatal k.sync_dir ]
]

-- What a save leaves behind: its error, and the files.
pub record Saved : Type 0 where
  pub error : Option Error
  pub files : Files

abbrev stop_save : Text → Error → Files → Saved
stop_save what e files = record { error = some (about what e); files = files }

-- from the rename on
unfoldable pub publish : Calls → Files → Saved
publish k files = elim k.rename [
  | some e ↦ stop_save (codes "replace checkpoint") e files
  | none ↦
      let files : Files = record { current = files.temp; temp = none } in
      elim (sync_directory k) [
        | some e ↦ stop_save (codes "sync checkpoint directory") e files
        | none ↦ record { error = none; files = files }
      ]
]

-- the temporary file, from its opening on
unfoldable pub write_temp : Calls → Text → Files → Saved
unfolding publish
write_temp k bytes files = elim k.open_temp [
  | some e ↦ stop_save (codes "open checkpoint temp file") e files
  | none ↦ elim k.write [
    | some (e, n) ↦
        stop_save (codes "write checkpoint temp file") e
          (record files { temp = some (take n bytes) })
    | none ↦
        let files : Files = record files { temp = some bytes } in
        elim (fatal k.sync_temp) [
          | some e ↦ stop_save (codes "sync checkpoint temp file") e files
          | none ↦ elim k.close_temp [
            | some e ↦ stop_save (codes "close checkpoint temp file") e files
            | none ↦ publish k files
          ]
        ]
  ]
]

-- what is written of a checkpoint
abbrev pub stamped : Calls → Checkpoint → Checkpoint
stamped k cp = record cp { updated_at = k.now }

unfoldable pub save_checkpoint : Codec → Calls → Checkpoint → Files → Saved
unfolding write_temp
save_checkpoint c k cp files = elim k.mkdir [
  | some e ↦ stop_save (codes "mkdir checkpoint dir") e files
  | none ↦ elim (c.marshal (stamped k cp)) [
    | err e ↦ stop_save (codes "marshal checkpoint") e files
    | ok bytes ↦ write_temp k (bytes ++ (10 ∷ [])) files
  ]
]

abbrev pub no_checkpoint : Checkpoint
no_checkpoint = record { file_path = []; offset = pos 0; dev = 0; inode = 0; updated_at = [] }

abbrev loaded : Result Checkpoint → Result Checkpoint
loaded (err e) = err (about (codes "decode checkpoint") e)
loaded (ok cp) = ok (if ltb_ℤ cp.offset (pos 0) then record cp { offset = pos 0 } else cp)

-- LoadCheckpoint, with the error of os.Open that is not the file's absence
unfoldable pub load_checkpoint : Codec → Option Error → Files → Result Checkpoint
load_checkpoint c (some e) files = err (about (codes "open checkpoint") e)
load_checkpoint c none files = elim files.current [
  | none ↦ ok no_checkpoint
  | some bytes ↦ loaded (c.decode bytes)
]
