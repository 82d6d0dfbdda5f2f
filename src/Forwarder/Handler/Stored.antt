-- ===== src/Forwarder/Handler/Stored.antt =====
-- cmd/log-forwarder/main.go: the checkpoint file that the program's callbacks keep.
use audit_logging.Common.{◌∷◌, ◌++◌, [], ◌≡◌, refl, none}
use audit_logging.Text.{Text}
use audit_logging.Server.Model.{ok}
use audit_logging.Forwarder.Checkpoint.{Checkpoint, Codec, Calls, stamped, load_checkpoint}
use audit_logging.Forwarder.Checkpoint.Laws.{load-save}
use audit_logging.Forwarder.Follower.Stored.{Stores}
use audit_logging.Forwarder.Handler.{Env, Machine, sink}

-- What LoadCheckpoint reads in the files of the program is changed by its saves alone, each of which it
-- finds again if it reported no error, where decoding a marshalled checkpoint and a line end gives the
-- checkpoint.
pub sink-Stores :
    (v : Env) (c : Codec) (calls : Checkpoint → Calls) (now : Machine → Text)
    (decode-marshal : (x : Checkpoint) (bytes : Text)
      → c.marshal x ≡ ok bytes
      → c.decode (bytes ++ (10 ∷ [])) ≡ ok x)
    → Stores (sink v c calls now) (λ m. load_checkpoint c none m.files)
unfolding sink
sink-Stores v c calls now decode-marshal = record {
  by_line = λ ev m. refl;
  by_save = λ path cp m nonnegative saved. (
    stamped (calls cp) cp,
    load-save c (calls cp) cp m.files decode-marshal nonnegative saved,
    record { file_path = refl; offset = refl; dev = refl; inode = refl },
  );
}
