-- ===== src/Dashboard/Runs.antt =====
-- cmd/security-dashboard/main.go and checks.go: the recorded runs of a scan.
pub mod Laws
use audit_logging.Common.{
  ℕ, [], List, ◌∷◌, ◌++◌, Bool, true, false, not, ◌&&◌, Option, none, some, take, if◌then◌else◌,
}
use audit_logging.Text.{Text, codes, is_empty, equal}
use audit_logging.Text.Order.{less, sort_slice}
use audit_logging.Server.Model.{Error, Result, ok, err}
use audit_logging.Dashboard.Words.{git_out}
use audit_logging.Dashboard.Checks.{CheckDef, CheckResult, Totals}
use audit_logging.Dashboard.Checks.Counts.{Tools}
use audit_logging.Dashboard.Checks.Scan.{Shell, perform_scan}

pub record Run : Type 0 where
  pub id : Text
  pub started_at : Text
  pub git_sha : Text
  pub git_branch : Text
  pub trigger : Text
  pub checks : List CheckResult
  pub totals : Totals

-- What a run is stamped with: the texts of the clock, and what git prints for the revision and the branch.
pub record Stamp : Type 0 where
  pub run_id : Text
  pub started_at : Text
  pub sha : Option Text
  pub branch : Option Text

-- performScan; the lines that it prints and the directory of the run are left out.
unfoldable pub scan_run : Tools → Shell → Stamp → List CheckDef → Text → Run
scan_run w sh stamp defs trigger =
    let (checks, totals) = perform_scan w sh defs in
    record {
      id = stamp.run_id;
      started_at = stamp.started_at;
      git_sha = git_out stamp.sha;
      git_branch = git_out stamp.branch;
      trigger = trigger;
      checks = checks;
      totals = totals;
    }

-- One file of the directory of runs: its name without `.json`, and its text, if os.ReadFile gives it.
pub record RunFile : Type 0 where
  pub name : Text
  pub text : Option Text

-- The JSON codec of a run.
pub record RunCodec : Type 0 where
  pub encode : Run → Result Text
  pub decode : Text → Option Run

-- `runs[i].ID > runs[j].ID`
unfoldable pub newer : Run → Run → Bool
newer a b = less b.id a.id

module _ (c : RunCodec) where
  -- the run that a file holds, if it can be read and decoded
  abbrev pub run_in : Option Text → Option Run
  run_in none = none
  run_in (some text) = c.decode text

  -- a run that is taken from a file: one with an id
  unfoldable pub taken : Option Run → List Run → List Run
  taken none runs = runs
  taken (some r) runs = if is_empty r.id then runs else r ∷ runs

  unfoldable pub read_runs : List RunFile → List Run
  read_runs [] = []
  read_runs (f ∷ fs) = taken (run_in f.text) (read_runs fs)

  unfoldable pub load_runs : List RunFile → List Run
  load_runs files = sort_slice newer (read_runs files)

-- The errors of saveRun: of MkdirAll, and of os.WriteFile with the bytes that reach the file if it could
-- be opened.
pub record SaveErrors : Type 0 where
  pub mkdir : Option Error
  pub write : Option (Error × Option ℕ)

-- a file of the given name with a text, in the place of one that has the name
unfoldable pub put_file : Text → Text → List RunFile → List RunFile
put_file name text [] = record { name = name; text = some text } ∷ []
put_file name text (f ∷ fs) =
    let rest = put_file name text fs in
    if equal f.name name then record f { text = some text } ∷ fs else f ∷ rest

unfoldable pub write_run :
    Text → Text → Option (Error × Option ℕ) → List RunFile → Option Error × List RunFile
write_run name text none files = (none, put_file name text files)
write_run name text (some (e, none)) files = (some e, files)
write_run name text (some (e, some n)) files = (some e, put_file name (take n text) files)

unfoldable pub encoded_run :
    Run → Result Text → SaveErrors → List RunFile → Option Error × List RunFile
encoded_run run (err e) k files = (some e, files)
encoded_run run (ok text) k files = write_run run.id (text ++ (10 ∷ [])) k.write files

unfoldable pub made_dir :
    RunCodec → Run → SaveErrors → Option Error → List RunFile → Option Error × List RunFile
made_dir c run k (some e) files = (some e, files)
made_dir c run k none files = encoded_run run (c.encode run) k files

unfoldable pub save_run : RunCodec → Run → SaveErrors → List RunFile → Option Error × List RunFile
save_run c run k files = made_dir c run k k.mkdir files
