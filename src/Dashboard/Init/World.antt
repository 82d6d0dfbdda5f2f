-- ===== src/Dashboard/Init/World.antt =====
-- cmd/security-dashboard/init.go: what runInit works on, and how it ends.
use audit_logging.Common.{ℕ, List, Bool, Option}
use audit_logging.Text.{Text}
use audit_logging.Server.Model.{Error, Result}
use audit_logging.Dashboard.Tasks.{Task}
use audit_logging.Dashboard.Checks.{CheckDef}
use audit_logging.Dashboard.Config.{App, Config, Standard, ComplianceDoc}
use audit_logging.Dashboard.Init.Stack.{Project}
use audit_logging.Dashboard.Init.Audit.{Machine}
use audit_logging.Dashboard.Init.Raw.{Raw, Printer}

pub record InitOpts : Type 0 where
  pub dry_run : Bool
  pub check : Bool
  pub force : Bool

-- The JSON codec of config.json and tasks.json: a text may decode to a nil map, and an encoder may fail.
pub record Codec : Type 0 where
  pub decode_raw : Text → Result (Option Raw)
  pub decode_config : Text → Result Config
  pub app : App → Text
  pub checks : List CheckDef → Option Text
  pub text : Text → Option Text
  pub docs : List ComplianceDoc → Option Text
  pub standards : List Standard → Option Text
  pub tasks : List Task → Result Text
  pub printer : Printer

-- What `init` works on: the project, the machine, the codec, the two paths and the absolute path of the
-- root, and the errors of the calls: of os.ReadFile on a file that is there, of os.Stat likewise, of
-- MkdirAll, and of the two os.WriteFile, with the bytes that reach the file if it could be opened.
pub record World : Type 0 where
  pub project : Project
  pub machine : Machine
  pub codec : Codec
  pub config_path : Text
  pub tasks_path : Text
  pub abs_root : Result Text
  pub read_error : Option Error
  pub stat_fails : Bool
  pub mkdir_error : Option Error
  pub config_error : Option (Error × Option ℕ)
  pub tasks_error : Option (Error × Option ℕ)

pub record Files : Type 0 where
  pub config : Option Text
  pub tasks : Option Text

-- How the command ends: runInit returns, the process exits with a code, or an assignment to a nil map
-- panics.
pub data Ended : Type 0 where
  returned : Option Error → Ended
  exited : ℕ → Ended
  panicked : Ended

pub record Outcome : Type 0 where
  pub ended : Ended
  pub said : List Text
  pub files : Files
